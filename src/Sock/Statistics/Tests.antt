-- ===== src/Sock/Statistics/Tests.antt =====
-- The statistics of a socket that has just been set up.
use nanomsg_copy.Prelude.{arith}
use nanomsg_copy.Sock.Statistics.Levels.{IsValid}
use nanomsg_copy.Sock.Samples.{fresh_counters}

fresh-IsValid : IsValid fresh_counters
fresh-IsValid = ground arith
