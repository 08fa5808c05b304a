-- ===== src/Sock/Transfer/Tests.antt =====
-- Calls that wait on a socket with a timeout of 50 ms.
use nanomsg_copy.Prelude.{
  ℕ, ◌≡◌, refl, true, false, Option, some, List, [], ◌∷◌, success, failure, Errno, returned, arith,
}
use nanomsg_copy.Prelude.Int.{pos}
use nanomsg_copy.Sock.{Sock, State}
use nanomsg_copy.Sock.Transfer.{
  Round, wakes, send, loop, try_send, outcome, is_stopping, next_timeout, timeout_of, deadline_of,
  resume,
}
use nanomsg_copy.Sock.Transfer.Timeouts.{WaitsAtMost, send-AtMost}
use nanomsg_copy.Sock.Samples.{no_protocol, fresh_sock, fresh_settings}

abbrev timed : Sock (Option ℕ) ℕ
timed = record fresh_sock {
  settings = record fresh_settings { sndtimeo = pos 50; rcvtimeo = pos 50 };
}

abbrev full : Sock (Option ℕ) ℕ
full = record timed { sockbase = some 9 }

-- Woken up at 1020, and timed out at 1051.
abbrev two_rounds : List (Round (Sock (Option ℕ) ℕ))
two_rounds =
    record { wait = success; others = λ s. s; signalled = true; now = 1020 }
    ∷ record { wait = failure Errno.etimedout; others = λ s. s; signalled = false; now = 1051 }
    ∷ []

abbrev stopped : Sock (Option ℕ) ℕ
stopped = record full { state = State.stopping_eps }

send-AtMost_example : WaitsAtMost 50 (send no_protocol two_rounds 1000 false 7 full)
send-AtMost_example =
    send-AtMost no_protocol two_rounds 1000 50 false 7 full refl (omega arith) (omega arith)
      (omega arith, (λ w. refl), (omega arith, (λ w. refl), tt))

-- The message cannot be sent, and the two waits are for 50 and 30 ms.
times_out :
    send no_protocol two_rounds 1000 false 7 full
    ≡ returned (record {
      rc = failure Errno.etimedout;
      msg = tt;
      waits = pos 30 ∷ pos 50 ∷ [];
      self = record full { flag_out = true };
    })
unfolding send loop try_send outcome is_stopping next_timeout timeout_of deadline_of resume wakes
times_out = refl
