-- ===== src/Msgqueue/Tests.antt =====
-- A queue of two chunks' worth of room, and a message of two bytes.
use nanomsg_copy.Prelude.{ℕ, Option, none, some, [], ◌∷◌}
use nanomsg_copy.Chunk.{Heap}
use nanomsg_copy.Chunkref.{inline}
use nanomsg_copy.Chunkref as Ref
use nanomsg_copy.Msg.{Msg}
use nanomsg_copy.Msgqueue.{Msgqueue}

abbrev no_blocks : Heap
no_blocks = record { next = 0; chunks = λ i. none }

abbrev zeros : ℕ → Option (ℕ → ℕ)
zeros n = some (λ i. 0)

abbrev two_bytes : Msg
two_bytes = record { sphdr = inline []; hdrs = inline []; body = inline (7 ∷ 7 ∷ []) }

abbrev queue : Msgqueue Msg
queue = record {
  out_chunk = some 1;
  out_pos = 0;
  in_chunk = some 1;
  in_pos = 0;
  count = 0;
  mem = 0;
  maxmem = 100;
  cache = none;
  msgs = λ c i. two_bytes;
  next = λ c. none;
}
