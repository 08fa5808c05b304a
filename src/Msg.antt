-- ===== src/Msg.antt =====
-- src/utils/msg.c and msg.h: a message of three parts, each a struct nn_chunkref.
pub mod Ends
mod Tests
use nanomsg_copy.Prelude.{ℕ, ◌+◌, zero, suc, Option, List, [], ◌∷◌, Outcome, returned, ◌>>=◌}
use nanomsg_copy.Chunk.{Ptr, Heap}
use nanomsg_copy.Chunkref.{Chunkref}
use nanomsg_copy.Chunkref as Ref

pub record Msg : Type 0 where
  pub sphdr : Chunkref
  pub hdrs : Chunkref
  pub body : Chunkref

-- The bytes of each object that is not initialised are given.
module _ (malloc : ℕ → Option (ℕ → ℕ)) (memory : ℕ → ℕ) where
  unfoldable pub init : ℕ → Heap → Outcome (Msg × Heap)
  init size h = do
    (s, h1) ← Ref.init malloc memory 0 h
    (t, h2) ← Ref.init malloc memory 0 h1
    (b, h3) ← Ref.init malloc memory size h2
    returned (record { sphdr = s; hdrs = t; body = b }, h3)

  pub init_chunk : Ptr → Heap → Outcome (Msg × Heap)
  init_chunk p h = do
    (s, h1) ← Ref.init malloc memory 0 h
    (t, h2) ← Ref.init malloc memory 0 h1
    returned (record { sphdr = s; hdrs = t; body = Ref.init_chunk p }, h2)

pub term : Msg → Heap → Outcome Heap
term m h = do h1 ← Ref.term m.sphdr h; h2 ← Ref.term m.hdrs h1; Ref.term m.body h2

-- The new value of *dst.
pub mv : Msg → Msg → Outcome Msg
mv dst src = do
  s ← Ref.mv dst.sphdr src.sphdr
  t ← Ref.mv dst.hdrs src.hdrs
  b ← Ref.mv dst.body src.body
  returned (record { sphdr = s; hdrs = t; body = b })

-- nn_chunkref_size of the protocol header and of the body, as the queue of an in-process session adds them, with
-- the message that they leave.
pub sizes : Heap → Msg → Outcome (ℕ × Msg)
sizes h m = do
  (n, s) ← Ref.size m.sphdr h
  (k, b) ← Ref.size m.body h
  returned (n + k, record m { sphdr = s; body = b })

module _ (addref : Ptr → ℕ → Heap → Outcome Heap) where
  pub cp : Msg → Msg → Heap → Outcome (Msg × Heap)
  cp dst src h = do
    (s, h1) ← Ref.cp addref dst.sphdr src.sphdr h
    (t, h2) ← Ref.cp addref dst.hdrs src.hdrs h1
    (b, h3) ← Ref.cp addref dst.body src.body h2
    returned (record { sphdr = s; hdrs = t; body = b }, h3)

  pub bulkcopy_start : Msg → ℕ → Heap → Outcome Heap
  bulkcopy_start m copies h = do
    h1 ← Ref.bulkcopy_start addref m.sphdr copies h
    h2 ← Ref.bulkcopy_start addref m.hdrs copies h1
    Ref.bulkcopy_start addref m.body copies h2

pub bulkcopy_cp : Msg → Msg → Msg
bulkcopy_cp dst src = record {
  sphdr = Ref.bulkcopy_cp dst.sphdr src.sphdr;
  hdrs = Ref.bulkcopy_cp dst.hdrs src.hdrs;
  body = Ref.bulkcopy_cp dst.body src.body;
}

pub replace_body : Msg → Chunkref → Heap → Outcome (Msg × Heap)
replace_body m new_body h = do h' ← Ref.term m.body h; returned (record m { body = new_body }, h')
