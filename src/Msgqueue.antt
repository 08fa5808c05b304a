-- ===== src/Msgqueue.antt =====
-- src/transports/inproc/msgqueue.c and msgqueue.h: a queue of messages in chunks of 126 places.
-- A message is any type with the operations of src/utils/msg.c that the queue calls.
-- Chunks are addresses, and the fields of all chunks are the functions `msgs` and `next`; what
-- nn_alloc returns is an argument, `none` where memory is exhausted.
pub mod Unsent
mod Tests
use nanomsg_copy.Prelude.{
  ℕ, ◌+◌, ◌-◌, ◌%◌, ◌^◌, Bool, ◌&&◌, Option, none, some, ltb, leb, ◌==◌, if◌then◌else◌, update, Rc,
  success, failure, Errno, Outcome, returned, ◌>>=◌, ◌>>◌, assert, List, [], ◌∷◌, ◌++◌, true, false,
  zero, suc,
}

-- NN_MSGQUEUE_GRANULARITY
abbrev pub granularity : ℕ
granularity = 126

abbrev pub size_mod : ℕ
size_mod = 2 ^ 64

pub record Msgqueue (Msg : Type 0) : Type 0 where
  pub out_chunk : Option ℕ
  pub out_pos : ℕ
  pub in_chunk : Option ℕ
  pub in_pos : ℕ
  pub count : ℕ  -- the messages that are stored, so it cannot wrap
  pub mem : ℕ  -- size_t
  pub maxmem : ℕ
  pub cache : Option ℕ
  pub msgs : ℕ → ℕ → Msg
  pub next : ℕ → Option ℕ

-- Reading or writing through NULL ends the program.
abbrev pub deref : Option ℕ → Outcome ℕ
deref none = Outcome.abort
deref (some p) = returned p

abbrev pub or_else : Option ℕ → Option ℕ → Option ℕ
or_else none b = b
or_else (some a) b = some a

-- What the queue calls on a message: the two calls of nn_chunkref_size, with their sum and the message that they
-- leave and nn_msg_mv to another place.
pub record MsgOps (Msg : Type 0) : Type 0 where
  pub size : Msg → Outcome (ℕ × Msg)
  pub mv : Msg → Outcome Msg

abbrev same_chunk : Option ℕ → Option ℕ → Bool
same_chunk none none = true
same_chunk (some a) (some b) = a == b
same_chunk _ _ = false

abbrev freed_chunk : Option ℕ → List ℕ
freed_chunk none = []
freed_chunk (some p) = p ∷ []

module _ {Msg : Type 0} (ops : MsgOps Msg) where
  pub init : Option ℕ → ℕ → (ℕ → ℕ → Msg) → (ℕ → Option ℕ) → Outcome (Msgqueue Msg)
  init fresh maxmem msgs next = do
    chunk ← deref fresh
    returned (record {
      out_chunk = some chunk;
      out_pos = 0;
      in_chunk = some chunk;
      in_pos = 0;
      count = 0;
      mem = 0;
      maxmem = maxmem;
      cache = none;
      msgs = msgs;
      next = update next chunk none;
    })

  pub empty : Msgqueue Msg → Bool
  empty self = self.count == 0

  -- The block that nn_msgqueue_send runs when the chunk `out` is full.
  next_out : Option ℕ → ℕ → Msgqueue Msg → Msgqueue Msg
  next_out fresh out self =
      let chunk = or_else self.cache fresh in
      record self {
        next = update self.next out chunk;
        out_chunk = chunk;
        cache = none;
        out_pos = 0;
      }

  -- With the message of the caller, which keeps what nn_chunkref_size has made of it.
  pub send : Option ℕ → Msg → Msgqueue Msg → Outcome (Rc × Msg × Msgqueue Msg)
  unfolding next_out
  send fresh msg self = do
    (msgsz, measured) ← ops.size msg
    (if ltb 0 self.count && leb self.maxmem ((self.mem + msgsz) % size_mod)
        then returned (failure Errno.eagain, measured, self)
        else do
          out ← deref self.out_chunk
          placed ← ops.mv measured
          let stored = record self {
            count = self.count + 1;
            mem = (self.mem + msgsz) % size_mod;
            msgs = update self.msgs out (update (self.msgs out) self.out_pos placed);
            out_pos = self.out_pos + 1;
          }
          returned (
            success,
            measured,
            if stored.out_pos == granularity then next_out fresh out stored else stored,
          ))

  -- The block that nn_msgqueue_recv runs when the chunk `chunk` is read to its end.
  next_in : ℕ → Msgqueue Msg → Msgqueue Msg
  next_in chunk self = record self {
    in_chunk = self.next chunk;
    in_pos = 0;
    cache = or_else self.cache (some chunk);
  }

  pub recv : Msgqueue Msg → Outcome (Rc × Option Msg × Msgqueue Msg)
  unfolding next_in
  recv self = if self.count == 0 then returned (failure Errno.eagain, none, self) else do
    chunk ← deref self.in_chunk
    msg ← ops.mv (self.msgs chunk self.in_pos)
    let taken = record self { in_pos = self.in_pos + 1 }
    let moved = if taken.in_pos == granularity then next_in chunk taken else taken
    (msgsz, measured) ← ops.size msg
    returned (
      success,
      some measured,
      record moved {
        count = moved.count - 1;
        mem = (moved.mem + size_mod - msgsz % size_mod) % size_mod;
      },
    )

  -- nn_msgqueue_term: the messages that it gives to nn_msg_term, in order, and the chunks that it frees at its
  -- end; those that nn_msgqueue_recv frees are not among them. The loop takes one unit of fuel for each call of
  -- nn_msgqueue_recv.
  pub term : ℕ → Msgqueue Msg → Outcome (List Msg × List ℕ)
  term zero self = Outcome.out_of_fuel
  term (suc fuel) self = do
    r ← recv self
    (elim r.0 [
      | failure Errno.eagain ↦
          assert (same_chunk self.in_chunk self.out_chunk)
          >> returned ([], freed_chunk self.in_chunk ++ freed_chunk self.cache)
      | failure e ↦ Outcome.abort
      | success ↦ elim r.1 [
        | none ↦ Outcome.abort
        | some msg ↦ do rest ← term fuel r.2; returned (msg ∷ rest.0, rest.1)
      ]
    ])
