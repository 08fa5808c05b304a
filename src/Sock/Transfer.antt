-- ===== src/Sock/Transfer.antt =====
-- nn_sock_send and nn_sock_recv of src/core/sock.c. A `Round` is what one wait of the loop meets: the
-- result of nn_efd_wait, what other threads do to the socket while the lock is left, whether the
-- descriptor still signals when the lock is taken again, and the clock after that. The results list
-- the timeouts of the waits, the last one first.
pub mod Loop
pub mod Blocking
pub mod Timeouts
mod Tests
use nanomsg_copy.Prelude.{
  ℕ, zero, suc, ◌+◌, ◌-◌, ◌%◌, ◌^◌, Bool, true, false, ◌||◌, Option, none, some, List, [], ◌∷◌, ltb,
  Rc, success, failure, Errno, Outcome, returned, ◌>>=◌, if◌then◌else◌,
}
use nanomsg_copy.Prelude.Int.{ℤ, pos, negsuc}
use nanomsg_copy.Sock.{Sock, State, Protocol, Reply}
use nanomsg_copy.Sock.Statistics.{to_int}

pub record Round (W : Type 0) : Type 0 where
  pub wait : Rc
  pub others : W → W
  pub signalled : Bool
  pub now : ℕ

-- One turn of the loop up to the wait; `fails` is an assertion.
pub data Attempt (R W : Type 0) : Type 0 where
  finished : R → W → Attempt R W
  would_block : W → Attempt R W
  fails : Attempt R W

-- A result with the message that nn_sock_recv fills in.
pub record Result (M W : Type 0) : Type 0 where
  pub rc : Rc
  pub msg : M
  pub waits : List ℤ
  pub self : W

-- `deadline` and `timeout` before the loop, for a timeout option and the clock.
pub deadline_of : ℤ → ℕ → ℕ
deadline_of (pos t) now = (now + t) % 2 ^ 64
deadline_of (negsuc t) now = 2 ^ 64 - 1

pub timeout_of : ℤ → ℤ
timeout_of (pos t) = pos t
timeout_of (negsuc t) = negsuc 0

-- The timeout of the next wait.
pub next_timeout : ℤ → ℕ → ℕ → ℤ → ℤ
next_timeout (pos t) deadline now timeout =
    if ltb deadline now then pos 0 else to_int (pos (deadline - now))
next_timeout (negsuc t) deadline now timeout = timeout

-- What a wait that is not woken up returns.
pub data Woken : Type 0 where
  woken bad : Woken
  gives_up : Errno → Woken

pub wakes : Rc → Woken
wakes success = Woken.woken
wakes (failure Errno.etimedout) = Woken.gives_up Errno.etimedout
wakes (failure Errno.eintr) = Woken.gives_up Errno.eintr
wakes (failure Errno.ebadf) = Woken.gives_up Errno.ebadf
wakes (failure e) = Woken.bad

module _ {M W : Type 0} (attempt : W → Attempt (Rc × M) W) (timeo : W → ℤ) (mark : W → W)
    (unset : M) where
  -- The socket when the lock has been taken again.
  pub resume : Round W → W → W
  resume r self = let self' = r.others self in if r.signalled then mark self' else self'

  -- The loop, whose two copies differ in these parameters only.
  pub loop : List (Round W) → ℕ → ℤ → List ℤ → Attempt (Rc × M) W → Outcome (Result M W)
  loop rounds deadline timeout waits (finished r self) =
      returned (record { rc = r.0; msg = r.1; waits = waits; self = self })
  loop rounds deadline timeout waits fails = Outcome.abort
  loop [] deadline timeout waits (would_block self) = Outcome.out_of_fuel
  loop (r ∷ rounds) deadline timeout waits (would_block self) = elim (wakes r.wait) [
    | Woken.bad ↦ Outcome.abort
    | Woken.gives_up e ↦
        returned
          (record { rc = failure e; msg = unset; waits = timeout ∷ waits; self = r.others self })
    | Woken.woken ↦
        let self' = resume r self in
        loop rounds deadline (next_timeout (timeo self') deadline r.now timeout) (timeout ∷ waits)
          (attempt self')
  ]

-- The states in which a socket no longer transfers messages.
pub is_stopping : State → Bool
is_stopping State.init = false
is_stopping State.active = false
is_stopping _ = true

-- What the protocol's send or recv has come to.
pub outcome : {M W : Type 0} → Bool → Reply → M → W → Attempt (Rc × M) W
outcome dontwait (Reply.code (failure Errno.eagain)) m self =
    if dontwait then finished (failure Errno.eagain, m) self else would_block self
outcome dontwait (Reply.code rc) m self = finished (rc, m) self
outcome dontwait Reply.positive m self = fails

module _ {S O Msg : Type 0} (vfptr : Protocol S Msg) where
  pub try_send : Bool → Msg → Sock S O → Attempt (Rc × Unit {0}) (Sock S O)
  try_send dontwait msg self =
      if is_stopping self.state
      then finished (failure Errno.ebadf, tt) self
      else let (rc, base) = vfptr.send msg self.sockbase in
        outcome dontwait rc tt (record self { sockbase = base })

  pub try_recv : Bool → Sock S O → Attempt (Rc × Option Msg) (Sock S O)
  try_recv dontwait self =
      if is_stopping self.state
      then finished (failure Errno.ebadf, none) self
      else let (rc, msg, base) = vfptr.recv self.sockbase in
        outcome dontwait rc msg (record self { sockbase = base })

  abbrev mark_out : Sock S O → Sock S O
  mark_out self = record self { flag_out = true }

  abbrev mark_in : Sock S O → Sock S O
  mark_in self = record self { flag_in = true }

  -- nn_sock_send; `dontwait` is the flag NN_DONTWAIT and `now` the clock before the loop.
  pub send :
      List (Round (Sock S O)) → ℕ → Bool → Msg → Sock S O → Outcome (Result (Unit {0}) (Sock S O))
  send rounds now dontwait msg self =
      if self.socktype.no_send
      then returned (record { rc = failure Errno.enotsup; msg = tt; waits = []; self = self })
      else loop (try_send dontwait msg) (λ s. s.settings.sndtimeo) mark_out tt rounds
          (deadline_of self.settings.sndtimeo now) (timeout_of self.settings.sndtimeo) []
          (try_send dontwait msg self)

  -- nn_sock_recv
  pub recv :
      List (Round (Sock S O)) → ℕ → Bool → Sock S O → Outcome (Result (Option Msg) (Sock S O))
  recv rounds now dontwait self =
      if self.socktype.no_recv
      then returned (record { rc = failure Errno.enotsup; msg = none; waits = []; self = self })
      else loop (try_recv dontwait) (λ s. s.settings.rcvtimeo) mark_in none rounds
          (deadline_of self.settings.rcvtimeo now) (timeout_of self.settings.rcvtimeo) []
          (try_recv dontwait self)
