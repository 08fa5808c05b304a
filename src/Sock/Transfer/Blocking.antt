-- ===== src/Sock/Transfer/Blocking.antt =====
-- When nn_sock_send and nn_sock_recv of src/core/sock.c return, and with what.
use nanomsg_copy.Prelude.{
  ℕ, ◌≡◌, ◌≢◌, refl, Bool, true, false, Option, none, List, [], failure, Errno, returned, arith,
  Bool-cases, inl, inr,
}
use nanomsg_copy.Sock.{Sock, Protocol, Reply}
use nanomsg_copy.Sock.Transfer.{
  Round, Result, loop, is_stopping, try_send, try_recv, send, recv, deadline_of, timeout_of,
}
use nanomsg_copy.Sock.Transfer.Loop.{
  Settles, Finishes, Ends, blocking, loop-Finishes, outcome-Settles, outcome-Finishes,
}

-- A protocol whose send, or whose recv, never returns a positive number.
abbrev pub SendsByCode : {S Msg : Type 0} → Protocol S Msg → Type 0
SendsByCode {S} {Msg} vfptr = (m : Msg) (s : S) → (vfptr.send m s).0 ≢ Reply.positive

abbrev pub RecvsByCode : {S Msg : Type 0} → Protocol S Msg → Type 0
RecvsByCode {S} {Msg} vfptr = (s : S) → (vfptr.recv s).0 ≢ Reply.positive

module _ {S O Msg : Type 0} (vfptr : Protocol S Msg) where
  try_recv-Settles : RecvsByCode vfptr → (self : Sock S O) → Settles (try_recv vfptr false self)
  unfolding try_recv
  try_recv-Settles c self = elim (Bool-cases (is_stopping self.state)) [
    | inl e ↦ rw e (λ k. cc)
    | inr e ↦ rw e (
        outcome-Settles (vfptr.recv self.sockbase).0 (vfptr.recv self.sockbase).1
          (record self { sockbase = (vfptr.recv self.sockbase).2 }) (c self.sockbase))
  ]

  try_send-Finishes :
      SendsByCode vfptr → (msg : Msg) (self : Sock S O) → Finishes (try_send vfptr true msg self)
  unfolding try_send
  try_send-Finishes c msg self = elim (Bool-cases (is_stopping self.state)) [
    | inl e ↦ rw e tt
    | inr e ↦ rw e (
        outcome-Finishes (vfptr.send msg self.sockbase).0 tt
          (record self { sockbase = (vfptr.send msg self.sockbase).1 }) (c msg self.sockbase))
  ]

  pub send-lacking :
      (rounds : List (Round (Sock S O))) (now : ℕ) (dontwait : Bool) (msg : Msg) (self : Sock S O)
      → self.socktype.no_send ≡ true
      → send vfptr rounds now dontwait msg self
        ≡ returned (record { rc = failure Errno.enotsup; msg = tt; waits = []; self = self })
  unfolding send
  send-lacking rounds now dontwait msg self e = ground (arith, e)

  pub send-loop :
      (rounds : List (Round (Sock S O))) (now : ℕ) (dontwait : Bool) (msg : Msg) (self : Sock S O)
      → self.socktype.no_send ≡ false
      → send vfptr rounds now dontwait msg self
        ≡ loop
            (try_send vfptr dontwait msg)
            (λ s. s.settings.sndtimeo)
            (λ s. record s { flag_out = true })
            tt
            rounds
            (deadline_of self.settings.sndtimeo now)
            (timeout_of self.settings.sndtimeo)
            []
            (try_send vfptr dontwait msg self)
  unfolding send
  send-loop rounds now dontwait msg self e = rw e

  -- With NN_DONTWAIT, nn_sock_send returns without a wait, for a protocol that never answers with a positive number.
  pub send-dontwait :
      SendsByCode vfptr
      → (rounds : List (Round (Sock S O))) (now : ℕ) (msg : Msg) (self : Sock S O)
      → (r : Result (Unit {0}) (Sock S O)) × (send vfptr rounds now true msg self ≡ returned r)
        × (r.waits ≡ [])
  send-dontwait c rounds now msg self = elim (Bool-cases self.socktype.no_send) [
    | inl e ↦ (_, send-lacking rounds now true msg self e, refl)
    | inr e ↦
        rw (send-loop rounds now true msg self e)
          (loop-Finishes _ _ _ _ rounds _ _ [] _ (try_send-Finishes c msg self))
  ]

  try_recv-Finishes : RecvsByCode vfptr → (self : Sock S O) → Finishes (try_recv vfptr true self)
  unfolding try_recv
  try_recv-Finishes c self = elim (Bool-cases (is_stopping self.state)) [
    | inl e ↦ rw e tt
    | inr e ↦ rw e (
        outcome-Finishes (vfptr.recv self.sockbase).0 (vfptr.recv self.sockbase).1
          (record self { sockbase = (vfptr.recv self.sockbase).2 }) (c self.sockbase))
  ]

  pub recv-lacking :
      (rounds : List (Round (Sock S O))) (now : ℕ) (dontwait : Bool) (self : Sock S O)
      → self.socktype.no_recv ≡ true
      → recv vfptr rounds now dontwait self
        ≡ returned (record { rc = failure Errno.enotsup; msg = none; waits = []; self = self })
  unfolding recv
  recv-lacking rounds now dontwait self e = ground (arith, e)

  pub recv-loop :
      (rounds : List (Round (Sock S O))) (now : ℕ) (dontwait : Bool) (self : Sock S O)
      → self.socktype.no_recv ≡ false
      → recv vfptr rounds now dontwait self
        ≡ loop
            (try_recv vfptr dontwait)
            (λ s. s.settings.rcvtimeo)
            (λ s. record s { flag_in = true })
            none
            rounds
            (deadline_of self.settings.rcvtimeo now)
            (timeout_of self.settings.rcvtimeo)
            []
            (try_recv vfptr dontwait self)
  unfolding recv
  recv-loop rounds now dontwait self e = rw e

  -- Without NN_DONTWAIT, nn_sock_recv returns, and not with EAGAIN, if some wait ends with ETIMEDOUT,
  -- EINTR or EBADF and none before it fails in another way, for a protocol that never answers with a positive number.
  pub recv-blocking :
      RecvsByCode vfptr
      → (rounds : List (Round (Sock S O))) (now : ℕ) (self : Sock S O) → Ends rounds
      → (r : Result (Option Msg) (Sock S O)) × (recv vfptr rounds now false self ≡ returned r)
        × (r.rc ≢ failure Errno.eagain)
  recv-blocking c rounds now self h = elim (Bool-cases self.socktype.no_recv) [
    | inl e ↦ (_, recv-lacking rounds now false self e, λ k. cc)
    | inr e ↦
        rw (recv-loop rounds now false self e)
          (blocking _ _ _ _ (try_recv-Settles c) rounds _ _ self h)
  ]

  -- With NN_DONTWAIT, nn_sock_recv returns without a wait, for a protocol that never answers with a positive number.
  pub recv-dontwait :
      RecvsByCode vfptr
      → (rounds : List (Round (Sock S O))) (now : ℕ) (self : Sock S O)
      → (r : Result (Option Msg) (Sock S O)) × (recv vfptr rounds now true self ≡ returned r)
        × (r.waits ≡ [])
  recv-dontwait c rounds now self = elim (Bool-cases self.socktype.no_recv) [
    | inl e ↦ (_, recv-lacking rounds now true self e, refl)
    | inr e ↦
        rw (recv-loop rounds now true self e)
          (loop-Finishes _ _ _ _ rounds _ _ [] _ (try_recv-Finishes c self))
  ]
