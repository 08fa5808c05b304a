-- ===== src/Sock/Transfer/Timeouts.antt =====
-- The timeouts that nn_sock_send and nn_sock_recv of src/core/sock.c wait for.
use nanomsg_copy.Prelude.{
  ℕ, ◌+◌, ◌-◌, ◌^◌, ◌≤◌, ◌<◌, ◌≡◌, refl, ◌∙◌, Bool, true, none, List, [], ◌∷◌, Rc, Outcome,
  returned, arith, Bool-cases, inl, inr, ltb,
}
use nanomsg_copy.Prelude.Int.{ℤ, pos, negsuc}
use nanomsg_copy.Sock.{Sock, Protocol, Reply}
use nanomsg_copy.Sock.Transfer.{
  Round, Attempt, Result, wakes, next_timeout, resume, loop, is_stopping, outcome, try_send,
  try_recv, send, recv, deadline_of, timeout_of,
}
use nanomsg_copy.Sock.Transfer.Loop.{loop-woken, loop-gives_up, loop-bad, Woken-cases}
use nanomsg_copy.Sock.Transfer.Blocking.{send-lacking, send-loop, recv-lacking, recv-loop}

-- Timeouts between 0 and `t`.
abbrev pub AtMost : ℕ → List ℤ → Type 0
AtMost t [] = Unit
AtMost t (pos n ∷ waits) = (n ≤ t) × AtMost t waits
AtMost t (negsuc n ∷ waits) = ⊥

-- Rounds in which the clock has not gone back behind `start`, and no thread changes what `timeo` says.
abbrev pub Runs : {W : Type 0} → (W → ℤ) → ℕ → List (Round W) → Type 0
Runs timeo start [] = Unit
Runs timeo start (r ∷ rounds) =
    (start ≤ r.now) × ((w : _) → timeo (r.others w) ≡ timeo w) × Runs timeo start rounds

next_timeout-bound :
    (t start now : ℕ) (timeout : ℤ)
    → t < 2 ^ 31
    → start + t < 2 ^ 64
    → start ≤ now
    → (n : ℕ) × (next_timeout (pos t) (start + t) now timeout ≡ pos n) × (n ≤ t)
unfolding next_timeout
next_timeout-bound t start now timeout h k l = elim (Bool-cases (ltb (start + t) now)) [
  | inl e ↦ (0, rw e refl, omega arith)
  | inr e ↦ (start + t - now, ground arith, omega arith)
]

-- The waits of a call that returns.
abbrev pub WaitsAtMost : {M W : Type 0} → ℕ → Outcome (Result M W) → Type 0
WaitsAtMost t (returned r) = AtMost t r.waits
WaitsAtMost t _ = Unit

abbrev Stands : {R W : Type 0} → (W → ℤ) → ℤ → Attempt R W → Type 0
Stands timeo t (Attempt.finished r w) = Unit
Stands timeo t (Attempt.would_block w) = timeo w ≡ t
Stands timeo t Attempt.fails = Unit

module _ {M W : Type 0} (attempt : W → Attempt (Rc × M) W) (timeo : W → ℤ) (mark : W → W)
    (unset : M) (t start : ℕ) where
  resume-keeps :
      ((w : W) → timeo (mark w) ≡ timeo w)
      → (r : Round W) (w : W) → ((w : W) → timeo (r.others w) ≡ timeo w)
      → timeo (resume attempt timeo mark unset r w) ≡ timeo w
  unfolding resume
  resume-keeps mk r w o = elim (Bool-cases r.signalled) [
    | inl e ↦ rw e (mk (r.others w) ∙ o w)
    | inr e ↦ rw e (o w)
  ]

  loop-AtMost :
      t < 2 ^ 31
      → start + t < 2 ^ 64
      → ((w : W) → timeo w ≡ pos t → Stands timeo (pos t) (attempt w))
      → ((w : W) → timeo (mark w) ≡ timeo w)
      → (rounds : List (Round W)) (n : ℕ) (waits : List ℤ) (a : Attempt (Rc × M) W)
      → Runs timeo start rounds
      → n ≤ t
      → AtMost t waits
      → Stands timeo (pos t) a
      → WaitsAtMost t (loop attempt timeo mark unset rounds (start + t) (pos n) waits a)
  unfolding loop
  loop-AtMost h k at mk rounds n waits (Attempt.finished r w) rs l al s = al
  loop-AtMost h k at mk rounds n waits Attempt.fails rs l al s = tt
  loop-AtMost h k at mk [] n waits (Attempt.would_block w) rs l al s = tt
  loop-AtMost h k at mk (r ∷ rounds) n waits (Attempt.would_block w) rs l al s =
      elim (Woken-cases (wakes r.wait)) [
        | inl q ↦
            let (m, em, lm) = next_timeout-bound t start r.now (pos n) h k rs.0 in
            let w' : W = resume attempt timeo mark unset r w in
            let keep : timeo w' ≡ pos t = resume-keeps mk r w rs.1 ∙ s in
            rw
              (loop-woken attempt timeo mark unset r rounds (start + t) (pos n) waits w q, keep, em)
              (loop-AtMost h k at mk rounds m (pos n ∷ waits) (attempt w') rs.2 lm (l, al)
                (at w' keep))
        | inr (inl q) ↦
            rw (loop-bad attempt timeo mark unset r rounds (start + t) (pos n) waits w q) tt
        | inr (inr (x, q)) ↦
            rw (loop-gives_up attempt timeo mark unset r rounds (start + t) (pos n) waits w q)
              (l, al)
      ]

outcome-Stands :
    {M W : Type 0} (timeo : W → ℤ) (t : ℤ) (dontwait : Bool) (rc : Reply) (m : M) (w : W)
    → timeo w ≡ t
    → Stands timeo t (outcome dontwait rc m w)
unfolding outcome
outcome-Stands timeo t dontwait rc m w h = ground (arith, h)

deadline_of-sum :
    (start t : ℕ) {c : ℤ} → c ≡ pos t → start + t < 2 ^ 64 → deadline_of c start ≡ start + t
unfolding deadline_of
deadline_of-sum start t e h = rw e (omega arith)

timeout_of-pos : (t : ℕ) {c : ℤ} → c ≡ pos t → timeout_of c ≡ pos t
unfolding timeout_of
timeout_of-pos t e = rw e

module _ {S O Msg : Type 0} (vfptr : Protocol S Msg) where
  try_send-Stands :
      (msg : Msg) (t : ℤ) (dontwait : Bool) (self : Sock S O)
      → self.settings.sndtimeo ≡ t
      → Stands (λ s. s.settings.sndtimeo) t (try_send vfptr dontwait msg self)
  unfolding try_send
  try_send-Stands msg t dontwait self h = elim (Bool-cases (is_stopping self.state)) [
    | inl e ↦ rw e tt
    | inr e ↦ rw e (
        outcome-Stands (λ s. s.settings.sndtimeo) t dontwait (vfptr.send msg self.sockbase).0 tt
          (record self { sockbase = (vfptr.send msg self.sockbase).1 }) h)
  ]

  -- With a timeout of `t` ms, as long as no thread changes that option, the clock does not go back
  -- behind the start of the call, and the deadline does not wrap around, each wait of a call of
  -- nn_sock_send that returns is for between 0 and `t` ms.
  pub send-AtMost :
      (rounds : List (Round (Sock S O))) (start t : ℕ) (dontwait : Bool) (msg : Msg)
      (self : Sock S O)
      → self.settings.sndtimeo ≡ pos t
      → t < 2 ^ 31
      → start + t < 2 ^ 64
      → Runs (λ s. s.settings.sndtimeo) start rounds
      → WaitsAtMost t (send vfptr rounds start dontwait msg self)
  send-AtMost rounds start t dontwait msg self e h k rs = elim (Bool-cases self.socktype.no_send) [
    | inl q ↦ rw (send-lacking vfptr rounds start dontwait msg self q) tt
    | inr q ↦
        rw
          (
            send-loop vfptr rounds start dontwait msg self q,
            deadline_of-sum start t e k,
            timeout_of-pos t e,
          )
          (loop-AtMost (try_send vfptr dontwait msg) (λ s. s.settings.sndtimeo)
            (λ s. record s { flag_out = true }) tt t start h k
            (try_send-Stands msg (pos t) dontwait) (λ s. refl) rounds t []
            (try_send vfptr dontwait msg self) rs (omega arith) tt
            (try_send-Stands msg (pos t) dontwait self e))
  ]

  try_recv-Stands :
      (t : ℤ) (dontwait : Bool) (self : Sock S O)
      → self.settings.rcvtimeo ≡ t
      → Stands (λ s. s.settings.rcvtimeo) t (try_recv vfptr dontwait self)
  unfolding try_recv
  try_recv-Stands t dontwait self h = elim (Bool-cases (is_stopping self.state)) [
    | inl e ↦ rw e tt
    | inr e ↦ rw e (
        outcome-Stands (λ s. s.settings.rcvtimeo) t dontwait (vfptr.recv self.sockbase).0
          (vfptr.recv self.sockbase).1 (record self { sockbase = (vfptr.recv self.sockbase).2 }) h)
  ]

  -- With a timeout of `t` ms, as long as no thread changes that option, the clock does not go back
  -- behind the start of the call, and the deadline does not wrap around, each wait of a call of
  -- nn_sock_recv that returns is for between 0 and `t` ms.
  pub recv-AtMost :
      (rounds : List (Round (Sock S O))) (start t : ℕ) (dontwait : Bool) (self : Sock S O)
      → self.settings.rcvtimeo ≡ pos t
      → t < 2 ^ 31
      → start + t < 2 ^ 64
      → Runs (λ s. s.settings.rcvtimeo) start rounds
      → WaitsAtMost t (recv vfptr rounds start dontwait self)
  recv-AtMost rounds start t dontwait self e h k rs = elim (Bool-cases self.socktype.no_recv) [
    | inl q ↦ rw (recv-lacking vfptr rounds start dontwait self q) tt
    | inr q ↦
        rw
          (
            recv-loop vfptr rounds start dontwait self q,
            deadline_of-sum start t e k,
            timeout_of-pos t e,
          )
          (loop-AtMost (try_recv vfptr dontwait) (λ s. s.settings.rcvtimeo)
            (λ s. record s { flag_in = true }) none t start h k (try_recv-Stands (pos t) dontwait)
            (λ s. refl) rounds t [] (try_recv vfptr dontwait self) rs (omega arith) tt
            (try_recv-Stands (pos t) dontwait self e))
  ]
