-- ===== src/Sock/Transfer/Loop.antt =====
-- The loop of nn_sock_send and nn_sock_recv of src/core/sock.c.
use nanomsg_copy.Prelude.{
  ℕ, ◌≡◌, ◌≢◌, refl, sym, ◌∙◌, true, false, List, [], ◌∷◌, Rc, failure, Errno, Outcome, returned,
  arith, inl, inr, ◌⊎◌,
}
use nanomsg_copy.Prelude.Int.{ℤ}
use nanomsg_copy.Sock.{Reply}
use nanomsg_copy.Sock.Transfer.{
  Round, Attempt, Result, Woken, wakes, next_timeout, resume, loop, outcome,
}

-- A turn that neither fails nor ends the call with EAGAIN.
abbrev pub Settles : {M W : Type 0} → Attempt (Rc × M) W → Type 0
Settles (Attempt.finished r w) = r.0 ≢ failure Errno.eagain
Settles (Attempt.would_block w) = Unit
Settles Attempt.fails = ⊥

-- Rounds of which one does not wake the loop up again, and whose waits return what it allows for.
abbrev pub Ends : {W : Type 0} → List (Round W) → Type 0
Ends [] = ⊥
Ends (r ∷ rounds) = (wakes r.wait ≢ Woken.bad) × (wakes r.wait ≡ Woken.woken → Ends rounds)

pub Woken-cases :
    (w : Woken) → (w ≡ Woken.woken) ⊎ (w ≡ Woken.bad) ⊎ ((e : Errno) × (w ≡ Woken.gives_up e))
Woken-cases Woken.woken = inl refl
Woken-cases Woken.bad = inr (inl refl)
Woken-cases (Woken.gives_up e) = inr (inr (e, refl))

gives_up-ne : (rc : Rc) → wakes rc ≢ Woken.gives_up Errno.eagain
unfolding wakes
gives_up-ne rc = λ h. ground (arith, h)

abbrev pub Finishes : {M W : Type 0} → Attempt (Rc × M) W → Type 0
Finishes (Attempt.finished r w) = Unit
Finishes _ = ⊥

module _ {M W : Type 0} (attempt : W → Attempt (Rc × M) W) (timeo : W → ℤ) (mark : W → W)
    (unset : M) where
  pub loop-woken :
      (r : Round W) (rounds : List (Round W)) (deadline : ℕ) (timeout : ℤ) (waits : List ℤ) (w : W)
      → wakes r.wait ≡ Woken.woken
      → loop attempt timeo mark unset (r ∷ rounds) deadline timeout waits (Attempt.would_block w)
        ≡ loop attempt timeo mark unset rounds deadline
            (next_timeout (timeo (resume attempt timeo mark unset r w)) deadline r.now timeout)
            (timeout ∷ waits)
            (attempt (resume attempt timeo mark unset r w))
  unfolding loop
  loop-woken r rounds deadline timeout waits w k = ground (arith, k)

  pub loop-gives_up :
      (r : Round W) (rounds : List (Round W)) (deadline : ℕ) (timeout : ℤ) (waits : List ℤ) (w : W)
      {x : Errno}
      → wakes r.wait ≡ Woken.gives_up x
      → loop attempt timeo mark unset (r ∷ rounds) deadline timeout waits (Attempt.would_block w)
        ≡ returned
            (record { rc = failure x; msg = unset; waits = timeout ∷ waits; self = r.others w })
  unfolding loop
  loop-gives_up r rounds deadline timeout waits w k = ground (arith, k)

  pub loop-bad :
      (r : Round W) (rounds : List (Round W)) (deadline : ℕ) (timeout : ℤ) (waits : List ℤ) (w : W)
      → wakes r.wait ≡ Woken.bad
      → loop attempt timeo mark unset (r ∷ rounds) deadline timeout waits (Attempt.would_block w)
        ≡ Outcome.abort
  unfolding loop
  loop-bad r rounds deadline timeout waits w k = ground (arith, k)

  loop-not_eagain :
      ((w : W) → Settles (attempt w))
      → (rounds : List (Round W)) (deadline : ℕ) (timeout : ℤ) (waits : List ℤ)
        (a : Attempt (Rc × M) W)
      → Settles a
      → {r : Result M W}
      → loop attempt timeo mark unset rounds deadline timeout waits a ≡ returned r
      → r.rc ≢ failure Errno.eagain
  unfolding loop
  loop-not_eagain settles rounds deadline timeout waits (Attempt.finished r w) h e =
      λ k. h (grind (arith, e, k))
  loop-not_eagain settles rounds deadline timeout waits Attempt.fails h e = absurd h
  loop-not_eagain settles [] deadline timeout waits (Attempt.would_block w) h e = cc
  loop-not_eagain settles (round ∷ rounds) deadline timeout waits (Attempt.would_block w) h e =
      elim (Woken-cases (wakes round.wait)) [
        | inl k ↦
            loop-not_eagain settles rounds _ _ _ _ (settles _)
              (sym (loop-woken round rounds deadline timeout waits w k) ∙ e)
        | inr (inl k) ↦ cc (sym (loop-bad round rounds deadline timeout waits w k) ∙ e)
        | inr (inr (x, k)) ↦ λ q.
            gives_up-ne round.wait
              (grind (arith, k, q, sym (loop-gives_up round rounds deadline timeout waits w k) ∙ e))
      ]

  loop-returns :
      ((w : W) → Settles (attempt w))
      → (rounds : List (Round W)) (deadline : ℕ) (timeout : ℤ) (waits : List ℤ)
        (a : Attempt (Rc × M) W)
      → Settles a
      → Ends rounds
      → (r : Result M W) × (loop attempt timeo mark unset rounds deadline timeout waits a
          ≡ returned r)
  unfolding loop
  loop-returns settles rounds deadline timeout waits (Attempt.finished r w) s h =
      (record { rc = r.0; msg = r.1; waits = waits; self = w }, refl)
  loop-returns settles rounds deadline timeout waits Attempt.fails s h = absurd s
  loop-returns settles [] deadline timeout waits (Attempt.would_block w) s h = absurd h
  loop-returns settles (round ∷ rounds) deadline timeout waits (Attempt.would_block w) s h =
      elim (Woken-cases (wakes round.wait)) [
        | inl k ↦
            rw (loop-woken round rounds deadline timeout waits w k)
              (loop-returns settles rounds _ _ _ _ (settles _) (h.1 k))
        | inr (inl k) ↦ absurd (h.0 k)
        | inr (inr (x, k)) ↦ (_, loop-gives_up round rounds deadline timeout waits w k)
      ]

module _ {M W : Type 0} (attempt : W → Attempt (Rc × M) W) (timeo : W → ℤ) (mark : W → W)
    (unset : M) where
  pub blocking :
      ((w : W) → Settles (attempt w))
      → (rounds : List (Round W)) (deadline : ℕ) (timeout : ℤ) (w : W) → Ends rounds
      → (r : Result M W) × (loop attempt timeo mark unset rounds deadline timeout [] (attempt w)
          ≡ returned r)
        × (r.rc ≢ failure Errno.eagain)
  blocking settles rounds deadline timeout w h =
      let (r, e) =
        loop-returns attempt timeo mark unset settles rounds deadline timeout [] (attempt w)
          (settles w) h in
      (
        r,
        e,
        loop-not_eagain attempt timeo mark unset settles rounds deadline timeout [] (attempt w)
            (settles w) e,
      )

  pub loop-Finishes :
      (rounds : List (Round W)) (deadline : ℕ) (timeout : ℤ) (waits : List ℤ)
      (a : Attempt (Rc × M) W)
      → Finishes a
      → (r : Result M W) × (loop attempt timeo mark unset rounds deadline timeout waits a
          ≡ returned r)
        × (r.waits ≡ waits)
  unfolding loop
  loop-Finishes rounds deadline timeout waits (Attempt.finished r w) h =
      (record { rc = r.0; msg = r.1; waits = waits; self = w }, refl, refl)
  loop-Finishes rounds deadline timeout waits (Attempt.would_block w) h = absurd h
  loop-Finishes rounds deadline timeout waits Attempt.fails h = absurd h

pub outcome-Settles :
    {M W : Type 0} (rc : Reply) (m : M) (w : W)
    → rc ≢ Reply.positive
    → Settles (outcome {M = M} {W = W} false rc m w)
unfolding outcome
outcome-Settles rc m w h = ground (arith, h)

pub outcome-Finishes :
    {M W : Type 0} (rc : Reply) (m : M) (w : W)
    → rc ≢ Reply.positive
    → Finishes (outcome {M = M} {W = W} true rc m w)
unfolding outcome
outcome-Finishes rc m w h = ground (arith, h)
