-- ===== src/Sock/Hold.antt =====
-- nn_sock_hold and nn_sock_rele of src/core/sock.c: the count of users of a socket, and the semaphore
-- that nn_sock_term waits for. The count is a C int; it is exact here.
mod Tests
use nanomsg_copy.Prelude.{
  ℕ, zero, suc, ◌+◌, ◌-◌, ◌*◌, ◌≤◌, ◌<◌, ◌≡◌, refl, sym, ap, ◌∙◌, Bool, true, false, List, [], ◌∷◌,
  Rc, success, failure, Errno, if◌then◌else◌, ◌==◌, arith, length,
}
use nanomsg_copy.Prelude.Int.{ℤ, pos, negsuc, ◌+ℤ◌, ◌-ℤ◌, sub_ℕ}
use nanomsg_copy.Sock.{Sock, State}

module _ {S O : Type 0} where
  pub hold : Sock S O → Rc × Sock S O
  hold self = elim self.state [
    | State.active ↦ (success, record self { holds = self.holds +ℤ pos 1 })
    | State.init ↦ (success, record self { holds = self.holds +ℤ pos 1 })
    | _ ↦ (failure Errno.ebadf, self)
  ]

  post_if_zero : ℤ → Sock S O → Sock S O
  post_if_zero (pos zero) self = record self { relesem = suc self.relesem }
  post_if_zero (pos (suc n)) self = self
  post_if_zero (negsuc n) self = self

  pub rele : Sock S O → Sock S O
  unfolding post_if_zero
  rele self = let n = self.holds -ℤ pos 1 in post_if_zero n (record self { holds = n })

-- What the threads that use a socket do to its count, in the order of the lock.
pub data Use : Type 0 where
  holds releases : Use

module _ {S O : Type 0} where
  pub run : List Use → Sock S O → Sock S O
  run [] self = self
  run (Use.holds ∷ uses) self = run uses (hold self).1
  run (Use.releases ∷ uses) self = run uses (rele self)

-- The users that are left, from `n`: a thread releases a socket that it holds, and none gets hold of
-- it when no user is left. `none` when the threads do anything else.
abbrev pub Balanced : ℕ → List Use → ℕ → Type 0
Balanced n [] m = n ≡ m
Balanced zero (u ∷ uses) m = ⊥
Balanced (suc n) (Use.holds ∷ uses) m = Balanced (suc (suc n)) uses m
Balanced (suc n) (Use.releases ∷ uses) m = Balanced n uses m

abbrev pub is_open : State → Bool
is_open State.init = true
is_open State.active = true
is_open _ = false

module _ {S O : Type 0} where
  Counts : Sock S O → Sock S O → ℤ → ℕ → Type 0
  Counts self after n posts =
      (after.state ≡ self.state) × (after.holds ≡ n) × (after.relesem ≡ posts)

  hold-open :
      (self : Sock S O) (n : ℕ)
      → is_open self.state ≡ true
      → self.holds ≡ pos n
      → Counts self (hold self).1 (pos (suc n)) self.relesem
  unfolding hold ◌+ℤ◌ Counts
  hold-open self n o e = ground (arith, e)

  rele-more :
      (self : Sock S O) (n : ℕ)
      → self.holds ≡ pos (suc (suc n))
      → Counts self (rele self) (pos (suc n)) self.relesem
  unfolding rele ◌-ℤ◌ Counts
  rele-more self n e = ground (arith, e)

  rele-last :
      (self : Sock S O) → self.holds ≡ pos 1 → Counts self (rele self) (pos 0) (suc self.relesem)
  unfolding rele ◌-ℤ◌ Counts
  rele-last self e = ground (arith, e)

  -- When users get hold of an open socket and release it, none getting hold of it once it has no
  -- user, the count is the number of users left, and the semaphore is posted exactly once if that
  -- number is 0 and not at all before.
  pub run-relesem :
      (uses : List Use) (n m : ℕ) (self : Sock S O)
      → is_open self.state ≡ true
      → self.holds ≡ pos (suc n)
      → Balanced (suc n) uses m
      → ((run uses self).holds ≡ pos m)
        × ((run uses self).relesem ≡ self.relesem + (if m == 0 then 1 else 0))
  unfolding run Counts
  run-relesem [] n m self o e b = (e ∙ ap pos b, ground arith)
  run-relesem (Use.holds ∷ uses) n m self o e b =
      let (st, h, r) = hold-open self (suc n) o e in
      let rest = run-relesem uses (suc n) m (hold self).1 (rw st o) h b in
      (rest.0, rest.1 ∙ ap (λ k. k + (if m == 0 then 1 else 0)) r)
  run-relesem (Use.releases ∷ uses) (suc n) m self o e b =
      let (st, h, r) = rele-more self n e in
      let rest = run-relesem uses n m (rele self) (rw st o) h b in
      (rest.0, rest.1 ∙ ap (λ k. k + (if m == 0 then 1 else 0)) r)
  run-relesem (Use.releases ∷ []) zero m self o e b =
      let (st, h, r) = rele-last self e in (h ∙ ap pos b, ground (arith, r))
  run-relesem (Use.releases ∷ u ∷ uses) zero m self o e b = absurd b
