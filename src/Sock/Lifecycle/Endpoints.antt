-- ===== src/Sock/Lifecycle/Endpoints.antt =====
-- nn_sock_add_ep and nn_sock_rm_ep of src/core/sock.c (the latter spelled nn_sock_em_ep there).
use nanomsg_copy.Prelude.{
  ℕ, suc, ◌<◌, ◌≡◌, refl, Bool, true, false, List, [], ◌∷◌, ◌++◌, has, erase, Distinct, has-append,
  Distinct-append_one, Distinct-erase, has-erase_self, has-erase_ne, Rc, success, failure,
  Bool-cases, inl, inr, returned, ◌≢◌, ◌&&◌, arith,
}
use nanomsg_copy.Sock.{Sock, State, Protocol}
use nanomsg_copy.Sock.Lifecycle.{
  Source, Kind, Call, take_out, misplace, is_last, handle_active, handler, add_ep, em_ep,
}

abbrev Below : ℕ → List ℕ → Type 0
Below n [] = Unit
Below n (x ∷ xs) = (x < n) × Below n xs

Below-has : (n : ℕ) (xs : List ℕ) → Below n xs → has n xs ≡ false
Below-has n [] b = refl
Below-has n (x ∷ xs) b = ground (arith, Below-has n xs b.1)

Below-suc : (n : ℕ) (xs : List ℕ) → Below n xs → Below (suc n) xs
Below-suc n [] b = tt
Below-suc n (x ∷ xs) b = (omega arith, Below-suc n xs b.1)

Below-append_one : (n : ℕ) (xs : List ℕ) (a : ℕ) → Below n xs → a < n → Below n (xs ++ a ∷ [])
Below-append_one n [] a b h = (h, tt)
Below-append_one n (x ∷ xs) a b h = (b.0, Below-append_one n xs a b.1 h)

Below-erase : (n a : ℕ) (xs : List ℕ) → Below n xs → Below n (erase a xs)
Below-erase n a [] b = tt
Below-erase n a (x ∷ xs) b = ground (arith, Below-erase n a xs b.1)

-- has a xs, for an id that is below n
Below-mem : (n a : ℕ) (xs : List ℕ) → Below n xs → has a xs ≡ true → a < n
Below-mem n a [] b h = cc
Below-mem n a (x ∷ xs) b h = ground (arith, Below-mem n a xs b.1)

has-of-erase : (a e : ℕ) (xs : List ℕ) → has a (erase e xs) ≡ true → has a xs ≡ true
has-of-erase a e xs h = elim (Bool-cases (has a xs)) [
  | inl k ↦ k
  | inr k ↦ cc (h, has-erase_ne e a xs k)
]

-- Each id was given to one endpoint, and an endpoint is in one of the two lists.
pub record HasIds (eps sdeps : List ℕ) (eid : ℕ) : Type 0 where
  pub distinct_eps : Distinct eps
  pub distinct_sdeps : Distinct sdeps
  pub apart : (a : ℕ) → has a eps ≡ true → has a sdeps ≡ false
  pub below_eps : Below eid eps
  pub below_sdeps : Below eid sdeps

moved :
    (e : ℕ) (eps sdeps : List ℕ) (n : ℕ)
    → has e eps ≡ true
    → HasIds eps sdeps n
    → HasIds (erase e eps) (sdeps ++ e ∷ []) n
moved e eps sdeps n m h = record {
  distinct_eps = Distinct-erase e eps h.distinct_eps;
  distinct_sdeps = Distinct-append_one sdeps e h.distinct_sdeps (h.apart e m);
  apart = λ a k. ground (
    arith,
    has-append a sdeps (e ∷ []),
    h.apart a,
    has-erase_self e eps h.distinct_eps,
    has-of-erase a e eps,
  );
  below_eps = Below-erase n e eps h.below_eps;
  below_sdeps = Below-append_one n sdeps e h.below_sdeps (Below-mem n e eps h.below_eps m);
}

module _ {S O : Type 0} where
  abbrev pub IsNumbered : Sock S O → Type 0
  IsNumbered self = HasIds self.eps self.sdeps self.eid

  -- nn_sock_add_ep, whether it succeeds or fails, keeps the ids of a socket's endpoints distinct and
  -- below the next id, and each endpoint in one of the two lists only.
  pub add_ep-IsNumbered :
      (ep_init : Rc) (allocated : Bool) (self : Sock S O)
      → IsNumbered self
      → IsNumbered (add_ep allocated ep_init self).self
  unfolding add_ep
  add_ep-IsNumbered success true self h = record {
    distinct_eps =
        Distinct-append_one self.eps self.eid h.distinct_eps
          (Below-has self.eid self.eps h.below_eps);
    distinct_sdeps = h.distinct_sdeps;
    apart = λ a e. ground (
      arith,
      has-append a self.eps (self.eid ∷ []),
      h.apart a,
      Below-has self.eid self.sdeps h.below_sdeps,
    );
    below_eps =
        Below-append_one (suc self.eid) self.eps self.eid (Below-suc self.eid self.eps h.below_eps)
          (omega arith);
    below_sdeps = Below-suc self.eid self.sdeps h.below_sdeps;
  }
  add_ep-IsNumbered (failure e) true self h = h
  add_ep-IsNumbered rc false self h = h

  -- nn_sock_rm_ep, whether or not it finds the endpoint, keeps the ids distinct and given, and each
  -- endpoint in one of the two lists only.
  pub em_ep-IsNumbered :
      (eid : ℕ) (self : Sock S O) → IsNumbered self → IsNumbered (em_ep eid self).2
  unfolding em_ep
  em_ep-IsNumbered eid self h = elim (Bool-cases (has eid self.eps)) [
    | inl e ↦ rw e (moved eid self.eps self.sdeps self.eid e h)
    | inr e ↦ rw e h
  ]

is_last-append_one : (e : ℕ) (xs : List ℕ) → is_last e (xs ++ e ∷ []) ≡ true
is_last-append_one e [] = ground arith
is_last-append_one e (x ∷ []) = ground arith
is_last-append_one e (x ∷ y ∷ xs) = is_last-append_one e (y ∷ xs)

-- The item of an endpoint that is at the end of the other list.
take_out-other :
    (e : ℕ) (own xs : List ℕ)
    → has e own ≡ false
    → take_out e own (xs ++ e ∷ []) ≡ returned (misplace e own (xs ++ e ∷ []))
unfolding take_out
take_out-other e own xs h = ground (arith, h, has-append e xs (e ∷ []))

misplace-last : (e : ℕ) (own xs : List ℕ) → (misplace e own (xs ++ e ∷ [])).0 ≡ false
misplace-last e own xs = ground (arith, is_last-append_one e xs)

erase-append_one : (e : ℕ) (xs : List ℕ) → has e xs ≡ false → erase e (xs ++ e ∷ []) ≡ xs
erase-append_one e [] h = ground arith
erase-append_one e (x ∷ xs) h = ground (arith, erase-append_one e xs)

-- The list `sdeps` and the list `eps` that an endpoint at the end of `sdeps` leaves.
pub data Leaves (e : ℕ) (own xs : List ℕ) : List ℕ → List ℕ → Type 0 where
  alone : xs ≡ [] → Leaves e own xs [] (e ∷ [])
  behind : xs ≢ [] → Leaves e own xs own xs

misplace_only : (e : ℕ) (own : List ℕ) → misplace e own (e ∷ []) ≡ (false, [], e ∷ [])
misplace_only e own = ground arith

misplace_behind :
    (e : ℕ) (own : List ℕ) (x : ℕ) (xs : List ℕ)
    → has e (x ∷ xs) ≡ false
    → misplace e own (x ∷ xs ++ e ∷ []) ≡ (false, own, x ∷ xs)
misplace_behind e own x xs h =
    ground (arith, is_last-append_one e (x ∷ xs), erase-append_one e (x ∷ xs) h)

misplace-Leaves :
    (e : ℕ) (own xs : List ℕ)
    → has e xs ≡ false
    → let out = misplace e own (xs ++ e ∷ []) in Leaves e own xs out.1 out.2
misplace-Leaves e own [] h = rw (misplace_only e own) (Leaves.alone refl)
misplace-Leaves e own (x ∷ xs) h = rw (misplace_behind e own x xs h) (Leaves.behind (λ k. cc))

module _ {S O Msg : Type 0} (vfptr : Protocol S Msg) where
  handler-misplaced :
      (e : ℕ) (self : Sock S O) {intact : Bool} {eps sdeps : List ℕ}
      → self.state ≡ State.active
      → take_out e self.eps self.sdeps ≡ returned (intact, eps, sdeps)
      → handler vfptr Source.ep Kind.stopped e self
        ≡ returned (
          Call.ep_term e ∷ [],
          record self { eps = eps; sdeps = sdeps; lists_intact = intact && self.lists_intact },
        )
  unfolding handler handle_active
  handler-misplaced e self st k = ground (arith, st, k)

  em_ep-moved :
      (eid : ℕ) (self : Sock S O)
      → has eid self.eps ≡ true
      → (em_ep eid self).2
        ≡ record self { eps = erase eid self.eps; sdeps = self.sdeps ++ eid ∷ [] }
  unfolding em_ep
  em_ep-moved eid self h = ground (arith, h)

  -- While a socket is active, the end of an endpoint that nn_sock_rm_ep has told to stop is handled
  -- wrongly: nn_sock_handler terminates the endpoint, but erases it from the list `eps`, in which it is no
  -- longer, and the lists are not in order after it. If no other endpoint was stopping, `sdeps` still begins
  -- with the endpoint that is gone, and `eps` has lost all its endpoints; otherwise the sequences are those
  -- without the endpoint.
  pub handler-em_ep :
      (eid : ℕ) (self : Sock S O)
      → self.state ≡ State.active
      → IsNumbered self
      → has eid self.eps ≡ true
      → (after : Sock S O) × (handler vfptr Source.ep Kind.stopped eid (em_ep eid self).2
          ≡ returned (Call.ep_term eid ∷ [], after))
        × (after.lists_intact ≡ false)
        × Leaves eid (erase eid self.eps) self.sdeps after.eps after.sdeps
  handler-em_ep eid self st h m =
      let out : Bool × List ℕ × List ℕ =
        misplace eid (erase eid self.eps) (self.sdeps ++ eid ∷ []) in
      let broken : out.0 ≡ false = misplace-last eid (erase eid self.eps) self.sdeps in
      let moved : Sock S O = record self {
        eps = erase eid self.eps;
        sdeps = self.sdeps ++ eid ∷ [];
      } in
      (
        record moved { eps = out.1; sdeps = out.2; lists_intact = out.0 && self.lists_intact },
        rw (em_ep-moved eid self m) (
            handler-misplaced eid moved st (
              take_out-other eid (erase eid self.eps) self.sdeps
                (has-erase_self eid self.eps h.distinct_eps))),
        rw broken refl,
        misplace-Leaves eid (erase eid self.eps) self.sdeps (h.apart eid m),
      )
