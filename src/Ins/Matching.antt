-- ===== src/Ins/Matching.antt =====
-- Which endpoints src/transports/inproc/ins.c brings together.
use nanomsg_copy.Prelude.{
  ℕ, zero, suc, ◌≡◌, refl, inl, inr, Bool, true, false, Bool-cases, ◌&&◌, ◌||◌, List, [], ◌∷◌, ◌++◌,
  has, Outcome, returned, ◌>>=◌, if◌then◌else◌, ◌==◌, arith,
}
use nanomsg_copy.Ins.{strncmp_eq, sockaddr_max, same_addr, in_use, bind_all, connect_first}

pub strncmp_eq_comm : (n : ℕ) (a b : List ℕ) → strncmp_eq n a b ≡ strncmp_eq n b a
unfolding strncmp_eq
strncmp_eq_comm zero a b = refl
strncmp_eq_comm (suc n) [] [] = refl
strncmp_eq_comm (suc n) [] (y ∷ b) = refl
strncmp_eq_comm (suc n) (x ∷ a) [] = refl
strncmp_eq_comm (suc n) (x ∷ a) (y ∷ b) = ground (arith, strncmp_eq_comm n a b)

strncmp_eq_euclidean :
    (n : ℕ) (a b c : List ℕ)
    → strncmp_eq n a b ≡ true
    → strncmp_eq n a c ≡ true
    → strncmp_eq n c b ≡ true
unfolding strncmp_eq
strncmp_eq_euclidean zero a b c h k = refl
strncmp_eq_euclidean (suc n) [] [] [] h k = refl
strncmp_eq_euclidean (suc n) [] [] (z ∷ c) h k = cc
strncmp_eq_euclidean (suc n) [] (y ∷ b) c h k = cc
strncmp_eq_euclidean (suc n) (x ∷ a) [] c h k = cc
strncmp_eq_euclidean (suc n) (x ∷ a) (y ∷ b) [] h k = cc
strncmp_eq_euclidean (suc n) (x ∷ a) (y ∷ b) (z ∷ c) h k =
    ground (arith, h, k, strncmp_eq_euclidean n a b c)

module _ (addr : ℕ → List ℕ) where
  pub same_addr_comm : (i j : ℕ) → same_addr addr i j ≡ same_addr addr j i
  unfolding same_addr
  same_addr_comm i j = strncmp_eq_comm sockaddr_max (addr i) (addr j)

  pub same_addr_euclidean :
      (i j k : ℕ)
      → same_addr addr i j ≡ true
      → same_addr addr i k ≡ true
      → same_addr addr k j ≡ true
  unfolding same_addr
  same_addr_euclidean i j k = strncmp_eq_euclidean sockaddr_max (addr i) (addr j) (addr k)

  -- No two of the items have the same address.
  abbrev pub Unique : List ℕ → Type 0
  Unique [] = Unit
  Unique (b ∷ bs) = (in_use addr b bs ≡ false) × Unique bs

  pub in_use-append :
      (item : ℕ) (bs cs : List ℕ)
      → in_use addr item (bs ++ cs) ≡ (in_use addr item bs || in_use addr item cs)
  unfolding in_use
  in_use-append item [] cs = refl
  in_use-append item (b ∷ bs) cs = ground (arith, in_use-append item bs cs)

  pub Unique-append_one :
      (item : ℕ) (bs : List ℕ) → in_use addr item bs ≡ false → Unique bs → Unique (bs ++ item ∷ [])
  unfolding in_use
  Unique-append_one item [] h u = (refl, tt)
  Unique-append_one item (b ∷ bs) h u = (
    ground (arith, h, u.0, in_use-append b bs (item ∷ []), same_addr_comm item b),
    Unique-append_one item bs (ground (arith, h)) u.1,
  )

  -- Where no bound item has the address of `item`, none has it.
  pub in_use-has :
      (item b : ℕ) (bs : List ℕ)
      → in_use addr item bs ≡ false
      → has b bs ≡ true
      → same_addr addr b item ≡ false
  unfolding in_use
  in_use-has item b [] h k = cc
  in_use-has item b (c ∷ bs) h k = elim (Bool-cases (c == b)) [
    | inl e ↦ ground (arith, h, e)
    | inr e ↦ in_use-has item b bs (ground (arith, h)) (ground (arith, k, e))
  ]

-- The items that a new bound item is to be told of.
abbrev pub partners : (ℕ → List ℕ) → (ℕ → ℕ → Bool) → ℕ → List ℕ → List ℕ
partners addr is_peer item [] = []
partners addr is_peer item (c ∷ cs) = elim (same_addr addr item c && is_peer item c) [
  | true ↦ c ∷ partners addr is_peer item cs
  | false ↦ partners addr is_peer item cs
]

module _ {X : Type 0} (fn : ℕ → ℕ → X → Outcome X) where
  abbrev pub each : ℕ → List ℕ → X → Outcome X
  each item [] x = returned x
  each item (c ∷ cs) x = fn item c x >>= λ x'. each item cs x'

>>=-cong :
    {A B : Type 0} (m : Outcome A) (f g : A → Outcome B)
    → ((a : A) → f a ≡ g a)
    → (m >>= f) ≡ (m >>= g)
>>=-cong (returned a) f g h = h a
>>=-cong Outcome.abort f g h = refl
>>=-cong Outcome.undefined f g h = refl
>>=-cong Outcome.out_of_fuel f g h = refl

module _ {X : Type 0} (addr : ℕ → List ℕ) (is_peer : ℕ → ℕ → Bool)
    (fn : ℕ → ℕ → X → Outcome X) where
  -- The loop of nn_ins_bind calls `fn` for the partners, in the order in which they connected.
  pub bind_all-partners :
      (item : ℕ) (cs : List ℕ) (x : X)
      → bind_all addr is_peer fn item cs x ≡ each fn item (partners addr is_peer item cs) x
  unfolding bind_all
  bind_all-partners item [] x = refl
  bind_all-partners item (c ∷ cs) x = elim (Bool-cases (same_addr addr item c && is_peer item c)) [
    | inl e ↦ ground (
      arith,
      e,
      >>=-cong (fn item c x) (bind_all addr is_peer fn item cs)
          (each fn item (partners addr is_peer item cs)) (bind_all-partners item cs),
    )
    | inr e ↦ ground (arith, e, bind_all-partners item cs x)
  ]

  -- The loop of nn_ins_connect ends at the one bound item with the address of `item`.
  pub connect_first-bound :
      (item b : ℕ) (bs : List ℕ) (x : X)
      → Unique addr bs
      → has b bs ≡ true
      → same_addr addr item b ≡ true
      → connect_first addr is_peer fn item bs x
        ≡ (if is_peer item b then fn item b x else returned x)
  unfolding connect_first
  connect_first-bound item b [] x u h e = cc
  connect_first-bound item b (c ∷ bs) x u h e = elim (Bool-cases (c == b)) [
    | inl k ↦ ground (arith, e, k)
    | inr k ↦
        let there : has b bs ≡ true = ground (arith, h, k) in
        let apart : same_addr addr b c ≡ false = in_use-has addr c b bs u.0 there in
        let other : same_addr addr item c ≡ false =
          ground (arith, apart, same_addr_euclidean addr item c b, e) in
        ground (other, arith, connect_first-bound item b bs x u.1 there e)
  ]

  -- Where no bound item has the address, no call is made.
  pub connect_first-none :
      (item : ℕ) (bs : List ℕ) (x : X)
      → in_use addr item bs ≡ false
      → connect_first addr is_peer fn item bs x ≡ returned x
  unfolding connect_first in_use
  connect_first-none item [] x h = refl
  connect_first-none item (b ∷ bs) x h =
      ground (arith, h, same_addr_comm addr item b, connect_first-none item bs x)
