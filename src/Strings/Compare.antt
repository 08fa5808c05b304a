-- ===== src/Strings/Compare.antt =====
-- src/utils/strcasecmp.c and strncasecmp.c compare the strings in lower case.
use nanomsg_copy.Prelude.{
  ℕ, zero, suc, ◌≡◌, ◌≢◌, ◌↔◌, inl, inr, ◌<◌, refl, sym, ap, true, false, Bool-cases, List, [], ◌∷◌,
  map, take, length, returned, arith,
}
use nanomsg_copy.Prelude.Int.{ℤ, pos, sub_ℕ}
use nanomsg_copy.Strings.{is_zero, diff, strcasecmp, strncasecmp}

-- No character of the string is its terminating zero.
abbrev pub NoZero : List ℕ → Type 0
NoZero [] = Unit
NoZero (x ∷ xs) = (x ≢ 0) × NoZero xs

-- What is used of tolower: it changes neither zero into another character nor another into zero.
pub record IsLower (lower : ℕ → ℕ) : Type 0 where
  pub zero_kept : lower 0 ≡ 0
  pub nonzero : (c : ℕ) → c ≢ 0 → lower c ≢ 0

pub is_zero-diff_eq : (x y : ℕ) → is_zero (sub_ℕ x y) ≡ true → x ≡ y
is_zero-diff_eq x y h = ground (arith, h)

pub is_zero-diff_ne : (x y : ℕ) → is_zero (sub_ℕ x y) ≡ false → x ≢ y
is_zero-diff_ne x y h e = ground (arith, h, e)

pub is_zero_ne : (r : ℤ) → is_zero r ≡ false → r ≢ pos 0
is_zero_ne r h e = cc (ap is_zero e, h)

head_or : ℕ → List ℕ → ℕ
head_or d [] = d
head_or d (x ∷ xs) = x

tail : List ℕ → List ℕ
tail [] = []
tail (x ∷ xs) = xs

∷-head : (x y : ℕ) (xs ys : List ℕ) → x ∷ xs ≡ y ∷ ys → x ≡ y
unfolding head_or
∷-head x y xs ys e = ap (head_or 0) e

∷-tail : (x y : ℕ) (xs ys : List ℕ) → x ∷ xs ≡ y ∷ ys → xs ≡ ys
unfolding tail
∷-tail x y xs ys e = ap tail e

[]-ne-∷ : (x : ℕ) (xs : List ℕ) → [] ≢ x ∷ xs
[]-ne-∷ x xs e = cc

module _ (lower : ℕ → ℕ) (low : IsLower lower) where
  zero_ne : (c : ℕ) → c ≢ 0 → is_zero (diff lower 0 c) ≡ false
  zero_ne c h = ground (arith, low.zero_kept, low.nonzero c h)

  ne_zero : (c : ℕ) → c ≢ 0 → is_zero (diff lower c 0) ≡ false
  ne_zero c h = ground (arith, low.zero_kept, low.nonzero c h)

  -- Strings without zeros inside are compared within their bounds, and the result is 0 exactly where
  -- the first `n` characters in lower case are the same.
  pub strncasecmp-take :
      (n : ℕ) (a b : List ℕ)
      → NoZero a
      → NoZero b
      → (r : ℤ) × (strncasecmp lower n a b ≡ returned r)
        × ((r ≡ pos 0) ↔ (take n (map lower a) ≡ take n (map lower b)))
  unfolding strncasecmp
  strncasecmp-take zero a b ha hb = (pos 0, refl, (λ e. refl, λ e. refl))
  strncasecmp-take (suc n) [] [] ha hb = (pos 0, refl, (λ e. refl, λ e. refl))
  strncasecmp-take (suc n) [] (y ∷ b) ha hb =
      let ne = zero_ne y hb.0 in
      (
        diff lower 0 y,
        ground (arith, ne),
        (
          λ e. absurd (is_zero_ne (diff lower 0 y) ne e),
          λ e. absurd ([]-ne-∷ (lower y) (take n (map lower b)) e),
        ),
      )
  strncasecmp-take (suc n) (x ∷ a) [] ha hb =
      let ne = ne_zero x ha.0 in
      (
        diff lower x 0,
        ground (arith, ne),
        (
          λ e. absurd (is_zero_ne (diff lower x 0) ne e),
          λ e. absurd ([]-ne-∷ (lower x) (take n (map lower a)) (sym e)),
        ),
      )
  strncasecmp-take (suc n) (x ∷ a) (y ∷ b) ha hb = elim (Bool-cases (is_zero (diff lower x y))) [
    | inl e ↦
        let (r, call, (to, from)) = strncasecmp-take n a b ha.1 hb.1 in
        let same = is_zero-diff_eq (lower x) (lower y) e in
        (
          r,
          ground (arith, e, call),
          (
            λ k. cc (same, to k),
            λ k. from (∷-tail (lower x) (lower y) (take n (map lower a)) (take n (map lower b)) k),
          ),
        )
    | inr e ↦ (
      diff lower x y,
      ground (arith, e),
      (
        λ k. absurd (is_zero_ne (diff lower x y) e k),
        λ k. absurd (
            is_zero-diff_ne (lower x) (lower y) e
              (∷-head (lower x) (lower y) (take n (map lower a)) (take n (map lower b)) k)),
      ),
    )
  ]

  -- nn_strcasecmp is nn_strncasecmp with a length above that of the first string.
  pub strcasecmp-strncasecmp :
      (n : ℕ) (a b : List ℕ)
      → length a < n
      → NoZero a
      → NoZero b
      → strcasecmp lower a b ≡ strncasecmp lower n a b
  unfolding strcasecmp strncasecmp
  strcasecmp-strncasecmp (suc n) [] [] h ha hb = refl
  strcasecmp-strncasecmp (suc n) [] (y ∷ b) h ha hb = ground (arith, zero_ne y hb.0)
  strcasecmp-strncasecmp (suc n) (x ∷ a) [] h ha hb = ground (arith, ne_zero x ha.0)
  strcasecmp-strncasecmp (suc n) (x ∷ a) (y ∷ b) h ha hb =
      ground (arith, strcasecmp-strncasecmp n a b (omega arith) ha.1 hb.1)
  strcasecmp-strncasecmp zero a b h ha hb = absurd (omega arith)
