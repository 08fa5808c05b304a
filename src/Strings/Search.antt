-- ===== src/Strings/Search.antt =====
-- src/utils/strcasestr.c finds the first place of a key, without regard to case.
use nanomsg_copy.Prelude.{
  ℕ, zero, suc, ◌≡◌, ◌≢◌, ◌⊎◌, inl, inr, refl, ◌∙◌, sym, ap, true, false, Bool-cases, none, some,
  List, [], ◌∷◌, ◌++◌, map, take, length, returned, arith,
}
use nanomsg_copy.Prelude.Int.{ℤ, pos, negsuc}
use nanomsg_copy.Strings.{is_zero, strncasecmp, strcasestr}
use nanomsg_copy.Strings.Compare.{NoZero, IsLower, strncasecmp-take, is_zero_ne}

-- The key in lower case stands at the front of the string in lower case.
abbrev pub Starts : (ℕ → ℕ) → List ℕ → List ℕ → Type 0
Starts lower key str = take (length key) (map lower str) ≡ map lower key

-- It stands at none of the places of `front`, in `front ++ rest`.
abbrev pub Nowhere : (ℕ → ℕ) → List ℕ → List ℕ → List ℕ → Type 0
Nowhere lower key [] rest = Unit
Nowhere lower key (x ∷ front) rest =
    (take (length key) (map lower (x ∷ front ++ rest)) ≢ map lower key)
    × Nowhere lower key front rest

take-all : (lower : ℕ → ℕ) (key : List ℕ) → take (length key) (map lower key) ≡ map lower key
take-all lower [] = refl
take-all lower (k ∷ key) = ap (λ (t : List ℕ). lower k ∷ t) (take-all lower key)

is_zero-pos : (r : ℤ) → is_zero r ≡ true → r ≡ pos 0
is_zero-pos (pos zero) h = refl
is_zero-pos (pos (suc n)) h = cc
is_zero-pos (negsuc n) h = cc

append_nil : (xs : List ℕ) → xs ++ [] ≡ xs
append_nil [] = refl
append_nil (x ∷ xs) = ap (λ (t : List ℕ). x ∷ t) (append_nil xs)

module _ (lower : ℕ → ℕ) where
  strcasestr-empty : (key : List ℕ) → strcasestr lower [] key ≡ returned none
  unfolding strcasestr
  strcasestr-empty key = refl

  strcasestr-found :
      (x : ℕ) (str key : List ℕ) (r : ℤ)
      → strncasecmp lower (length key) (x ∷ str) key ≡ returned r
      → is_zero r ≡ true
      → strcasestr lower (x ∷ str) key ≡ returned (some (x ∷ str))
  unfolding strcasestr
  strcasestr-found x str key r call e = ground (arith, call, e)

  strcasestr-next :
      (x : ℕ) (str key : List ℕ) (r : ℤ)
      → strncasecmp lower (length key) (x ∷ str) key ≡ returned r
      → is_zero r ≡ false
      → strcasestr lower (x ∷ str) key ≡ strcasestr lower str key
  unfolding strcasestr
  strcasestr-next x str key r call e = ground (arith, call, e)

module _ (lower : ℕ → ℕ) (low : IsLower lower) where
  -- nn_strcasestr returns for every string and key, and reads neither behind its end. Either it gives a
  -- place in the string, in front of its end, at which the key stands, both in lower case, and in front of
  -- which it stands nowhere, or it gives NULL and the key stands at no place in front of the end.
  pub strcasestr-first :
      (str key : List ℕ)
      → NoZero str
      → NoZero key
      → ((front : List ℕ) × (rest : List ℕ) × (strcasestr lower str key ≡ returned (some rest))
          × (str ≡ front ++ rest)
          × Starts lower key rest
          × Nowhere lower key front rest)
        ⊎ ((strcasestr lower str key ≡ returned none) × Nowhere lower key str [])
  strcasestr-first [] key hs hk = inr (strcasestr-empty lower key, tt)
  strcasestr-first (x ∷ str) key hs hk =
      let (r, call, (to, from)) = strncasecmp-take lower low (length key) (x ∷ str) key hs hk in
      elim (Bool-cases (is_zero r)) [
        | inl e ↦ inl (
          [],
          x ∷ str,
          strcasestr-found lower x str key r call e,
          refl,
          to (is_zero-pos r e) ∙ take-all lower key,
          tt,
        )
        | inr e ↦
            let differs : take (length key) (map lower (x ∷ str)) ≢ map lower key =
              λ k. is_zero_ne r e (from (k ∙ sym (take-all lower key))) in
            elim (strcasestr-first str key hs.1 hk) [
              | inl (front, rest, found, split, here, before) ↦ inl (
                x ∷ front,
                rest,
                strcasestr-next lower x str key r call e ∙ found,
                ap (λ (t : List ℕ). x ∷ t) split,
                here,
                (rw (← split) differs, before),
              )
              | inr (missing, nowhere) ↦ inr (
                strcasestr-next lower x str key r call e ∙ missing,
                (rw (append_nil str) differs, nowhere),
              )
            ]
      ]
