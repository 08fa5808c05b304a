-- ===== src/Strings.antt =====
-- src/utils/strcasecmp.c, strncasecmp.c and strcasestr.c: comparison and search without regard to case.
-- A string is the list of the characters in front of its terminating zero.
pub mod Compare
pub mod Search
mod Tests
use nanomsg_copy.Prelude.{
  ℕ, zero, suc, Bool, true, false, Option, none, some, List, [], ◌∷◌, length, Outcome, returned,
  ◌>>=◌, ◌==◌, if◌then◌else◌,
}
use nanomsg_copy.Prelude.Int.{ℤ, pos, negsuc, sub_ℕ}

abbrev pub is_zero : ℤ → Bool
is_zero (pos zero) = true
is_zero (pos (suc n)) = false
is_zero (negsuc n) = false

-- `lower` is tolower of the C library.
module _ (lower : ℕ → ℕ) where
  -- `tolower(*a) - tolower(*b)`
  abbrev pub diff : ℕ → ℕ → ℤ
  diff x y = sub_ℕ (lower x) (lower y)

  -- nn_strcasecmp. Going on behind the end of one of the strings is undefined.
  pub strcasecmp : List ℕ → List ℕ → Outcome ℤ
  strcasecmp [] [] = returned (pos 0)
  strcasecmp (x ∷ a) (y ∷ b) = elim (is_zero (diff x y)) [
    | true ↦ strcasecmp a b
    | false ↦ returned (diff x y)
  ]
  strcasecmp [] (y ∷ b) = if is_zero (diff 0 y) then Outcome.undefined else returned (diff 0 y)
  strcasecmp (x ∷ a) [] = if is_zero (diff x 0) then Outcome.undefined else returned (diff x 0)

  -- nn_strncasecmp
  pub strncasecmp : ℕ → List ℕ → List ℕ → Outcome ℤ
  strncasecmp zero a b = returned (pos 0)
  strncasecmp (suc len) [] [] = returned (pos 0)
  strncasecmp (suc len) (x ∷ a) (y ∷ b) = elim (is_zero (diff x y)) [
    | true ↦ strncasecmp len a b
    | false ↦ returned (diff x y)
  ]
  strncasecmp (suc len) [] (y ∷ b) = elim (is_zero (diff 0 y)) [
    | true ↦ elim len [ zero ↦ returned (diff 0 y) | suc n ↦ Outcome.undefined ]
    | false ↦ returned (diff 0 y)
  ]
  strncasecmp (suc len) (x ∷ a) [] = elim (is_zero (diff x 0)) [
    | true ↦ elim len [ zero ↦ returned (diff x 0) | suc n ↦ Outcome.undefined ]
    | false ↦ returned (diff x 0)
  ]

  -- nn_strcasestr; a pointer into the string is the rest of the string from there.
  pub strcasestr : List ℕ → List ℕ → Outcome (Option (List ℕ))
  strcasestr [] key = returned none
  strcasestr (x ∷ str) key = strncasecmp (length key) (x ∷ str) key >>= λ r. elim (is_zero r) [
    | true ↦ returned (some (x ∷ str))
    | false ↦ strcasestr str key
  ]
