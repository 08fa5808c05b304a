-- ===== src/Strings/Tests.antt =====
-- The strings "aB", "Ab" and so on, with the letters of ASCII.
use nanomsg_copy.Prelude.{
  ℕ, ◌≡◌, ◌≢◌, ◌↔◌, ◌⊎◌, ◌+◌, refl, arith, ◌&&◌, none, some, List, [], ◌∷◌, ◌++◌, map, take,
  returned, leb, if◌then◌else◌,
}
use nanomsg_copy.Prelude.Int.{ℤ, pos, negsuc}
use nanomsg_copy.Strings.{strcasecmp, strncasecmp, strcasestr}
use nanomsg_copy.Strings.Compare.{IsLower, strncasecmp-take}
use nanomsg_copy.Strings.Search.{Starts, Nowhere, strcasestr-first}

abbrev to_lower : ℕ → ℕ
to_lower c = if leb 65 c && leb c 90 then c + 32 else c

to_lower-nonzero : (c : ℕ) → c ≢ 0 → to_lower c ≢ 0
to_lower-nonzero c h = ground (arith, h)

to_lower-IsLower : IsLower to_lower
to_lower-IsLower = record { zero_kept = refl; nonzero = to_lower-nonzero }

-- "aB" and "Abc"
abbrev short : List ℕ
short = 97 ∷ 66 ∷ []

abbrev long : List ℕ
long = 65 ∷ 98 ∷ 99 ∷ []

strncasecmp-take_example :
    (r : ℤ) × (strncasecmp to_lower 2 short long ≡ returned r)
    × ((r ≡ pos 0) ↔ (take 2 (map to_lower short) ≡ take 2 (map to_lower long)))
strncasecmp-take_example =
    strncasecmp-take to_lower to_lower-IsLower 2 short long (omega arith, (omega arith, tt))
      (omega arith, (omega arith, (omega arith, tt)))

strcasestr-first_example :
    ((front : List ℕ) × (rest : List ℕ) × (strcasestr to_lower long (66 ∷ [])
        ≡ returned (some rest))
      × (long ≡ front ++ rest)
      × Starts to_lower (66 ∷ []) rest
      × Nowhere to_lower (66 ∷ []) front rest)
    ⊎ ((strcasestr to_lower long (66 ∷ []) ≡ returned none) × Nowhere to_lower (66 ∷ []) long [])
strcasestr-first_example =
    strcasestr-first to_lower to_lower-IsLower long (66 ∷ [])
      (omega arith, (omega arith, (omega arith, tt))) (omega arith, tt)

-- The key "" is not found in "".
empty_key : strcasestr to_lower [] [] ≡ returned none
unfolding strcasestr
empty_key = refl

longer : strcasecmp to_lower short long ≡ returned (negsuc 98)
unfolding strcasecmp
longer = refl
