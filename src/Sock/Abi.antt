-- ===== src/Sock/Abi.antt =====
-- How an `int` lies in memory, which the C compiler fixes, and the memory functions of <string.h>.
use nanomsg_copy.Prelude.{
  ℕ, ◌-◌, ◌≡◌, ◌==◌, if◌then◌else◌, List, [], ◌∷◌, ◌++◌, length, take, drop, replicate,
}
use nanomsg_copy.Prelude.Int.{ℤ}

pub record Abi : Type 0 where
  pub sizeof_int : ℕ
  pub int_of : List ℕ → ℤ  -- `*(int *)p`
  pub bytes_of : ℤ → List ℕ
  pub length-bytes_of : (v : ℤ) → length (bytes_of v) ≡ sizeof_int
  pub int_of-bytes_of : (v : ℤ) (rest : List ℕ) → int_of (bytes_of v ++ rest) ≡ v

-- memcpy(dst, src, n)
abbrev pub memcpy : List ℕ → List ℕ → ℕ → List ℕ
memcpy dst src n = take n src ++ drop n dst

-- The characters of a string, up to its NUL.
pub c_string : List ℕ → List ℕ
c_string [] = []
c_string (c ∷ cs) = if c == 0 then [] else c ∷ c_string cs

-- strncpy(dst, src, n): at most n characters, and NULs up to n.
pub strncpy : List ℕ → List ℕ → ℕ → List ℕ
strncpy dst src n =
    let copied = take n (c_string src) in copied ++ replicate (n - length copied) 0 ++ drop n dst
