-- ===== src/Wire/RoundTrip.antt =====
-- What nn_put* writes, nn_get* reads back, and the other way round.
use Prim.Native.Nat.{bit_or}
use nanomsg_copy.Prelude.{
  get_or, [], ℕ, ◌+◌, ◌*◌, ◌/◌, ◌%◌, ◌^◌, ◌<◌, ◌≡◌, refl, List, ◌∷◌, ◌∙◌, drop, arith,
}
use nanomsg_copy.Prelude.Bits.{bit_or-shift, bit_and-ones}
use native.Mathlib.Nat.{div-add-mod}
use nanomsg_copy.Wire.{byte, gets, puts, getl, putl, getll, putll}

byte-mod : (k val : ℕ) → byte k val ≡ val / 2 ^ k % 256
unfolding byte
byte-mod k val = omega (arith, bit_and-ones 8 (val / 2 ^ k))

-- `x | lo` is a sum where the low `k` bits of `x` are 0 and `lo` has at most `k` bits.
or_field : (k x lo : ℕ) → x % 2 ^ k ≡ 0 → lo < 2 ^ k → bit_or x lo ≡ x + lo
or_field k x lo e h = rw (← whole) at (bit_or-shift k (x / 2 ^ k) lo h)
  where
    whole : x ≡ x / 2 ^ k * 2 ^ k
    whole = ground (arith, div-add-mod x (2 ^ k))

gets-sum : (a b : ℕ) (rest : List ℕ) → b < 256 → gets (a ∷ b ∷ rest) ≡ a * 2 ^ 8 + b
unfolding gets
gets-sum a b rest hb = bit_or-shift 8 a b hb

pub getl-sum :
    (a b c d : ℕ) (rest : List ℕ)
    → b < 256
    → c < 256
    → d < 256
    → getl (a ∷ b ∷ c ∷ d ∷ rest) ≡ a * 2 ^ 24 + b * 2 ^ 16 + c * 2 ^ 8 + d
unfolding getl
getl-sum a b c d rest hb hc hd = rw (e1, e2, e3)
  where
    e1 : bit_or (a * 2 ^ 24) (b * 2 ^ 16) ≡ a * 2 ^ 24 + b * 2 ^ 16
    e1 = or_field 24 _ _ (omega arith) (omega arith)

    e2 : bit_or (a * 2 ^ 24 + b * 2 ^ 16) (c * 2 ^ 8) ≡ a * 2 ^ 24 + b * 2 ^ 16 + c * 2 ^ 8
    e2 = or_field 16 _ _ (omega arith) (omega arith)

    e3 : bit_or (a * 2 ^ 24 + b * 2 ^ 16 + c * 2 ^ 8) d ≡ a * 2 ^ 24 + b * 2 ^ 16 + c * 2 ^ 8 + d
    e3 = or_field 8 _ _ (omega arith) (omega arith)

-- The last of the four bytes that nn_putl writes is the low byte.
pub putl_low_byte :
    (a b c d val : ℕ) (rest : List ℕ) → get_or (putl (a ∷ b ∷ c ∷ d ∷ rest) val) 3 0 ≡ val % 256
unfolding putl
putl_low_byte a b c d val rest = omega (arith, byte-mod 0 val)

-- nn_getl reads four bytes only.
pub getl-at :
    (buf : List ℕ)
    → getl (get_or buf 0 0 ∷ get_or buf 1 0 ∷ get_or buf 2 0 ∷ get_or buf 3 0 ∷ []) ≡ getl buf
unfolding getl
getl-at buf = refl

getll-sum :
    (a b c d e f g h : ℕ) (rest : List ℕ)
    → b < 256
    → c < 256
    → d < 256
    → e < 256
    → f < 256
    → g < 256
    → h < 256
    → getll (a ∷ b ∷ c ∷ d ∷ e ∷ f ∷ g ∷ h ∷ rest)
      ≡ (a * 2 ^ 24 + b * 2 ^ 16 + c * 2 ^ 8 + d) * 2 ^ 32
        + (e * 2 ^ 24 + f * 2 ^ 16 + g * 2 ^ 8 + h)
unfolding getll
getll-sum a b c d e f g h rest hb hc hd he hf hg hh =
    rw
      (
        or_field 56 (a * 2 ^ 56) (b * 2 ^ 48) (omega arith) (omega arith),
        or_field 48 (a * 2 ^ 56 + b * 2 ^ 48) (c * 2 ^ 40) (omega arith) (omega arith),
        or_field 40 (a * 2 ^ 56 + b * 2 ^ 48 + c * 2 ^ 40) (d * 2 ^ 32) (omega arith) (omega arith),
        or_field 32 high (e * 2 ^ 24) (omega arith) (omega arith),
        or_field 24 (high + e * 2 ^ 24) (f * 2 ^ 16) (omega arith) (omega arith),
        or_field 16 (high + e * 2 ^ 24 + f * 2 ^ 16) (g * 2 ^ 8) (omega arith) (omega arith),
        or_field 8 (high + e * 2 ^ 24 + f * 2 ^ 16 + g * 2 ^ 8) h (omega arith) (omega arith),
      )
      (omega arith)
  where
    high : ℕ
    high = a * 2 ^ 56 + b * 2 ^ 48 + c * 2 ^ 40 + d * 2 ^ 32

-- On a buffer of at least two bytes, nn_gets returns the 16-bit number that nn_puts wrote, and the
-- bytes behind the first two stay.
pub gets-puts :
    (a b val : ℕ) (rest : List ℕ)
    → val < 2 ^ 16
    → (gets (puts (a ∷ b ∷ rest) val) ≡ val) × (drop 2 (puts (a ∷ b ∷ rest) val) ≡ rest)
unfolding puts
gets-puts a b val rest h = (
  gets-sum (byte 8 val) (byte 0 val) rest (omega (arith, byte-mod 0 val))
      ∙ omega (arith, byte-mod 8 val, byte-mod 0 val),
  refl,
)

-- On a buffer of at least four bytes, nn_getl returns the 32-bit number that nn_putl wrote, and
-- the bytes behind the first four stay.
pub getl-putl :
    (a b c d val : ℕ) (rest : List ℕ)
    → val < 2 ^ 32
    → let buf = putl (a ∷ b ∷ c ∷ d ∷ rest) val in (getl buf ≡ val) × (drop 4 buf ≡ rest)
unfolding putl
getl-putl a b c d val rest h = (
  getl-sum (byte 24 val) (byte 16 val) (byte 8 val) (byte 0 val) rest
        (omega (arith, byte-mod 16 val)) (omega (arith, byte-mod 8 val))
        (omega (arith, byte-mod 0 val))
      ∙ omega (arith, byte-mod 24 val, byte-mod 16 val, byte-mod 8 val, byte-mod 0 val),
  refl,
)

-- Writing back what nn_getl read from four bytes puts those bytes in the first four places of any
-- other buffer of at least four bytes, and leaves the rest of it.
pub putl-getl :
    (a b c d w x y z : ℕ) (rest other : List ℕ)
    → a < 256
    → b < 256
    → c < 256
    → d < 256
    → putl (w ∷ x ∷ y ∷ z ∷ other) (getl (a ∷ b ∷ c ∷ d ∷ rest)) ≡ a ∷ b ∷ c ∷ d ∷ other
unfolding putl
putl-getl a b c d w x y z rest other ha hb hc hd =
    rw (getl-sum a b c d rest hb hc hd)
      (rw (byte-mod 24 val, byte-mod 16 val, byte-mod 8 val, byte-mod 0 val) (ground arith))
  where
    val : ℕ
    val = a * 2 ^ 24 + b * 2 ^ 16 + c * 2 ^ 8 + d

-- On a buffer of at least eight bytes, nn_getll returns the 64-bit number that nn_putll wrote, and
-- the bytes behind the first eight stay.
pub getll-putll :
    (a b c d e f g h val : ℕ) (rest : List ℕ)
    → val < 2 ^ 64
    → let buf = putll (a ∷ b ∷ c ∷ d ∷ e ∷ f ∷ g ∷ h ∷ rest) val in
      (getll buf ≡ val) × (drop 8 buf ≡ rest)
unfolding putll
getll-putll a b c d e f g h val rest bound = (
  getll-sum (byte 56 val) (byte 48 val) (byte 40 val) (byte 32 val) (byte 24 val) (byte 16 val)
        (byte 8 val) (byte 0 val) rest (omega (arith, byte-mod 48 val))
        (omega (arith, byte-mod 40 val)) (omega (arith, byte-mod 32 val))
        (omega (arith, byte-mod 24 val)) (omega (arith, byte-mod 16 val))
        (omega (arith, byte-mod 8 val)) (omega (arith, byte-mod 0 val))
      ∙ omega (
        arith,
        byte-mod 56 val,
        byte-mod 48 val,
        byte-mod 40 val,
        byte-mod 32 val,
        byte-mod 24 val,
        byte-mod 16 val,
        byte-mod 8 val,
        byte-mod 0 val,
      ),
  refl,
)
