-- ===== src/Wire.antt =====
-- src/utils/wire.c: 16, 32 and 64-bit numbers in network byte order. A buffer is the list of its
-- bytes from the pointer on; the C functions read and write the first 2, 4 or 8 of them.
pub mod RoundTrip
mod Tests
use Prim.Native.Nat.{bit_and, bit_or}
use nanomsg_copy.Prelude.{ℕ, ◌+◌, ◌*◌, ◌/◌, ◌%◌, ◌^◌, List, get_or, set}

-- `buf[i]`; the theorems are about buffers that are long enough.
abbrev at : List ℕ → ℕ → ℕ
at buf i = get_or buf i 0

-- `(uint8_t)((val >> k) & 0xff)`
byte : ℕ → ℕ → ℕ
byte k val = bit_and (val / 2 ^ k) 0xff % 256

pub gets : List ℕ → ℕ
gets buf = bit_or (at buf 0 * 2 ^ 8) (at buf 1)

pub puts : List ℕ → ℕ → List ℕ
unfolding byte
puts buf val = set (set buf 0 (byte 8 val)) 1 (byte 0 val)

pub getl : List ℕ → ℕ
getl buf =
    bit_or (bit_or (bit_or (at buf 0 * 2 ^ 24) (at buf 1 * 2 ^ 16)) (at buf 2 * 2 ^ 8)) (at buf 3)

pub putl : List ℕ → ℕ → List ℕ
putl buf val =
    set (set (set (set buf 0 (byte 24 val)) 1 (byte 16 val)) 2 (byte 8 val)) 3 (byte 0 val)

pub getll : List ℕ → ℕ
getll buf =
    bit_or
      (bit_or (bit_or (bit_or high (at buf 4 * 2 ^ 24)) (at buf 5 * 2 ^ 16)) (at buf 6 * 2 ^ 8))
      (at buf 7)
  where
    high : ℕ
    high =
        bit_or (bit_or (bit_or (at buf 0 * 2 ^ 56) (at buf 1 * 2 ^ 48)) (at buf 2 * 2 ^ 40))
          (at buf 3 * 2 ^ 32)

pub putll : List ℕ → ℕ → List ℕ
putll buf val =
    set (set (set (set high 4 (byte 24 val)) 5 (byte 16 val)) 6 (byte 8 val)) 7 (byte 0 val)
  where
    high : List ℕ
    high = set (set (set (set buf 0 (byte 56 val)) 1 (byte 48 val)) 2 (byte 40 val)) 3 (byte 32 val)
