-- ===== src/Wire/Tests.antt =====
-- Runs of the wire functions, and the round trips at concrete buffers.
use nanomsg_copy.Prelude.{◌≡◌, refl, [], ◌∷◌, drop, arith}
use nanomsg_copy.Wire.{byte, putl, getll, putll}
use nanomsg_copy.Wire.RoundTrip.{getll-putll}

putl_big_endian : putl (9 ∷ 9 ∷ 9 ∷ 9 ∷ 7 ∷ []) 0xdeadcafe ≡ 0xde ∷ 0xad ∷ 0xca ∷ 0xfe ∷ 7 ∷ []
unfolding putl byte
putl_big_endian = refl

getll-putll_example :
    (getll (putll (9 ∷ 9 ∷ 9 ∷ 9 ∷ 9 ∷ 9 ∷ 9 ∷ 9 ∷ 7 ∷ []) 0xdeadcafe01) ≡ 0xdeadcafe01)
    × (drop 8 (putll (9 ∷ 9 ∷ 9 ∷ 9 ∷ 9 ∷ 9 ∷ 9 ∷ 9 ∷ 7 ∷ []) 0xdeadcafe01) ≡ 7 ∷ [])
getll-putll_example = getll-putll 9 9 9 9 9 9 9 9 0xdeadcafe01 (7 ∷ []) (omega arith)
