-- ===== src/Chunk/Fresh.antt =====
-- src/utils/chunk.c: what nn_chunk_alloc returns, and what its result can be used for.
use nanomsg_copy.Prelude.{
  ℕ, ◌+◌, ◌%◌, ◌^◌, ◌≤◌, ◌<◌, ◌≡◌, ◌≢◌, refl, sym, ◌∙◌, [], ◌*◌, ◌⊎◌, inl, inr, zero, suc, ◌>>=◌,
  Option-cases, Option, none, some, arith, Outcome, abort, enomem, einval, update, update_self,
}
use nanomsg_copy.Prelude.Int.{ℤ, pos, negsuc}
use native.Mathlib.Decide.{dec_le}
use nanomsg_copy.Wire.RoundTrip.{getl-sum, putl_low_byte}
use nanomsg_copy.Chunk.{
  Chunk, Ptr, Heap, refused, allocated, hdrsize, chunk_tag, load, store, fresh, alloc, getptr, free,
  size, trim, realloc,
}
use nanomsg_copy.Chunk.Header.{store_above, store_at}

-- The values of a block's memory are bytes.
abbrev pub IsBytes : (ℕ → ℕ) → Type 0
IsBytes m = (i : ℕ) → m i < 256

tag_byte : (n : ℕ) (m : ℕ → ℕ) → (fresh n m).bytes 4 ≡ 254
tag_byte n m =
    store_at (store m 0 0) 1 chunk_tag 3 (omega arith) ∙ putl_low_byte _ _ _ _ chunk_tag []

untouched : (n : ℕ) (m : ℕ → ℕ) (j : ℕ) → 5 ≤ j → (fresh n m).bytes j ≡ m j
untouched n m j h = store_above (store m 0 0) 1 chunk_tag j h ∙ store_above m 0 0 j (omega arith)

-- The first byte in the tag's place is the last byte of the tag.
load-fresh : (n : ℕ) (m : ℕ → ℕ) → IsBytes m → load (fresh n m).bytes 4 ≢ chunk_tag
unfolding load
load-fresh n m h e =
    let s : 254 * 2 ^ 24 + m 5 * 2 ^ 16 + m 6 * 2 ^ 8 + m 7 ≡ chunk_tag =
      sym (getl-sum 254 (m 5) (m 6) (m 7) [] (h 5) (h 6) (h 7))
      ∙ rw
          (
            ← tag_byte n m,
            ← untouched n m 5 (omega arith),
            ← untouched n m 6 (omega arith),
            ← untouched n m 7 (omega arith),
          )
          e in
    omega arith

zero_or : (t : ℤ) → (t ≡ pos 0) ⊎ (t ≢ pos 0)
zero_or (pos zero) = inl refl
zero_or (pos (suc n)) = inr (λ e. ground (arith, e))
zero_or (negsuc n) = inr (λ e. cc)

module _ (malloc : ℕ → Option (ℕ → ℕ)) (n : ℕ) (h : Heap) where
  alloc-overflow : (t : ℤ) → n < 2 ^ 64 → 2 ^ 64 ≤ hdrsize + n → alloc malloc n t h ≡ refused enomem
  unfolding alloc
  alloc-overflow t b o = ground arith

  module _ (k : hdrsize + n < 2 ^ 64) where
    size_kept : (hdrsize + n) % 2 ^ 64 ≡ hdrsize + n
    size_kept = omega arith

    alloc-type : (t : ℤ) → t ≢ pos 0 → alloc malloc n t h ≡ refused einval
    unfolding alloc
    alloc-type (pos zero) d = absurd (d refl)
    alloc-type (pos (suc t)) d = ground (arith, size_kept)
    alloc-type (negsuc t) d = ground (arith, size_kept)

    alloc-none : malloc (hdrsize + n) ≡ none → alloc malloc n (pos 0) h ≡ refused enomem
    unfolding alloc
    alloc-none e = ground (arith, size_kept, e)

    pub alloc-some :
        (m : ℕ → ℕ)
        → malloc (hdrsize + n) ≡ some m
        → alloc malloc n (pos 0) h
          ≡ allocated
              (record { block = h.next; offset = 8 })
              (record { next = h.next + 1; chunks = update h.chunks h.next (some (fresh n m)) })
    unfolding alloc
    alloc-some m e = ground (arith, size_kept, e)

-- nn_chunk_alloc, which adds the sizes modulo 2^64, fails where the sum overflows, for a type that is not 0
-- and where malloc fails; otherwise it makes one block, with 24 bytes for the struct, 8 for the words and the
-- data.
pub alloc-cases :
    (malloc : ℕ → Option (ℕ → ℕ)) (n : ℕ) (type : ℤ) (h : Heap)
    → n < 2 ^ 64
    → ((alloc malloc n type h ≡ refused enomem) × (2 ^ 64 ≤ 32 + n))
      ⊎ ((alloc malloc n type h ≡ refused einval) × (32 + n < 2 ^ 64) × (type ≢ pos 0))
      ⊎ ((alloc malloc n type h ≡ refused enomem) × (malloc (32 + n) ≡ none))
      ⊎ ((m : ℕ → ℕ) × (alloc malloc n type h
            ≡ allocated
                (record { block = h.next; offset = 8 })
                (record { next = h.next + 1; chunks = update h.chunks h.next (some (fresh n m)) }))
          × (malloc (32 + n) ≡ some m)
          × (32 + n < 2 ^ 64)
          × (type ≡ pos 0))
alloc-cases malloc n type h b = elim (dec_le (2 ^ 64) (hdrsize + n)) [
  | yes o ↦ inl (alloc-overflow malloc n h type b o, o)
  | no c ↦
      let k : hdrsize + n < 2 ^ 64 = omega arith in
      elim (zero_or type) [
        | inr d ↦ inr (inl (alloc-type malloc n h k type d, k, d))
        | inl z ↦ rw z (elim (Option-cases (malloc (hdrsize + n))) [
          | inl e ↦ inr (inr (inl (alloc-none malloc n h k e, e)))
          | inr (m, e) ↦ inr (inr (inr (m, alloc-some malloc n h k m e, e, k, refl)))
        ])
      ]
]

-- On the block of a successful nn_chunk_alloc the assertion of nn_chunk_getptr fails.
getptr-fresh :
    (n : ℕ) (m : ℕ → ℕ) (h : Heap) (b : ℕ)
    → IsBytes m
    → h.chunks b ≡ some (fresh n m)
    → getptr h (record { block = b; offset = 8 }) ≡ abort
unfolding getptr
getptr-fresh n m h b i e = ground (arith, e, load-fresh n m i)

-- The memory that malloc gives has bytes in it.
abbrev pub GivesBytes : (ℕ → Option (ℕ → ℕ)) → Type 0
GivesBytes malloc = (n : ℕ) (m : ℕ → ℕ) → malloc n ≡ some m → IsBytes m

aborting : {A : Type 0} (x : Outcome Chunk) (f : Chunk → Outcome A) → x ≡ abort → (x >>= f) ≡ abort
aborting x f e = rw e refl

-- Where malloc gives bytes: after a successful nn_chunk_alloc an assertion fails in nn_chunk_free, nn_chunk_size,
-- nn_chunk_trim and nn_chunk_realloc of its result.
pub alloc-unusable :
    (malloc : ℕ → Option (ℕ → ℕ)) (n : ℕ) (type : ℤ) (h h' : Heap) (p : Ptr)
    → GivesBytes malloc
    → n < 2 ^ 64
    → alloc malloc n type h ≡ allocated p h'
    → (free p h' ≡ abort)
      × (size p h' ≡ abort)
      × ((k : ℕ) → trim p k h' ≡ abort)
      × ((k : ℕ) → realloc malloc k p h' ≡ abort)
unfolding free size trim realloc
alloc-unusable malloc n type h h' p g b e =
    let a : getptr h' p ≡ abort = unreadable in
    (aborting _ _ a, aborting _ _ a, λ k. aborting _ _ a, λ k. aborting _ _ a)
  where
    unreadable : getptr h' p ≡ abort
    unreadable = elim (alloc-cases malloc n type h b) [
      | inl (u, _) ↦ absurd (cc)
      | inr (inl (u, _, _)) ↦ absurd (cc)
      | inr (inr (inl (u, _))) ↦ absurd (cc)
      | inr (inr (inr (m, u, s, _, _))) ↦
          let q : p ≡ record { block = h.next; offset = 8 } = ground (arith, e, u) in
          let r : h'
              ≡ record { next = h.next + 1; chunks = update h.chunks h.next (some (fresh n m)) } =
            ground (arith, e, u) in
          rw (q, r) (getptr-fresh n m _ h.next (g (32 + n) m s) (update_self h.chunks h.next _))
    ]
