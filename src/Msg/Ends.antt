-- ===== src/Msg/Ends.antt =====
-- src/utils/msg.c: a message from nn_msg_init to nn_msg_term.
use nanomsg_copy.Prelude.{
  ℕ, ◌<◌, ◌≤◌, ◌≡◌, ◌^◌, ◌+◌, none, refl, ◌∙◌, ◌⊎◌, inl, inr, List, Option, [], returned, abort,
  undefined, ◌>>=◌, arith,
}
use nanomsg_copy.Prelude.Int.{pos}
use native.Mathlib.Decide.{dec_le}
use nanomsg_copy.Chunk.{Ptr, Heap, refused, allocated, alloc, free}
use nanomsg_copy.Chunk.Fresh.{GivesBytes, alloc-unusable, alloc-cases}
use nanomsg_copy.Chunkref.{Chunkref, inline, outline, bytes_of, chunkref_max, expect}
use nanomsg_copy.Chunkref as Ref
use nanomsg_copy.Msg.{Msg, init, init_chunk, term, sizes}

pub sizes-inline : (m : Msg) (h : Heap) {xs : List ℕ} → m.sphdr ≡ inline xs → sizes h m ≡ undefined
unfolding sizes Ref.size
sizes-inline m h e = rw e refl

-- A message with no headers.
abbrev with_body : Chunkref → Msg
with_body b = record { sphdr = inline []; hdrs = inline []; body = b }

module _ (malloc : ℕ → Option (ℕ → ℕ)) (memory : ℕ → ℕ) (h : Heap) where
  init-inline :
      (n : ℕ)
      → n < chunkref_max
      → Ref.init malloc memory n h ≡ returned (inline (bytes_of memory n), h)
  unfolding Ref.init
  init-inline n l = ground arith

  init-outline :
      (n : ℕ)
      → chunkref_max ≤ n
      → Ref.init malloc memory n h
        ≡ (expect (alloc malloc n (pos 0) h) >>= λ (p, h'). returned (outline p, h'))
  unfolding Ref.init
  init-outline n l = ground arith

  init-body :
      (n : ℕ)
      → init malloc memory n h
        ≡ (Ref.init malloc memory n h >>= λ (b, h'). returned (with_body b, h'))
  unfolding init
  init-body n = let e = init-inline 0 (omega arith) in rw (e, e) refl

  -- The protocol header of a new message is in the object itself.
  pub init-sphdr :
      (n : ℕ) {m : Msg} {h' : Heap}
      → init malloc memory n h ≡ returned (m, h')
      → m.sphdr ≡ inline []
  init-sphdr n e = ground (arith, e, init-body n)

  pub init_chunk-sphdr :
      (p : Ptr) {m : Msg} {h' : Heap}
      → init_chunk malloc memory p h ≡ returned (m, h')
      → m.sphdr ≡ inline []
  unfolding init_chunk
  init_chunk-sphdr p e = ground (arith, e, init-inline 0 (omega arith))

  init-refused :
      (n : ℕ) {e : _}
      → chunkref_max ≤ n
      → alloc malloc n (pos 0) h ≡ refused e
      → init malloc memory n h ≡ abort
  init-refused n l k = init-body n ∙ rw (init-outline n l, k) refl

  init-allocated :
      (n : ℕ) {p : Ptr} {h' : Heap}
      → chunkref_max ≤ n
      → alloc malloc n (pos 0) h ≡ allocated p h'
      → init malloc memory n h ≡ returned (with_body (outline p), h')
  init-allocated n l k = init-body n ∙ rw (init-outline n l, k) refl

  term-outline : (p : Ptr) (h' : Heap) → term (with_body (outline p)) h' ≡ free p h'
  unfolding term Ref.term
  term-outline p h' = refl

  -- A message with a body in a chunk.
  init_large :
      (n : ℕ)
      → GivesBytes malloc
      → n < 2 ^ 64
      → chunkref_max ≤ n
      → ((init malloc memory n h ≡ abort) × ((malloc (32 + n) ≡ none) ⊎ (2 ^ 64 ≤ 32 + n)))
        ⊎ ((m : Msg) × (h' : Heap) × (init malloc memory n h ≡ returned (m, h'))
            × (term m h' ≡ abort))
  init_large n g b l = elim (alloc-cases malloc n (pos 0) h b) [
    | inl (u, o) ↦ inl (init-refused n l u, inr o)
    | inr (inl (u, _, d)) ↦ absurd (d refl)
    | inr (inr (inl (u, none_left))) ↦ inl (init-refused n l u, inl none_left)
    | inr (inr (inr (m, u, _, _, _))) ↦ inr (
      with_body (outline _),
      _,
      init-allocated n l u,
      term-outline _ _ ∙ (alloc-unusable malloc n (pos 0) h _ _ g b u).0,
    )
  ]

-- Where malloc gives bytes, a message that nn_msg_init makes with a body below 32 bytes holds the bytes of the
-- object itself, and nn_msg_term of it leaves the memory as it was before nn_msg_init. With a body of 32 bytes or
-- more, nn_msg_init fails its assertion where the size overflows or malloc fails, and otherwise nn_msg_term of
-- the message that it makes fails one.
pub term-init :
    (malloc : ℕ → Option (ℕ → ℕ)) (memory : ℕ → ℕ) (n : ℕ) (h : Heap)
    → GivesBytes malloc
    → n < 2 ^ 64
    → ((n < 32)
        × (m : Msg) × (init malloc memory n h ≡ returned (m, h))
        × (m.body ≡ inline (bytes_of memory n))
        × (term m h ≡ returned h))
      ⊎ ((32 ≤ n)
          × (init malloc memory n h ≡ abort)
          × ((malloc (32 + n) ≡ none) ⊎ (2 ^ 64 ≤ 32 + n)))
      ⊎ ((32 ≤ n)
          × (m : Msg) × (h' : Heap) × (init malloc memory n h ≡ returned (m, h'))
          × (term m h' ≡ abort))
unfolding term Ref.term
term-init malloc memory n h g b = elim (dec_le 32 n) [
  | yes l ↦ elim (init_large malloc memory h n g b l) [
    | inl (e, c) ↦ inr (inl (l, e, c))
    | inr (m, h', e, k) ↦ inr (inr (l, m, h', e, k))
  ]
  | no k ↦
      let l : n < 32 = omega arith in
      inl (
        l,
        with_body (inline (bytes_of memory n)),
        init-body malloc memory h n ∙ rw (init-inline malloc memory h n l) refl,
        refl,
        refl,
      )
]
