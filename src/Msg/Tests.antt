-- ===== src/Msg/Tests.antt =====
-- Tests of messages: a body of two bytes in the object itself, and one of 40 bytes in a chunk.
use nanomsg_copy.Prelude.{
  ℕ, ◌+◌, ◌<◌, ◌≤◌, ◌^◌, ◌≡◌, ◌⊎◌, ◌∷◌, [], Option, none, some, returned, abort, arith,
}
use nanomsg_copy.Chunk.{Heap}
use nanomsg_copy.Chunkref.{inline}
use nanomsg_copy.Msg.{Msg, init, term}
use nanomsg_copy.Msg.Ends.{term-init}

abbrev no_blocks : Heap
no_blocks = record { next = 0; chunks = λ i. none }

-- malloc that gives zeros.
abbrev zeros : ℕ → Option (ℕ → ℕ)
zeros n = some (λ i. 0)

term-init_example :
    ((2 < 32)
      × (m : Msg) × (init zeros (λ i. 7) 2 no_blocks ≡ returned (m, no_blocks))
      × (m.body ≡ inline (7 ∷ 7 ∷ []))
      × (term m no_blocks ≡ returned no_blocks))
    ⊎ ((32 ≤ 2)
        × (init zeros (λ i. 7) 2 no_blocks ≡ abort)
        × ((zeros (32 + 2) ≡ none) ⊎ (2 ^ 64 ≤ 32 + 2)))
    ⊎ ((32 ≤ 2)
        × (m : Msg) × (h' : Heap) × (init zeros (λ i. 7) 2 no_blocks ≡ returned (m, h'))
        × (term m h' ≡ abort))
term-init_example =
    term-init zeros (λ i. 7) 2 no_blocks (λ n m e i. ground (arith, e)) (omega arith)
