-- ===== src/Chunk/Tests.antt =====
-- Tests of the chunks: a block with two bytes of data behind eight bytes of empty space.
use nanomsg_copy.Prelude.{ℕ, ◌≡◌, refl, Option, none, some, abort, arith, update}
use nanomsg_copy.Prelude.Int.{pos}
use nanomsg_copy.Chunk.{Chunk, Ptr, Heap, fresh, with_header, free, size, trim, realloc}
use nanomsg_copy.Chunk.Fresh.{alloc-unusable, alloc-some}

abbrev block_of : ℕ → Chunk
block_of n = record { refcount = n; size = 2; limit = 18; bytes = with_header (λ i. 7) 16 }

abbrev memory : ℕ → Heap
memory n = record { next = 1; chunks = update (λ i. none) 0 (some (block_of n)) }

abbrev ptr : Ptr
ptr = record { block = 0; offset = 16 }

-- malloc that gives zeros.
abbrev zeros : ℕ → Option (ℕ → ℕ)
zeros n = some (λ i. 0)

abbrev with_fresh : Heap
with_fresh = record { next = 2; chunks = update (memory 1).chunks 1 (some (fresh 40 (λ i. 0))) }

abbrev fresh_ptr : Ptr
fresh_ptr = record { block = 1; offset = 8 }

alloc-unusable_example :
    (free fresh_ptr with_fresh ≡ abort)
    × (size fresh_ptr with_fresh ≡ abort)
    × ((k : ℕ) → trim fresh_ptr k with_fresh ≡ abort)
    × ((k : ℕ) → realloc zeros k fresh_ptr with_fresh ≡ abort)
alloc-unusable_example =
    alloc-unusable zeros 40 (pos 0) (memory 1) with_fresh fresh_ptr (λ n m e i. ground (arith, e))
      (omega arith) (alloc-some zeros 40 (memory 1) (omega arith) (λ i. 0) refl)
