-- ===== src/Chunkref.antt =====
-- src/utils/chunkref.c and chunkref.h: data held in 32 bytes of the object itself or in a chunk. nn_chunk_addref
-- is declared in chunk.h and has no definition in the repository, so it is a parameter, as malloc is.
use nanomsg_copy.Prelude.{
  ℕ, zero, suc, ◌+◌, ◌-◌, ◌%◌, ◌==◌, Option, none, some, List, [], ◌∷◌, get_or, drop, length,
  Outcome, returned, abort, undefined, ◌>>=◌, ◌>>◌, assert, if◌then◌else◌, ltb, leb,
}
use nanomsg_copy.Prelude.Int.{pos}
use nanomsg_copy.Chunk.{Chunk, Ptr, Heap, write, Allocation, refused, allocated, alloc, free, moved}
use nanomsg_copy.Chunk as Blocks

-- struct nn_chunkref: with ref[0] below 32 it is the number of the bytes that follow; with ref[0] 0xff it is a
-- struct nn_chunkref_chunk. nn_chunkref_size writes another number over that 0xff: an object with the number
-- n in ref[0] and behind it either the pointer, eight bytes from the start, or bytes that are none.
pub data Chunkref : Type 0 where
  inline : List ℕ → Chunkref
  outline : Ptr → Chunkref
  overwritten : ℕ → Option Ptr → Chunkref

-- NN_CHUNKREF_MAX
abbrev pub chunkref_max : ℕ
chunkref_max = 32

-- The first n bytes of a memory.
abbrev pub bytes_of : (ℕ → ℕ) → ℕ → List ℕ
bytes_of memory zero = []
bytes_of memory (suc n) = memory 0 ∷ bytes_of (λ i. memory (i + 1)) n

-- errno_assert (rc == 0) after nn_chunk_alloc.
abbrev pub expect : Allocation → Outcome (Ptr × Heap)
expect (refused e) = abort
expect (allocated p h) = returned (p, h)

-- memcpy of a list of bytes to the data of a chunk.
abbrev fill : List ℕ → Ptr → Heap → Outcome Heap
fill xs p h = elim (h.chunks p.block) [
  | none ↦ undefined
  | some c ↦ returned (
      write h p.block
        (some (record c { bytes = moved c.bytes p.offset (λ i. get_or xs i 0) 0 (length xs) })))
]

module _ (malloc : ℕ → Option (ℕ → ℕ)) where
  -- The bytes of an object that is not initialised are given.
  unfoldable pub init : (ℕ → ℕ) → ℕ → Heap → Outcome (Chunkref × Heap)
  init memory size h =
      if ltb size chunkref_max
      then returned (inline (bytes_of memory size), h)
      else do (p, h') ← expect (alloc malloc size (pos 0) h); returned (outline p, h')

  -- The object's bytes in a new chunk, and the object after it.
  inner : List ℕ → Heap → Outcome (Ptr × Chunkref × Heap)
  inner xs h = do
    (p, h') ← expect (alloc malloc (length xs) (pos 0) h)
    h2 ← fill xs p h'
    returned (p, inline [], h2)

  -- The chunk, the object after the call and the heap. `behind` gives the bytes of an overwritten object behind
  -- ref[0], those of its pointer among them.
  pub getchunk : (Option Ptr → ℕ → ℕ) → Chunkref → Heap → Outcome (Ptr × Chunkref × Heap)
  getchunk behind (outline p) h = returned (p, outline p, h)
  getchunk behind (inline xs) h = inner xs h
  getchunk behind (overwritten n q) h =
      if ltb n chunkref_max then inner (bytes_of (behind q) n) h else undefined

pub init_chunk : Ptr → Chunkref
init_chunk p = outline p

unfoldable pub term : Chunkref → Heap → Outcome Heap
term (outline p) h = free p h
term _ h = returned h

-- The new value of *dst; *src stays as it is. Of an overwritten object ref[0] and as many bytes as it says are
-- copied: too few for the pointer, or more than there are.
pub mv : Chunkref → Chunkref → Outcome Chunkref
mv dst (overwritten n q) =
    if ltb n 15
    then returned (overwritten n none)
    else if ltb n chunkref_max
    then returned (overwritten n q)
    else undefined
mv dst src = returned src

module _ (addref : Ptr → ℕ → Heap → Outcome Heap) where
  pub cp : Chunkref → Chunkref → Heap → Outcome (Chunkref × Heap)
  cp dst (outline p) h = do h' ← addref p 1 h; returned (outline p, h')
  cp dst src h = returned (src, h)

  pub bulkcopy_start : Chunkref → ℕ → Heap → Outcome Heap
  bulkcopy_start (outline p) copies h = addref p copies h
  bulkcopy_start _ copies h = returned h

pub bulkcopy_cp : Chunkref → Chunkref → Chunkref
bulkcopy_cp dst src = src

-- An object of which ref[0] is given a value, in front of a pointer.
abbrev tagged : ℕ → Ptr → Chunkref
tagged n p = if n == 255 then outline p else overwritten n (some p)

abbrev measured : Ptr → Heap → Outcome (ℕ × Chunkref)
measured p h = do n ← Blocks.size p h; returned (n % 256, tagged (n % 256) p)

-- The result and the object after the call. The expression assigns to ref[0] the value of a conditional
-- expression on 0xff, which is nn_chunk_size of the pointer behind ref[0], and gives the byte that is assigned.
-- The bytes of an inline object are no pointer.
unfoldable pub size : Chunkref → Heap → Outcome (ℕ × Chunkref)
size (outline p) h = measured p h
size (overwritten n (some p)) h = measured p h
size (overwritten n none) h = undefined
size (inline xs) h = undefined

-- An overwritten object whose bytes are moved loses its pointer.
pub trim : Chunkref → ℕ → Heap → Outcome (Chunkref × Heap)
trim (outline p) n h = do (q, h') ← Blocks.trim p n h; returned (outline q, h')
trim (inline xs) n h = do assert (leb n (length xs)); returned (inline (drop n xs), h)
trim (overwritten k q) n h = do
  assert (leb n k)
  (if ltb k chunkref_max
      then returned (overwritten (k - n) (if n == 0 then q else none), h)
      else undefined)
