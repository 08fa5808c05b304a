-- ===== src/Chunk.antt =====
-- src/utils/chunk.c and chunk.h, with nn_atomic_init and nn_atomic_dec of src/utils/atomic.c: reference-counted
-- blocks of memory. A block is what nn_alloc returns; a pointer is a block and an offset in it, counted from the
-- end of struct nn_chunk, so that the first data byte of a new chunk is at 8. malloc is a parameter: it fails or
-- gives the bytes the new block happens to hold.
pub mod Header
pub mod Fresh
mod Tests
use nanomsg_copy.Prelude.{
  ℕ, ◌+◌, ◌-◌, ◌*◌, ◌%◌, ◌^◌, Bool, true, false, ◌&&◌, ◌||◌, Option, none, some, List, [], ◌∷◌,
  get_or, update, Errno, einval, enomem, Rc, success, failure, Outcome, returned, undefined, ◌>>=◌,
  ◌>>◌, assert, if◌then◌else◌, ◌==◌, ltb, leb,
}
use nanomsg_copy.Prelude.Int.{ℤ, pos, negsuc}
use nanomsg_copy.Wire.{getl, putl}

-- NN_CHUNK_TAG
abbrev pub chunk_tag : ℕ
chunk_tag = 0xdeadcafe

-- struct nn_chunk, with the bytes that follow it in the block and their number. The member ffn is always
-- nn_chunk_default_free.
pub record Chunk : Type 0 where
  pub refcount : ℕ
  pub size : ℕ
  pub limit : ℕ
  pub bytes : ℕ → ℕ

pub record Ptr : Type 0 where
  pub block : ℕ
  pub offset : ℕ

-- The blocks that are allocated, and the number of the next one.
pub record Heap : Type 0 where
  pub next : ℕ
  pub chunks : ℕ → Option Chunk

abbrev pub write : Heap → ℕ → Option Chunk → Heap
write h b c = record h { chunks = update h.chunks b c }

-- nn_getl and nn_putl on the four bytes from i on.
abbrev pub four : (ℕ → ℕ) → ℕ → List ℕ
four m i = m i ∷ m (i + 1) ∷ m (i + 2) ∷ m (i + 3) ∷ []

pub load : (ℕ → ℕ) → ℕ → ℕ
load m i = getl (four m i)

pub store : (ℕ → ℕ) → ℕ → ℕ → ℕ → ℕ
store m i v j = if leb i j && ltb j (i + 4) then get_or (putl (four m i) v) (j - i) 0 else m j

-- sizeof (struct nn_chunk): a 32-bit count, a size and a pointer. nn_chunk_hdrsize.
abbrev pub hdrsize : ℕ
hdrsize = 24 + 2 * 4

-- nn_chunk_getptr: the chunk, for a pointer with the header in front of it. The two words are read inside the
-- block, and the result points to the start of the block only for the right second word.
unfoldable pub getptr : Heap → Ptr → Outcome Chunk
getptr h p = elim (h.chunks p.block) [
  | none ↦ undefined
  | some c ↦ if ltb p.offset 8 || ltb c.limit p.offset then undefined else do
    assert (load c.bytes (p.offset - 4) == chunk_tag)
    (if load c.bytes (p.offset - 8) == p.offset - 8 then returned c else undefined)
]

-- What nn_chunk_alloc returns, with the pointer in *result.
pub data Allocation : Type 0 where
  refused : Errno → Allocation
  allocated : Ptr → Heap → Allocation

abbrev is_zero : ℤ → Bool
is_zero (pos n) = n == 0
is_zero (negsuc n) = false

-- The second nn_putl is given the byte after the address of the first.
abbrev pub fresh : ℕ → (ℕ → ℕ) → Chunk
fresh size memory = record {
  refcount = 1;
  size = size;
  limit = 8 + size;
  bytes = store (store memory 0 0) 1 chunk_tag;
}

module _ (malloc : ℕ → Option (ℕ → ℕ)) where
  pub alloc : ℕ → ℤ → Heap → Allocation
  alloc size type h =
      let sz = (hdrsize + size) % 2 ^ 64 in
      if ltb sz hdrsize
      then refused enomem
      else if is_zero type
      then elim (malloc sz) [
        | none ↦ refused enomem
        | some memory ↦
            allocated (record { block = h.next; offset = 8 })
              (record {
                next = h.next + 1;
                chunks = update h.chunks h.next (some (fresh size memory));
              })
      ]
      else refused einval

-- nn_chunk_free: nn_atomic_dec gives the old count. The tag that it writes is in a block that is gone in the
-- next step.
pub free : Ptr → Heap → Outcome Heap
free p h = do
  c ← getptr h p
  returned (
      if leb c.refcount 1
      then write h p.block none
      else write h p.block (some (record c { refcount = (c.refcount + 2 ^ 32 - 1) % 2 ^ 32 })))

pub size : Ptr → Heap → Outcome ℕ
size p h = do c ← getptr h p; returned c.size

-- The header of a pointer at offset o: the tag in front of it, and in front of that the empty space.
abbrev pub with_header : (ℕ → ℕ) → ℕ → ℕ → ℕ
with_header m o = store (store m (o - 4) chunk_tag) (o - 8) (o - 8)

pub trim : Ptr → ℕ → Heap → Outcome (Ptr × Heap)
trim p n h = do
  c ← getptr h p
  assert (leb n c.size)
  let o = p.offset + n in
      if ltb c.limit o then undefined else do
        assert (ltb (o - 8) (2 ^ 32 - 1))
        returned (
          record p { offset = o },
          write h p.block (some (record c { size = c.size - n; bytes = with_header c.bytes o })),
        )

-- memmove and memcpy: count bytes from position src are put at position dst.
abbrev pub moved : (ℕ → ℕ) → ℕ → (ℕ → ℕ) → ℕ → ℕ → ℕ → ℕ
moved into dst from src count j =
    if leb dst j && ltb j (dst + count) then from (src + (j - dst)) else into j

-- The branch of nn_chunk_realloc that uses the empty space: *chunk stays as it was.
abbrev pub grown : ℕ → ℕ → Chunk → Chunk
grown o size c =
    let new_ptr = o - (size - c.size) in
    record c { size = size; bytes = with_header (moved c.bytes new_ptr c.bytes o c.size) new_ptr }

-- memcpy from nn_chunk_getdata to a new block, which has room for as many bytes as its size.
abbrev pub copied : Chunk → Ptr → Heap → Outcome Heap
copied c q h = elim (h.chunks q.block) [
  | none ↦ undefined
  | some d ↦
      if ltb d.size c.size
      then undefined
      else returned
          (write h q.block (some (record d { bytes = moved d.bytes q.offset c.bytes 8 c.size })))
]

module _ (malloc : ℕ → Option (ℕ → ℕ)) where
  -- The end of nn_chunk_realloc: the data go to a new chunk.
  pub replace : ℕ → Chunk → Ptr → Heap → Outcome (Rc × Ptr × Heap)
  replace size c p h = elim (alloc malloc size (pos 0) h) [
    | refused e ↦ returned (failure e, p, h)
    | allocated q h' ↦ do h2 ← copied c q h'; h3 ← free p h2; returned (success, q, h3)
  ]

  -- The branch of the only reference.
  pub resize : ℕ → Chunk → Ptr → Heap → Outcome (Rc × Ptr × Heap)
  resize size c p h =
      if leb size c.size
      then returned (success, p, write h p.block (some (record c { size = size })))
      else if ltb ((hdrsize + size) % 2 ^ 64) size
      then returned (failure enomem, p, h)
      else if leb (size - c.size) (p.offset - 8)
      then returned (success, p, write h p.block (some (grown p.offset size c)))
      else replace size c p h

  pub realloc : ℕ → Ptr → Heap → Outcome (Rc × Ptr × Heap)
  realloc size p h = do
    c ← getptr h p
    (if c.refcount == 1 then resize size c p h else replace size c p h)
