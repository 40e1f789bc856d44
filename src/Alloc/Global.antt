-- ===== src/Alloc/Global.antt =====
-- include/GlobalAllocator.h: a memory node hands out its chunks of 16 MB.
pub mod Rounds
pub mod Repeat
use hybrid_heterogeneous_mem.Prelude.{
  ℕ, zero, suc, ◌+◌, ◌-◌, ◌*◌, ◌/◌, ◌%◌, ◌^◌, ◌<◌, Bool, true, false, List, [], ◌∷◌, Option, none,
  some, get_elem?, set, replicate, length, leb, ltb, if◌then◌else◌,
}
use hybrid_heterogeneous_mem.Common.{k_chunk_size}
use hybrid_heterogeneous_mem.Address.{GlobalAddress}

pub record GlobalAllocator : Type 0 where
  pub start : GlobalAddress
  pub bitmap : List Bool
  pub bitmap_len : ℕ
  pub bitmap_tail : ℕ

-- The constructor; `none` if the array is empty, where `bitmap[0]` is out of bounds.
unfoldable pub new : GlobalAddress → ℕ → Option GlobalAllocator
new start size =
    let bitmap_len = size / k_chunk_size in
    if ltb 0 bitmap_len
    then some (record {
      start = start;
      bitmap = set (replicate bitmap_len false) 0 true;
      bitmap_len = bitmap_len;
      bitmap_tail = 1;
    })
    else none

-- The address of a chunk, in the node that the caller names: the offset is cut to its field.
unfoldable pub chunk_address : GlobalAddress → ℕ → ℕ → GlobalAddress
chunk_address start node_id index = record {
  node_id = node_id;
  offset = (start.offset + index * k_chunk_size) % 2 ^ 48;
}

-- `if (bitmap_tail >= bitmap_len) { … }`: start over, and name node 2.
unfoldable pub start_over : GlobalAllocator → ℕ × GlobalAllocator
start_over s =
    if leb s.bitmap_len s.bitmap_tail
    then (2, record s { bitmap = set (replicate s.bitmap_len false) 0 true; bitmap_tail = 1 })
    else (s.start.node_id, s)

-- `none` if `bitmap[bitmap_tail]` is out of bounds. A chunk that is taken is not skipped: the start
-- address is returned and nothing changes.
unfoldable pub take_tail : ℕ → GlobalAllocator → Option (GlobalAddress × GlobalAllocator)
unfolding chunk_address
take_tail node_id s = elim (get_elem? s.bitmap s.bitmap_tail) [
  | none ↦ none
  | some true ↦ some (record s.start { node_id = node_id }, s)
  | some false ↦ some (
    chunk_address s.start node_id s.bitmap_tail,
    record s { bitmap = set s.bitmap s.bitmap_tail true; bitmap_tail = s.bitmap_tail + 1 },
  )
]

unfoldable pub alloc_chunck : GlobalAllocator → Option (GlobalAddress × GlobalAllocator)
unfolding start_over take_tail
alloc_chunck s = let (node_id, s') = start_over s in take_tail node_id s'

-- `none` if the index is out of bounds; an address below the start wraps to an index far above.
unfoldable pub free_chunk : GlobalAddress → GlobalAllocator → Option GlobalAllocator
free_chunk addr s =
    let index = (addr.offset + 2 ^ 64 - s.start.offset) % 2 ^ 64 / k_chunk_size in
    if ltb index (length s.bitmap)
    then some (record s { bitmap = set s.bitmap index false })
    else none
