-- ===== src/Alloc/Global/Rounds.antt =====
-- Which chunks the allocator hands out, one round over the bitmap after another.
use hybrid_heterogeneous_mem.Prelude.{
  ℕ, ◌+◌, ◌-◌, ◌*◌, ◌/◌, ◌%◌, ◌^◌, ◌<◌, ◌≤◌, ◌≡◌, refl, ◌∙◌, true, false, [], some, get_or, set,
  replicate, length, length-set, length-replicate, get_or-set_at, get_or-set_ne, get_or-replicate,
  get_elem?-get_or, leb, if◌then◌else◌, arith, inl, inr, Bool-cases, lt→ltb, ℕ_discrete,
}
use hybrid_heterogeneous_mem.Common.{k_chunk_size}
use hybrid_heterogeneous_mem.Address.{GlobalAddress}
use hybrid_heterogeneous_mem.Alloc.Global.{
  GlobalAllocator, new, chunk_address, take_tail, alloc_chunck, free_chunk,
}

-- At least one chunk beside the null chunk, and no chunk from the tail on is taken.
pub record IsValid (s : GlobalAllocator) : Type 0 where
  pub sized : length s.bitmap ≡ s.bitmap_len
  pub two_chunks : 2 ≤ s.bitmap_len
  pub tail_pos : 1 ≤ s.bitmap_tail
  pub tail_le : s.bitmap_tail ≤ s.bitmap_len
  pub unused : (i : ℕ) → s.bitmap_tail ≤ i → get_or s.bitmap i false ≡ false

unused-fresh : (n i : ℕ) → 1 ≤ i → get_or (set (replicate n false) 0 true) i false ≡ false
unused-fresh n i pos =
    get_or-set_ne (replicate n false) 0 i true false (λ e. absurd (omega arith))
    ∙ get_or-replicate n i false

fresh : GlobalAllocator → GlobalAllocator
fresh s = record s { bitmap = set (replicate s.bitmap_len false) 0 true; bitmap_tail = 1 }

fresh-IsValid : (s : GlobalAllocator) → 2 ≤ s.bitmap_len → IsValid (fresh s)
unfolding fresh
fresh-IsValid s two = record {
  sized = length-set (replicate s.bitmap_len false) 0 true ∙ length-replicate s.bitmap_len false;
  two_chunks = two;
  tail_pos = omega arith;
  tail_le = omega arith;
  unused = unused-fresh s.bitmap_len;
}

-- The constructor succeeds where the memory has two chunks, and gives a valid allocator.
pub new-IsValid :
    (start : GlobalAddress) (size : ℕ)
    → 2 * k_chunk_size ≤ size
    → (s : GlobalAllocator) × (new start size ≡ some s)
      × IsValid s
      × (s.start ≡ start)
      × (s.bitmap_tail ≡ 1)
      × (s.bitmap_len ≡ size / k_chunk_size)
unfolding new fresh
new-IsValid start size big =
    let n = size / k_chunk_size in
    let s : GlobalAllocator = record {
      start = start;
      bitmap = [];
      bitmap_len = n;
      bitmap_tail = 1;
    } in
    (fresh s, rw (lt→ltb 0 n (omega arith)), fresh-IsValid s (omega arith), refl, refl, refl)

-- The tail of a valid allocator, where it is not at the end, is free.
take_tail-IsValid :
    (s : GlobalAllocator) (node_id : ℕ)
    → IsValid s
    → s.bitmap_tail < s.bitmap_len
    → let s' = record s {
      bitmap = set s.bitmap s.bitmap_tail true;
      bitmap_tail = s.bitmap_tail + 1;
    } in
      (take_tail node_id s ≡ some (chunk_address s.start node_id s.bitmap_tail, s')) × IsValid s'
unfolding take_tail
take_tail-IsValid s node_id v lt = (
  rw (
    get_elem?-get_or s.bitmap s.bitmap_tail false (omega (arith, v.sized)),
    v.unused s.bitmap_tail (omega arith),
    take_tail,
  ),
  record {
    sized = length-set s.bitmap s.bitmap_tail true ∙ v.sized;
    two_chunks = v.two_chunks;
    tail_pos = omega arith;
    tail_le = omega arith;
    unused = λ i le.
        get_or-set_ne s.bitmap s.bitmap_tail i true false (λ e. absurd (omega arith))
        ∙ v.unused i (omega arith);
  },
)

-- The chunk and the node of the next allocation.
abbrev pub next_index : GlobalAllocator → ℕ
next_index s = if leb s.bitmap_len s.bitmap_tail then 1 else s.bitmap_tail

abbrev pub next_node : GlobalAllocator → ℕ
next_node s = if leb s.bitmap_len s.bitmap_tail then 2 else s.start.node_id

-- A valid allocator always hands out a chunk, never the null chunk: the one at the tail, or the
-- first one under node 2 once the tail is at the end. It stays valid, and its tail is behind the
-- chunk.
pub alloc_chunck-IsValid :
    (s : GlobalAllocator)
    → IsValid s
    → (s' : GlobalAllocator) × (alloc_chunck s
        ≡ some (chunk_address s.start (next_node s) (next_index s), s'))
      × IsValid s'
      × (1 ≤ next_index s)
      × (next_index s < s.bitmap_len)
      × (s'.bitmap_tail ≡ next_index s + 1)
      × (s'.bitmap_len ≡ s.bitmap_len)
      × (s'.start ≡ s.start)
unfolding alloc_chunck fresh
alloc_chunck-IsValid s v = elim (Bool-cases (leb s.bitmap_len s.bitmap_tail)) [
  | inl end ↦
      let (run, v') =
        take_tail-IsValid (fresh s) 2 (fresh-IsValid s v.two_chunks)
          (omega (arith, v.two_chunks)) in
      (
        _,
        rw end run,
        v',
        rw end (omega arith),
        rw end (omega (arith, v.two_chunks)),
        rw end refl,
        refl,
        refl,
      )
  | inr on ↦
      let (run, v') = take_tail-IsValid s s.start.node_id v (ground arith) in
      (_, rw on run, v', rw on v.tail_pos, rw on (ground arith), rw on refl, refl, refl)
]

-- Freeing a chunk that was handed out keeps the allocator valid, and does not change what it
-- hands out next.
pub free_chunk-IsValid :
    (s : GlobalAllocator) (node_id index : ℕ)
    → IsValid s
    → index < s.bitmap_len
    → s.start.offset + s.bitmap_len * k_chunk_size < 2 ^ 48
    → (s' : GlobalAllocator) × (free_chunk (chunk_address s.start node_id index) s ≡ some s')
      × IsValid s'
      × (next_index s' ≡ next_index s)
      × (next_node s' ≡ next_node s)
unfolding free_chunk chunk_address
free_chunk-IsValid s node_id index v lt fits =
    let i = (s.start.offset + index * k_chunk_size) % 2 ^ 48 + 2 ^ 64 - s.start.offset in
    let e : i % 2 ^ 64 / k_chunk_size ≡ index = omega arith in
    (
      record s { bitmap = set s.bitmap index false },
      rw (e, lt→ltb index (length s.bitmap) (omega (arith, v.sized))),
      record {
        sized = length-set s.bitmap index false ∙ v.sized;
        two_chunks = v.two_chunks;
        tail_pos = v.tail_pos;
        tail_le = v.tail_le;
        unused = λ j le. elim (ℕ_discrete index j) [
          | yes same ↦
              get_or-set_at s.bitmap index j false false same (omega (arith, same, lt, v.sized))
          | no other ↦ get_or-set_ne s.bitmap index j false false other ∙ v.unused j le
        ];
      },
      refl,
      refl,
    )
