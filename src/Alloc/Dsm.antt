-- ===== src/Alloc/Dsm.antt =====
-- `DSM::alloc` and `DSM::free` of include/DSM.h: a thread's allocator, and behind it the chunks that
-- src/Directory.cpp hands out on `RpcType::MALLOC`. With one memory node and one directory
-- (`MEMORY_NODE_NUM` and `NR_DIRECTORY` of include/Common.h) every request goes to the same pair.
use hybrid_heterogeneous_mem.Prelude.{
  ℕ, zero, suc, [], ◌+◌, ◌*◌, ◌%◌, ◌^◌, ◌<◌, ◌≤◌, ◌≡◌, refl, Bool, true, false, List, ◌∷◌, Option,
  none, some, if◌then◌else◌, arith, Bool-cases, Option-cases, inl, inr, ◌-◌, ◌/◌,
}
use mathlib.Core.Bool.{false≢true}
use hybrid_heterogeneous_mem.Common.{k_chunk_size, round_up}
use hybrid_heterogeneous_mem.Address.{GlobalAddress, eq_address, null}
use hybrid_heterogeneous_mem.Alloc.Global.{GlobalAllocator, chunk_address, alloc_chunck}
use hybrid_heterogeneous_mem.Alloc.Global.Rounds.{
  IsValid, next_index, next_node, alloc_chunck-IsValid,
}
use hybrid_heterogeneous_mem.Alloc.Local.{
  LocalAllocator, malloc, set_chunck, align_cur, cut, chunk_exhausted, first_fit,
}
use hybrid_heterogeneous_mem.Alloc.Local.Blocks.{Block, All, IsDisjoint, IsApart, taken}
use hybrid_heterogeneous_mem.Alloc.Local.Apart.{malloc-IsApart, set_chunck-IsApart}

-- `Directory::process_message` on a `MALLOC` message: the answer and the directory's new state.
unfoldable pub serve_malloc : GlobalAllocator → Option (GlobalAddress × GlobalAllocator)
serve_malloc dir = alloc_chunck dir

-- The retry is made once, and its `need_chunk` is not read.
unfoldable pub alloc :
    ℕ
    → Bool
    → LocalAllocator
    → GlobalAllocator
    → Option (GlobalAddress × LocalAllocator × GlobalAllocator)
unfolding serve_malloc
alloc size align thread dir =
    let (addr, need_chunk, thread') = malloc size align thread in
    if need_chunk
    then elim (serve_malloc dir) [
      | none ↦ none
      | some (chunk, dir') ↦
          let (addr', _, thread'') = malloc size align (set_chunck chunk thread') in
          some (addr', thread'', dir')
    ]
    else some (addr, thread', dir)

-- `alloc_nodes(node_num, addrs, align)`: pages of `allocationPageSize` bytes, one after the other.
unfoldable pub alloc_nodes :
    ℕ
    → Bool
    → LocalAllocator
    → GlobalAllocator
    → Option (List GlobalAddress × LocalAllocator × GlobalAllocator)
alloc_nodes zero align thread dir = some ([], thread, dir)
alloc_nodes (suc n) align thread dir = elim (alloc (8 + 8 + 256 * 8) align thread dir) [
  | none ↦ none
  | some (addr, thread', dir') ↦ elim (alloc_nodes n align thread' dir') [
    | none ↦ none
    | some (addrs, thread'', dir'') ↦ some (addr ∷ addrs, thread'', dir'')
  ]
]

fresh_room :
    (s : LocalAllocator) (chunk : GlobalAddress) (size : ℕ)
    → chunk.offset % 256 ≡ 0
    → 0 < chunk.offset
    → chunk.offset < 2 ^ 48
    → size ≤ k_chunk_size
    → chunk_exhausted size (align_cur true (set_chunck chunk s)) ≡ false
unfolding align_cur chunk_exhausted set_chunck round_up null eq_address
fresh_room s chunk size aligned pos small le =
    let e : (chunk.offset + 2 ^ 8 - 1) / 2 ^ 8 * 2 ^ 8 % 2 ^ 48 ≡ chunk.offset = omega arith in
    rw e (ground arith)

-- A fresh chunk that is aligned and not null has room for any block that is no larger than it.
malloc-set_chunck :
    (s : LocalAllocator) (chunk : GlobalAddress) (size : ℕ)
    → chunk.offset % 256 ≡ 0
    → 0 < chunk.offset
    → chunk.offset < 2 ^ 48
    → size ≤ k_chunk_size
    → (malloc size true (set_chunck chunk s)).1 ≡ false
unfolding malloc cut
malloc-set_chunck s chunk size aligned pos small le =
    rw (fresh_room s chunk size aligned pos small le)

-- A request for a chunk leaves the list of free blocks alone.
free_list-malloc :
    (s : LocalAllocator) (size : ℕ)
    → (malloc size true s).1 ≡ true
    → (malloc size true s).2.free_list ≡ s.free_list
unfolding malloc cut align_cur
free_list-malloc s size e = elim (Bool-cases (chunk_exhausted size (align_cur true s))) [
  | inr room ↦ absurd (false≢true (rw room at e))
  | inl full ↦ elim (Option-cases (first_fit size s.free_list)) [
    | inl nothing ↦ rw (full, nothing)
    | inr (p, found) ↦ absurd (false≢true (rw (full, found) at e))
  ]
]

pub record Allocated (thread : LocalAllocator) (dir : GlobalAllocator) (live : List Block)
    (size : ℕ) (r : GlobalAddress × LocalAllocator × GlobalAllocator) : Type 0 where
  pub start : r.0.offset % 256 ≡ 0
  pub apart : IsApart r.1 ((r.0, taken size) ∷ live)
  pub valid : IsValid r.2

chunk_bounds :
    (dir : GlobalAllocator) (node_id index : ℕ)
    → dir.start.offset % 256 ≡ 0
    → dir.start.offset + dir.bitmap_len * k_chunk_size < 2 ^ 48
    → 1 ≤ index
    → index < dir.bitmap_len
    → let chunk = chunk_address dir.start node_id index in
      (chunk.offset % 256 ≡ 0) × (0 < chunk.offset) × (chunk.offset + k_chunk_size < 2 ^ 48)
unfolding chunk_address
chunk_bounds dir node_id index aligned fits lo hi =
    let e : (dir.start.offset + index * k_chunk_size) % 2 ^ 48
        ≡ dir.start.offset + index * k_chunk_size =
      omega arith in
    rw e (omega arith)

-- A request for at most a chunk is always served, by an aligned block that overlaps no block in
-- use and no freed block, provided that the chunk which the directory would hand out next is
-- clear of them.
pub alloc-IsApart :
    (thread : LocalAllocator) (dir : GlobalAllocator) (live : List Block) (size : ℕ)
    → IsApart thread live
    → IsValid dir
    → size ≤ k_chunk_size
    → dir.start.offset % 256 ≡ 0
    → dir.start.offset + dir.bitmap_len * k_chunk_size < 2 ^ 48
    → (let chunk = chunk_address dir.start (next_node dir) (next_index dir) in
        All (IsDisjoint (chunk, k_chunk_size)) live
        × All (IsDisjoint (chunk, k_chunk_size)) thread.free_list)
    → (r : GlobalAddress × LocalAllocator × GlobalAllocator) × (alloc size true thread dir ≡ some r)
      × Allocated thread dir live size r
unfolding alloc
alloc-IsApart thread dir live size v w le aligned fits clear =
    let r = malloc size true thread in
    let (given, asked) = malloc-IsApart thread live size v in
    elim (Bool-cases r.1) [
      | inr got ↦
          let (a, v') = given got in (_, rw got refl, record { start = a; apart = v'; valid = w })
      | inl need ↦
          let (dir', run, w', lo, hi, _, _, _) = alloc_chunck-IsValid dir w in
          let chunk = chunk_address dir.start (next_node dir) (next_index dir) in
          let (aligned', pos, small) =
            chunk_bounds dir (next_node dir) (next_index dir) aligned fits lo hi in
          let fresh =
            set_chunck-IsApart r.2 live chunk (asked need) aligned' small clear.0
              (rw (free_list-malloc thread size need) clear.1) in
          let (a, v') =
            (malloc-IsApart (set_chunck chunk r.2) live size fresh).0
              (malloc-set_chunck r.2 chunk size aligned' pos (omega arith) le) in
          (_, rw (need, run) refl, record { start = a; apart = v'; valid = w' })
    ]
