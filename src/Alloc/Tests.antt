-- ===== src/Alloc/Tests.antt =====
-- The allocators at concrete values.
use hybrid_heterogeneous_mem.Prelude.{
  ℕ, zero, suc, ◌+◌, ◌%◌, ◌≤◌, ◌<◌, ◌≡◌, refl, [], ◌∷◌, inl, inr, true, false, some, arith, get_or,
}
use hybrid_heterogeneous_mem.Common.{k_chunk_size, round_up}
use mathlib.Core.List.{Memᴰ}
use hybrid_heterogeneous_mem.Address.{GlobalAddress}
use hybrid_heterogeneous_mem.Alloc.Global.{GlobalAllocator, chunk_address, alloc_chunck}
use hybrid_heterogeneous_mem.Alloc.Global.Rounds.{
  IsValid, next_index, next_node, alloc_chunck-IsValid,
}
use hybrid_heterogeneous_mem.Alloc.Global.Repeat.{chunks, Served, two_rounds}
use hybrid_heterogeneous_mem.Alloc.Local.{LocalAllocator, malloc, free}
use hybrid_heterogeneous_mem.Alloc.Local.Blocks.{Block, IsApart, taken}
use hybrid_heterogeneous_mem.Alloc.Local.Apart.{malloc-IsApart, free-IsApart}
use hybrid_heterogeneous_mem.Alloc.Dsm.{alloc, Allocated, alloc-IsApart}

abbrev base : GlobalAddress
base = record { node_id = 1; offset = 0 }

abbrev server : GlobalAllocator
server = record {
  start = base;
  bitmap = true ∷ false ∷ false ∷ [];
  bitmap_len = 3;
  bitmap_tail = 1;
}

server-unused : (i : ℕ) → 1 ≤ i → get_or server.bitmap i false ≡ false
server-unused zero le = absurd (omega arith)
server-unused (suc zero) le = refl
server-unused (suc (suc zero)) le = refl
server-unused (suc (suc (suc i))) le = refl

server-IsValid : IsValid server
server-IsValid = record {
  sized = refl;
  two_chunks = omega arith;
  tail_pos = omega arith;
  tail_le = omega arith;
  unused = server-unused;
}

abbrev far_server : GlobalAllocator
far_server = record server { start = record { node_id = 5; offset = 0 } }

far_server-IsValid : IsValid far_server
far_server-IsValid = record {
  sized = refl;
  two_chunks = omega arith;
  tail_pos = omega arith;
  tail_le = omega arith;
  unused = server-unused;
}

abbrev held : Block
held = (record { node_id = 1; offset = k_chunk_size }, 512)

abbrev thread : LocalAllocator
thread = record {
  head = record { node_id = 1; offset = k_chunk_size };
  cur = record { node_id = 1; offset = k_chunk_size + 512 };
  free_list = [];
}

thread-IsApart : IsApart thread (held ∷ [])
unfolding round_up
thread-IsApart = record {
  node = refl;
  aligned = refl;
  low = omega arith;
  high = omega arith;
  fits = omega arith;
  live_clear = (record { start = refl; size = refl; clear = inr (inl (omega arith)) }, tt);
  free_clear = tt;
  live_apart = (tt, tt);
  free_apart = tt;
  cross = (tt, tt);
}

alloc_chunck-IsValid_example :
    (s' : GlobalAllocator) × (alloc_chunck server
      ≡ some (chunk_address base (next_node server) (next_index server), s'))
    × IsValid s'
    × (1 ≤ next_index server)
    × (next_index server < 3)
    × (s'.bitmap_tail ≡ next_index server + 1)
    × (s'.bitmap_len ≡ 3)
    × (s'.start ≡ base)
alloc_chunck-IsValid_example = alloc_chunck-IsValid server server-IsValid

two_rounds_example :
    (first : Served server 2 (chunks base 1 1 2) 3) × Served first.last 2
      (chunk_address base 2 1 ∷ chunks base 1 2 1)
      3
two_rounds_example = two_rounds server 1 server-IsValid refl refl

malloc-IsApart_example :
    let r = malloc 300 true thread in
    (r.1 ≡ false → (r.0.offset % 256 ≡ 0) × IsApart r.2 ((r.0, taken 300) ∷ held ∷ []))
    × (r.1 ≡ true → IsApart r.2 (held ∷ []))
malloc-IsApart_example = malloc-IsApart thread (held ∷ []) 300 thread-IsApart

free-IsApart_example :
    IsApart (free held.0 512 thread) []
    × Memᴰ (held.0, 512) (free held.0 512 thread).free_list
    × ((b : Block) → Memᴰ b thread.free_list → Memᴰ b (free held.0 512 thread).free_list)
    × ((malloc 300 true (free held.0 512 thread)).1 ≡ false)
free-IsApart_example = free-IsApart thread [] held.0 512 300 thread-IsApart (omega arith)

alloc-IsApart_example :
    (r : GlobalAddress × LocalAllocator × GlobalAllocator) × (alloc 300 true thread far_server
      ≡ some r)
    × Allocated thread far_server (held ∷ []) 300 r
unfolding chunk_address
alloc-IsApart_example =
    alloc-IsApart thread far_server (held ∷ []) 300 thread-IsApart far_server-IsValid (omega arith)
      refl (omega arith) ((record { apart = inl (omega arith) }, tt), tt)
