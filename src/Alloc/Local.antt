-- ===== src/Alloc/Local.antt =====
-- include/LocalAllocator.h: a thread cuts blocks off its chunk, and reuses blocks that were freed.
pub mod Blocks
pub mod Apart
use hybrid_heterogeneous_mem.Prelude.{
  ℕ, ◌+◌, ◌%◌, ◌^◌, ◌<◌, ◌≤◌, Bool, true, false, ◌||◌, List, [], ◌∷◌, ◌++◌, Option, none, some, leb,
  ltb, if◌then◌else◌,
}
use hybrid_heterogeneous_mem.Common.{k_chunk_size, alloc_allign_bit, round_up}
use hybrid_heterogeneous_mem.Address.{GlobalAddress, eq_address, null}

pub record LocalAllocator : Type 0 where
  pub head : GlobalAddress
  pub cur : GlobalAddress
  pub free_list : List (GlobalAddress × ℕ)

unfoldable pub new : LocalAllocator
unfolding null
new = record { head = null; cur = null; free_list = [] }

-- The loop over `free_list`: the first block that is large enough, and the list without it.
unfoldable pub first_fit :
    ℕ → List (GlobalAddress × ℕ) → Option (GlobalAddress × List (GlobalAddress × ℕ))
first_fit size [] = none
first_fit size (b ∷ bs) =
    let rest = first_fit size bs in
    if leb size b.1
    then some (b.0, bs)
    else elim rest [ none ↦ none | some (a, bs') ↦ some (a, b ∷ bs') ]

-- `if (align) cur.offset = ROUND_UP(cur.offset, ALLOC_ALLIGN_BIT);`
unfoldable pub align_cur : Bool → LocalAllocator → LocalAllocator
unfolding round_up
align_cur true s = record s {
  cur = record s.cur { offset = round_up s.cur.offset alloc_allign_bit % 2 ^ 48 };
}
align_cur false s = s

-- The test for `need_chunck = true`.
unfoldable pub chunk_exhausted : ℕ → LocalAllocator → Bool
unfolding eq_address null
chunk_exhausted size s =
    eq_address s.head null || ltb (s.head.offset + k_chunk_size) (s.cur.offset + size)

-- The result, the output `need_chunck` and the new state, from the aligned state on.
unfoldable pub cut : ℕ → LocalAllocator → GlobalAddress × Bool × LocalAllocator
unfolding first_fit chunk_exhausted
cut size s =
    if chunk_exhausted size s
    then elim (first_fit size s.free_list) [
      | none ↦ (s.cur, true, s)
      | some (a, bs) ↦ (a, false, record s { free_list = bs })
    ]
    else (s.cur, false, record s { cur = record s.cur { offset = (s.cur.offset + size) % 2 ^ 48 } })

unfoldable pub malloc : ℕ → Bool → LocalAllocator → GlobalAddress × Bool × LocalAllocator
unfolding align_cur cut
malloc size align s = cut size (align_cur align s)

unfoldable pub set_chunck : GlobalAddress → LocalAllocator → LocalAllocator
set_chunck addr s = record s { head = addr; cur = addr }

unfoldable pub free : GlobalAddress → ℕ → LocalAllocator → LocalAllocator
free addr size s = record s { free_list = s.free_list ++ (addr, size) ∷ [] }
