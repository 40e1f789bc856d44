-- ===== src/Tree/Client.antt =====
-- One client of src/Tree.cpp. Between any two of its remote operations the other clients may change the
-- memory: `env` says how, by the number of operations that the client has made. `fresh` are the addresses
-- that `DSM::alloc` and `DSM::alloc_nodes` give to it, and `lock_node` is the node of the lock table that
-- its key has. `stale` is what the bytes of a header in a page buffer hold before a header is made there.
use hybrid_heterogeneous_mem.Prelude.{
  ℕ, zero, suc, ◌+◌, ◌*◌, ◌%◌, ◌^◌, Bool, true, false, not, ◌&&◌, ◌||◌, Option, none, some, List,
  ◌==◌, if◌then◌else◌, get_or, ltb,
}
use hybrid_heterogeneous_mem.Address.{GlobalAddress, gadd, eq_address}
use hybrid_heterogeneous_mem.Address
use hybrid_heterogeneous_mem.Key.{Key}
use hybrid_heterogeneous_mem.LockTable.Slot.{LocalLockNode}
use hybrid_heterogeneous_mem.LockTable.Write.{get_combining_value}
use hybrid_heterogeneous_mem.Node.Types.{NodeType, node_type_to_num}
use hybrid_heterogeneous_mem.Node.Entry.{InternalEntry, eq_entry, addr_of, type_of, leaf_entry}
use hybrid_heterogeneous_mem.Node.Entry
use hybrid_heterogeneous_mem.Node.Page.{InternalPage, is_valid_page}
use hybrid_heterogeneous_mem.Leaf.{Leaf, make_leaf, is_valid, is_consistent}
use hybrid_heterogeneous_mem.Tree.Memory.{
  Place, place_addr, Memory, entry_at, put_leaf, overlay, swap_entry, swap_rev_ptr,
}

-- `p.node_type = t`, which leaves the two bits of `empty`.
unfoldable pub set_type : NodeType → InternalEntry → InternalEntry
set_type t p = record p { kv_len = p.kv_len % 2 ^ 2 + t % 2 ^ 5 * 2 ^ 2 }

-- The remote memory, and the numbers of operations and of allocations that the client has made.
pub record World : Type 0 where
  pub memory : Memory
  pub clock : ℕ
  pub allocated : ℕ

-- What the client stands in.
pub record Setting : Type 0 where
  pub env : ℕ → Memory → Memory
  pub fresh : ℕ → GlobalAddress
  pub lock_node : ℕ → LocalLockNode
  pub crc : Key → ℕ → ℕ
  pub stale : ℕ → List ℕ
  pub root_ptr_ptr : GlobalAddress

-- `sizeof(Leaf)`
abbrev pub leaf_size : ℕ
leaf_size = 34

module _ (c : Setting) where
  -- The world as the next remote operation meets it.
  unfoldable pub turn : World → World
  turn w = record w { memory = c.env w.clock w.memory; clock = w.clock + 1 }

  -- `read_sync` of an entry.
  unfoldable pub read_entry : Place → World → InternalEntry × World
  read_entry place w = let w' = turn w in (entry_at w'.memory place, w')

  -- `cas_sync` of an entry.
  unfoldable pub cas_entry :
      Place → InternalEntry → InternalEntry → World → Bool × InternalEntry × World
  cas_entry place old new w =
      let w' = turn w in
      let (ok, met, m) = swap_entry place old new w'.memory in (ok, met, record w' { memory = m })

  -- An operation without an answer.
  unfoldable pub send : (Memory → Memory) → World → World
  send f w = let w' = turn w in record w' { memory = f w'.memory }

  unfoldable pub alloc_one : World → GlobalAddress × World
  alloc_one w = (c.fresh w.allocated, record w { allocated = w.allocated + 1 })

  -- `out_of_place_write_leaf`: its result, the entry in `ret_buffer`, `v`, `leaf_addr` and the world.
  unfoldable pub out_of_place_write_leaf :
      Key
      → ℕ
      → GlobalAddress
      → ℕ
      → Place
      → InternalEntry
      → World
      → Bool × InternalEntry × ℕ × GlobalAddress × World
  out_of_place_write_leaf k v leaf_addr partial_key e_ptr old_e w =
      let (combined, v') = get_combining_value k v (c.lock_node w.clock) in
      let e_addr = place_addr c.root_ptr_ptr e_ptr in
      let (new_addr, w') = alloc_one w in
      let written = send (λ m. put_leaf m new_addr (make_leaf c.crc k v' e_addr)) w' in
      let moved =
        send (λ m. put_leaf m leaf_addr (record (m.leaves leaf_addr) { rev_ptr = e_addr })) w in
      let unwrite = eq_address leaf_addr Address.null || combined in
      let leaf_addr' = if unwrite then new_addr else leaf_addr in
      let ready = if unwrite then written else moved in
      let (ok, met, w'') =
        cas_entry e_ptr old_e (leaf_entry partial_key leaf_size leaf_addr') ready in
      (ok, met, v', leaf_addr', w'')

  -- `read_leaf`, with a bound on the rounds: its result, the leaf in the buffer and the world.
  unfoldable pub read_leaf_at :
      ℕ → GlobalAddress → Place → Bool → World → Option (Bool × Leaf × World)
  read_leaf_at zero a p_ptr from_cache w = none
  read_leaf_at (suc rounds) a p_ptr from_cache w =
      let p_addr = place_addr c.root_ptr_ptr p_ptr in
      let w' = turn w in
      let leaf = w'.memory.leaves a in
      let fixed = send (swap_rev_ptr true a leaf.rev_ptr p_addr) w' in
      let w'' = if not from_cache && not (eq_address leaf.rev_ptr p_addr) then fixed else w' in
      let again = read_leaf_at rounds a p_ptr from_cache w'' in
      if not (is_valid p_addr from_cache leaf)
      then some (false, leaf, w'')
      else if not (is_consistent c.crc leaf)
      then again
      else some (true, leaf, w'')

  -- `read_node`: its result, `type_correct`, the page in the buffer, `p` and the world.
  unfoldable pub read_node :
      InternalEntry → Place → ℕ → Bool → World → Bool × Bool × InternalPage × InternalEntry × World
  read_node p p_ptr depth from_cache w =
      let a = addr_of p in
      let p_addr = place_addr c.root_ptr_ptr p_ptr in
      let w' = turn w in
      let first = w'.memory.pages a in
      let rest_read = turn w' in
      let larger = ltb (type_of p) first.hdr.node_type in
      let w'' = if larger then rest_read else w' in
      let page =
        if larger
        then overlay (node_type_to_num (type_of p)) first (rest_read.memory.pages a)
        else first in
      let correct = type_of p == first.hdr.node_type in
      let p' = if correct then p else set_type first.hdr.node_type p in
      let fixed = send (swap_rev_ptr false a page.rev_ptr p_addr) w'' in
      let w3 = if not from_cache && not (eq_address page.rev_ptr p_addr) then fixed else w'' in
      (is_valid_page p_addr depth from_cache page, correct, page, p', w3)

-- The loop over the records from `i` on, with `rounds` rounds left: the first entry that is not null and
-- has the byte.
unfoldable pub find_slot : List InternalEntry → ℕ → ℕ → ℕ → Option ℕ
find_slot records byte i zero = none
find_slot records byte i (suc rounds) =
    let rest = find_slot records byte (i + 1) rounds in
    let e = get_or records i Entry.null in
    if not (eq_entry e Entry.null) && e.partial == byte then some i else rest
