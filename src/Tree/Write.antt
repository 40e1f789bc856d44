-- ===== src/Tree/Write.antt =====
-- The functions of src/Tree.cpp that link a new node, insert behind a full node, change the type of a
-- node and update a leaf in place. `rounds` bounds a loop that goes on until its compare-and-swap is met;
-- `none` is a loop that is not over by then, or a failing assertion.
use hybrid_heterogeneous_mem.Prelude.{
  ℕ, zero, suc, ◌+◌, ◌-◌, ◌/◌, Bool, true, false, not, ◌&&◌, ◌||◌, Option, none, some, List, [],
  ◌∷◌, ◌==◌, if◌then◌else◌, get_or, set, leb,
}
use hybrid_heterogeneous_mem.Address.{GlobalAddress, gadd, eq_address}
use hybrid_heterogeneous_mem.Address
use hybrid_heterogeneous_mem.Key.{Key, get_partial}
use hybrid_heterogeneous_mem.LockTable.Write.{get_combining_value}
use hybrid_heterogeneous_mem.Node.Types.{NodeType, node_4, node_type_to_num}
use hybrid_heterogeneous_mem.Node.Header.{Header, h_partial_len_max}
use hybrid_heterogeneous_mem.Node.Entry.{
  InternalEntry, eq_entry, addr_of, type_of, leaf_entry, node_entry, with_partial, with_type,
}
use hybrid_heterogeneous_mem.Node.Entry
use hybrid_heterogeneous_mem.Node.Page.{InternalPage, make_page}
use hybrid_heterogeneous_mem.Leaf.{Leaf, make_leaf, acquire_lock, written_leaf}
use hybrid_heterogeneous_mem.Tree.Memory.{
  Place, slot, place_addr, put_page, put_leaf, overlay, swap_rev_ptr, swap_type,
}
use hybrid_heterogeneous_mem.Tree.Client.{
  World, Setting, leaf_size, turn, read_entry, cas_entry, send, alloc_one, out_of_place_write_leaf,
}

-- `num_to_node_type(2)`
abbrev pub nodes_type : NodeType
nodes_type = node_4

-- The pages that `out_of_place_write_node` makes for the addresses, from `depth` and `partial_len` on.
unfoldable pub make_chain :
    List ℕ
    → Key
    → InternalEntry
    → ℕ
    → GlobalAddress
    → ℕ
    → ℕ
    → GlobalAddress
    → List GlobalAddress
    → Option (List (GlobalAddress × InternalPage))
make_chain stale k old_e diff_partial leaf_addr depth partial_len rev_ptr [] = none
make_chain stale k old_e diff_partial leaf_addr depth partial_len rev_ptr (a ∷ []) =
    elim (make_page stale k partial_len depth nodes_type rev_ptr) [
      | none ↦ none
      | some page ↦ elim (get_partial k (depth + partial_len)) [
        | none ↦ none
        | some b ↦ some (
            (
              a,
              record page {
                records =
                    set (set page.records 0 (with_partial diff_partial old_e)) 1
                      (leaf_entry b leaf_size leaf_addr);
              },
            )
            ∷ [])
      ]
    ]
make_chain stale k old_e diff_partial leaf_addr depth partial_len rev_ptr (a ∷ b ∷ as') =
    let rest =
      make_chain stale k old_e diff_partial leaf_addr (depth + (h_partial_len_max + 1))
        (partial_len - (h_partial_len_max + 1)) (gadd a (8 + 8)) (b ∷ as') in
    elim (make_page stale k h_partial_len_max depth nodes_type rev_ptr) [
      | none ↦ none
      | some page ↦ elim (get_partial k (depth + h_partial_len_max)) [
        | none ↦ none
        | some byte ↦ elim rest [
          | none ↦ none
          | some chain ↦ some (
              (a, record page { records = set page.records 0 (node_entry byte nodes_type b) })
              ∷ chain)
        ]
      ]
    ]

-- The last of the addresses.
unfoldable pub last_addr : List GlobalAddress → GlobalAddress
last_addr [] = Address.null
last_addr (a ∷ []) = a
last_addr (a ∷ b ∷ as') = last_addr (b ∷ as')

module _ (c : Setting) where
  unfoldable pub alloc_nodes : ℕ → World → List GlobalAddress × World
  alloc_nodes zero w = ([], w)
  alloc_nodes (suc n) w =
      let (a, w') = alloc_one c w in let (as', w'') = alloc_nodes n w' in (a ∷ as', w'')

  -- The pages of a batch, one after the other.
  unfoldable pub write_pages : List (GlobalAddress × InternalPage) → World → World
  write_pages [] w = w
  write_pages ((a, page) ∷ rest) w =
      write_pages rest
        (send c (λ m. put_page m a (overlay (node_type_to_num nodes_type) page (m.pages a))) w)

  -- `out_of_place_write_node`: its result, the entry in `ret_buffer`, `v`, `leaf_addr` and the world.
  -- A node that is not linked goes back to the allocator.
  unfoldable pub out_of_place_write_node :
      Key
      → ℕ
      → ℕ
      → GlobalAddress
      → ℕ
      → ℕ
      → Place
      → InternalEntry
      → World
      → Option (Bool × InternalEntry × ℕ × GlobalAddress × World)
  out_of_place_write_node k v depth leaf_addr partial_len diff_partial e_ptr old_e w =
      let new_node_num = partial_len / (h_partial_len_max + 1) + 1 in
      let (node_addrs, w1) = alloc_nodes new_node_num w in
      let last = last_addr node_addrs in
      let e_addr = place_addr c.root_ptr_ptr e_ptr in
      let leaf_e_addr = place_addr c.root_ptr_ptr (slot last 1) in
      let (combined, v') = get_combining_value k v (c.lock_node w1.clock) in
      let unwrite = eq_address leaf_addr Address.null || combined in
      let (new_addr, w2) = alloc_one c w1 in
      let moved =
        send c (λ m. put_leaf m leaf_addr (record (m.leaves leaf_addr) { rev_ptr = leaf_e_addr }))
          w1 in
      let leaf_addr' = if unwrite then new_addr else leaf_addr in
      let ready = if unwrite then w2 else moved in
      elim (make_chain (c.stale w.clock) k old_e diff_partial leaf_addr' depth partial_len e_addr
        node_addrs) [
          | none ↦ none
          | some chain ↦
              let w3 = write_pages chain ready in
              let with_leaf =
                send c (λ m. put_leaf m leaf_addr' (make_leaf c.crc k v' leaf_e_addr)) w3 in
              let w4 = if unwrite then with_leaf else w3 in
              let new_e = node_entry old_e.partial nodes_type (get_or node_addrs 0 Address.null) in
              let (ok, met, w5) = cas_entry c e_ptr old_e new_e w4 in
              let linked =
                send c
                  (swap_rev_ptr old_e.is_leaf (addr_of old_e) e_addr
                    (place_addr c.root_ptr_ptr (slot last 0)))
                  w5 in
              some (ok, met, v', leaf_addr', (if ok then linked else w5))
        ]

  -- The loop that reads down while the entry points to another node: `p_ptr`, `p` and the world.
  unfoldable pub read_down :
      ℕ → GlobalAddress → Place → InternalEntry → World → Option (Place × InternalEntry × World)
  read_down zero node_addr p_ptr p w = none
  read_down (suc rounds) node_addr p_ptr p w =
      let below = slot (addr_of p) 0 in
      let (e, w') = read_entry c below w in
      let next = read_down rounds node_addr below e w' in
      if not (eq_entry p Entry.null) && (not p.is_leaf && not (eq_address (addr_of p) node_addr))
      then next
      else some (p_ptr, p, w)

  -- The two compare-and-swaps of a round of `cas_node_type`, of those that are still to be made: the
  -- results, the entry and the header that were met, and the world.
  unfoldable pub switch_round :
      NodeType
      → GlobalAddress
      → Place
      → InternalEntry
      → Header
      → Bool
      → Bool
      → World
      → Bool × Bool × InternalEntry × Header × World
  switch_round next_type node_addr p_ptr p hdr first second w =
      let (ok, met, w1) = cas_entry c p_ptr p (with_type next_type p) w in
      let after_entry = if first then w else w1 in
      let w2 = turn c after_entry in
      let (ok', met', m) = swap_type node_addr hdr.node_type next_type w2.memory in
      (
        first || ok,
        second || ok',
        (if first then p else met),
        (if second then hdr else met'),
        (if second then after_entry else record w2 { memory = m }),
      )

  -- `cas_node_type` from `re_switch` on.
  unfoldable pub cas_node_type :
      ℕ
      → NodeType
      → GlobalAddress
      → Place
      → InternalEntry
      → Header
      → Bool
      → Bool
      → World
      → Option World
  cas_node_type zero next_type node_addr p_ptr p hdr first second w = none
  cas_node_type (suc rounds) next_type node_addr p_ptr p hdr first second w =
      let (first', second', met, met', w1) =
        switch_round next_type node_addr p_ptr p hdr first second w in
      let second'' = second' || leb next_type met'.node_type in
      let again = λ (q_ptr : Place) (q : InternalEntry) (done : Bool) (w2 : World).
        cas_node_type rounds next_type node_addr q_ptr q (if second' then hdr else met') done
          second'' w2 in
      if first'
      then if second'' then some w1 else again p_ptr p true w1
      else elim (read_down rounds node_addr p_ptr met w1) [
        | none ↦ none
        | some (q_ptr, q, w2) ↦
            let done = not (eq_address (addr_of q) node_addr) || leb next_type (type_of q) in
            if done && second'' then some w2 else again q_ptr q done w2
      ]

  -- The loop of `insert_behind` from slot `i` on: its result, the slot, the entry in `ret_buffer`, `v`,
  -- `leaf_addr` and the world.
  unfoldable pub insert_behind :
      ℕ
      → Key
      → ℕ
      → GlobalAddress
      → ℕ
      → GlobalAddress
      → ℕ
      → World
      → Option (Bool × ℕ × InternalEntry × ℕ × GlobalAddress × World)
  insert_behind zero k v leaf_addr partial_key a i w = none
  insert_behind (suc rounds) k v leaf_addr partial_key a i w =
      let (ok, e, v', leaf_addr', w') =
        out_of_place_write_leaf c k v leaf_addr partial_key (slot a i) Entry.null w in
      let next = insert_behind rounds k v' leaf_addr' partial_key a (i + 1) w' in
      if ok
      then some (true, i, e, v', leaf_addr', w')
      else if e.partial == partial_key
      then some (false, i, e, v', leaf_addr', w')
      else next

  -- `in_place_update_leaf`: the lock in the leaf, then the write of the leaf with the lock given back.
  unfoldable pub update_in_place : ℕ → Key → ℕ → GlobalAddress → Leaf → World → Option World
  update_in_place zero k v a leaf w = none
  update_in_place (suc rounds) k v a leaf w =
      let w' = turn c w in
      let (ok, l) = acquire_lock (w'.memory.leaves a) in
      let locked = record w' { memory = put_leaf w'.memory a l } in
      let again = update_in_place rounds k v a leaf w' in
      let (_, v') = get_combining_value k v (c.lock_node locked.clock) in
      if ok then some (send c (λ m. put_leaf m a (written_leaf c.crc v' leaf)) locked) else again
