-- ===== src/Tree/Insert.antt =====
-- `Tree::insert` of src/Tree.cpp, behind the acquisition of the write lock and the search of the cache.
-- `rounds` bounds the rounds from `next` on, and the loops inside one; `none` is an insertion that is not
-- over by then, a failing assertion, or a read of a byte outside of the key.
use hybrid_heterogeneous_mem.Prelude.{
  ℕ, zero, suc, ◌+◌, ◌-◌, Bool, true, false, Option, none, some, ltb, ◌==◌, get_or,
}
use hybrid_heterogeneous_mem.Address.{GlobalAddress}
use hybrid_heterogeneous_mem.Address
use hybrid_heterogeneous_mem.Key.{Key, get_partial, longest_common_prefix}
use hybrid_heterogeneous_mem.LockTable.Slot.{eq_key}
use hybrid_heterogeneous_mem.LockTable.Write.{get_combining_value}
use hybrid_heterogeneous_mem.Node.Types.{node_256, node_type_to_num, num_to_node_type}
use hybrid_heterogeneous_mem.Node.Header.{Header, mismatch, split_header}
use hybrid_heterogeneous_mem.Node.Entry.{InternalEntry, eq_entry, addr_of, type_of}
use hybrid_heterogeneous_mem.Node.Entry
use hybrid_heterogeneous_mem.Node.Page.{InternalPage}
use hybrid_heterogeneous_mem.Leaf.{Leaf}
use hybrid_heterogeneous_mem.Tree.Memory.{Place, root, slot, swap_path}
use hybrid_heterogeneous_mem.Tree.Client.{
  World, Setting, read_entry, send, out_of_place_write_leaf, read_leaf_at, read_node, find_slot,
}
use hybrid_heterogeneous_mem.Tree.Write.{
  out_of_place_write_node, cas_node_type, insert_behind, update_in_place,
}

-- What `insert` carries from one round to the next.
pub record Cursor : Type 0 where
  pub v : ℕ
  pub leaf_addr : GlobalAddress
  pub p_ptr : Place
  pub p : InternalEntry
  pub depth : ℕ
  pub from_cache : Bool
  pub world : World

-- How a part of a round ends: the insertion is over, it goes on from a cursor, it stops with a failure,
-- or no slot of the node was free.
pub data Outcome : Type 0 where
  finished : World → Outcome
  next : Cursor → Outcome
  failed : Outcome
  full : Cursor → Outcome

-- A compare-and-swap that linked the key, or the entry that it met instead.
unfoldable pub linked : Cursor → Bool × InternalEntry × ℕ × GlobalAddress × World → Outcome
linked s (true, met, v, leaf_addr, w) = finished w
linked s (false, met, v, leaf_addr, w) =
    next (record s { v = v; leaf_addr = leaf_addr; p = met; world = w })

-- A slot that was tried: it has the leaf, or the entry that came first is followed if it has the byte, or
-- the loop goes on.
unfoldable pub tried :
    ℕ
    → Place
    → Cursor
    → (Cursor → Outcome)
    → Bool × InternalEntry × ℕ × GlobalAddress × World
    → Outcome
tried byte place s go_on (true, e, v, leaf_addr, w) = finished w
tried byte place s go_on (false, e, v, leaf_addr, w) = elim (e.partial == byte) [
  | true ↦ next (record {
    v = v;
    leaf_addr = leaf_addr;
    p_ptr = place;
    p = e;
    depth = s.depth + 1;
    from_cache = false;
    world = w;
  })
  | false ↦ go_on (record s { v = v; leaf_addr = leaf_addr; world = w })
]

module _ (c : Setting) (k : Key) where
  -- `p_ptr` read again.
  unfoldable pub reread : Cursor → Outcome
  reread s =
      let (e, w) = read_entry c s.p_ptr s.world in
      next (record s { p = e; from_cache = false; world = w })

  -- 1. A null entry.
  unfoldable pub at_null : Cursor → Outcome
  at_null s = elim (get_partial k (s.depth - 1)) [
    | none ↦ failed
    | some b ↦ linked s (out_of_place_write_leaf c k s.v s.leaf_addr b s.p_ptr s.p s.world)
  ]

  -- 2.2 and 2.3. A leaf that was read.
  unfoldable pub on_leaf : ℕ → Bool → Leaf → Cursor → Outcome
  on_leaf rounds is_load leaf s = elim (eq_key leaf.key k) [
    | true ↦ elim is_load [
      | true ↦ finished s.world
      | false ↦
          let (_, v') = get_combining_value k s.v (c.lock_node s.world.clock) in
          elim (leaf.value == v') [
            | true ↦ finished s.world
            | false ↦ elim (update_in_place c rounds k v' (addr_of s.p) leaf s.world) [
              | none ↦ failed
              | some w ↦ finished w
            ]
          ]
    ]
    | false ↦ elim (longest_common_prefix leaf.key k s.depth) [
      | none ↦ failed
      | some partial_len ↦ elim (get_partial leaf.key (s.depth + partial_len)) [
        | none ↦ failed
        | some diff ↦
            elim (out_of_place_write_node c k s.v s.depth s.leaf_addr partial_len diff s.p_ptr s.p
              s.world) [ none ↦ failed | some r ↦ linked s r ]
      ]
    ]
  ]

  -- 2. What `read_leaf` gave.
  unfoldable pub at_leaf : ℕ → Bool → Cursor → Option (Bool × Leaf × World) → Outcome
  at_leaf rounds is_load s none = failed
  at_leaf rounds is_load s (some (false, leaf, w)) = reread (record s { world = w })
  at_leaf rounds is_load s (some (true, leaf, w)) =
      on_leaf rounds is_load leaf (record s { world = w })

  -- 3.2. The header differs from the key at its byte `i`: a node goes in front of it, and the header is
  -- cut without waiting for the answer.
  unfoldable pub split_node : ℕ → InternalPage → Cursor → Outcome
  split_node i page s = elim (ltb (page.hdr.depth + i) s.depth) [
    | true ↦ failed
    | false ↦
        elim (out_of_place_write_node c k s.v s.depth s.leaf_addr (page.hdr.depth + i - s.depth)
          (get_or page.hdr.partial i 0) s.p_ptr s.p s.world) [
            | none ↦ failed
            | some (false, met, v, leaf_addr, w) ↦ linked s (false, met, v, leaf_addr, w)
            | some (true, met, v, leaf_addr, w) ↦
                finished (send c (swap_path (addr_of s.p) page.hdr (split_header page.hdr i)) w)
          ]
  ]

  -- 3.3. The loop that tries the slots that were null, from `i` on.
  unfoldable pub try_slots : ℕ → ℕ → ℕ → InternalPage → Cursor → Outcome
  try_slots zero i byte page s = full s
  try_slots (suc n) i byte page s = elim (eq_entry (get_or page.records i Entry.null) Entry.null) [
    | false ↦ try_slots n (i + 1) byte page s
    | true ↦
        tried byte (slot (addr_of s.p) i) s (λ s'. try_slots n (i + 1) byte page s')
          (out_of_place_write_leaf c k s.v s.leaf_addr byte (slot (addr_of s.p) i) Entry.null
            s.world)
  ]

  -- 3.4. A slot behind those of the node's type, and the type that has it.
  unfoldable pub behind : ℕ → ℕ → Header → Cursor → Outcome
  behind rounds byte hdr s = elim (type_of s.p == node_256) [
    | true ↦ failed
    | false ↦
        let a = addr_of s.p in
        let num = node_type_to_num (type_of s.p) in
        elim (insert_behind c (256 - num) k s.v s.leaf_addr byte a num s.world) [
          | none ↦ failed
          | some (false, i, e, v, leaf_addr, w) ↦ next (record {
            v = v;
            leaf_addr = leaf_addr;
            p_ptr = slot a i;
            p = e;
            depth = s.depth + 1;
            from_cache = false;
            world = w;
          })
          | some (true, i, e, v, leaf_addr, w) ↦ elim (num_to_node_type i) [
            | none ↦ failed
            | some t ↦ elim (cas_node_type c rounds t a s.p_ptr s.p hdr false false w) [
              | none ↦ failed
              | some w' ↦ finished w'
            ]
          ]
        ]
  ]

  -- 3.3. Behind the header: the slot of the byte, a null slot, or a slot behind them.
  unfoldable pub in_node : ℕ → InternalPage → Cursor → Outcome
  in_node rounds page s =
      let end = page.hdr.depth + page.hdr.partial_len in
      let num = node_type_to_num (type_of s.p) in
      elim (get_partial k end) [
        | none ↦ failed
        | some byte ↦ elim (find_slot page.records byte 0 num) [
          | some i ↦ next (record s {
            p_ptr = slot (addr_of s.p) i;
            p = get_or page.records i Entry.null;
            from_cache = false;
            depth = end + 1;
          })
          | none ↦ elim (try_slots num 0 byte page (record s { depth = end })) [
            | full s' ↦ behind rounds byte page.hdr s'
            | finished w ↦ finished w
            | next s' ↦ next s'
            | failed ↦ failed
          ]
        ]
      ]

  -- 3.2. The header.
  unfoldable pub at_header : ℕ → InternalPage → Cursor → Outcome
  at_header rounds page s = elim (mismatch k page.hdr) [
    | none ↦ failed
    | some r ↦ elim (ltb r page.hdr.partial_len) [
      | true ↦ split_node r page s
      | false ↦ in_node rounds page s
    ]
  ]

  -- 3. What `read_node` gave.
  unfoldable pub at_node : ℕ → Cursor → Bool × Bool × InternalPage × InternalEntry × World → Outcome
  at_node rounds s (false, correct, page, p, w) = reread (record s { p = p; world = w })
  at_node rounds s (true, correct, page, p, w) =
      at_header rounds page (record s { p = p; world = w })

  -- One round from `next` on.
  unfoldable pub insert_round : ℕ → Bool → Cursor → Outcome
  insert_round rounds is_load s = elim (eq_entry s.p Entry.null) [
    | true ↦ at_null s
    | false ↦ elim s.p.is_leaf [
      | true ↦
          at_leaf rounds is_load s
            (read_leaf_at c rounds (addr_of s.p) s.p_ptr s.from_cache s.world)
      | false ↦ at_node rounds s (read_node c s.p s.p_ptr s.depth s.from_cache s.world)
    ]
  ]

  unfoldable pub insert_from : ℕ → Bool → Cursor → Option World
  insert_from zero is_load s = none
  insert_from (suc rounds) is_load s = elim (insert_round rounds is_load s) [
    | finished w ↦ some w
    | next s' ↦ insert_from rounds is_load s'
    | failed ↦ none
    | full s' ↦ none
  ]

  -- An insertion that misses the cache starts at the root.
  unfoldable pub insert_key : ℕ → Bool → ℕ → World → Option World
  insert_key rounds is_load v w =
      let (p, w') = read_entry c root w in
      insert_from rounds is_load (record {
        v = v;
        leaf_addr = Address.null;
        p_ptr = root;
        p = p;
        depth = 1;
        from_cache = false;
        world = w';
      })
