-- ===== src/Tree/Update.antt =====
-- `insert` of a key that is there, in a memory that no one else works on.
use hybrid_heterogeneous_mem.Prelude.{
  ℕ, zero, suc, ◌+◌, ◌≤◌, ◌<◌, ◌≡◌, refl, sym, ap, ◌∙◌, subst, Bool, true, false, Option, none,
  some, ltb, ◌==◌, ==_iff, if◌then◌else◌, get_or, arith, Bool-cases, Option-cases, inl, inr,
}
use hybrid_heterogeneous_mem.Address.{GlobalAddress, eq_address}
use hybrid_heterogeneous_mem.Address
use hybrid_heterogeneous_mem.Key.{Key, IsKey}
use hybrid_heterogeneous_mem.Key.Prefix.{partial, get_partial-partial}
use hybrid_heterogeneous_mem.LockTable.Slot.{eq_key, eq_key_refl, eq_key→eq}
use hybrid_heterogeneous_mem.LockTable.Write.{get_combining_value}
use hybrid_heterogeneous_mem.Node.Types.{node_type_to_num}
use hybrid_heterogeneous_mem.Node.Header.Match.{mismatch_lem}
use hybrid_heterogeneous_mem.Node.Entry.{InternalEntry, eq_entry, addr_of, type_of}
use hybrid_heterogeneous_mem.Node.Entry
use hybrid_heterogeneous_mem.Leaf.{
  Leaf, acquire_lock, lock, unlock, set_consistent, set_value, written_leaf,
}
use hybrid_heterogeneous_mem.Tree.Memory.{Place, root, slot, Memory, put_leaf, entry_at}
use hybrid_heterogeneous_mem.Tree.Client.{
  World, Setting, turn, send, read_leaf_at, read_node, read_entry, find_slot,
}
use hybrid_heterogeneous_mem.Tree.Write.{update_in_place}
use hybrid_heterogeneous_mem.Tree.Insert.{
  Cursor, finished, next, on_leaf, at_leaf, in_node, at_header, at_node, insert_round, insert_from,
  insert_key,
}
use hybrid_heterogeneous_mem.Tree.Shape.{value_at, IsNodeAt, IsTree, nothing, leaf, node}
use hybrid_heterogeneous_mem.Tree.Search.{search}
use hybrid_heterogeneous_mem.Tree.Lookup.{search-value_at}
use hybrid_heterogeneous_mem.Tree.Quiet.{
  IsQuiet, find_slot-lt, value_in, value_at-node, value_at-leaf, turn_memory, read_leaf_at_lem,
  read_node_lem, eq_address_refl,
}
use hybrid_heterogeneous_mem.Tree.Written.{
  IsUpdate, kept, none-some, value_at-null, put_leaf-IsUpdate, value_at-others, update-IsTree,
}

abbrev at : ℕ → GlobalAddress → Place → InternalEntry → ℕ → World → Cursor
at v leaf_addr place p depth w = record {
  v = v;
  leaf_addr = leaf_addr;
  p_ptr = place;
  p = p;
  depth = depth;
  from_cache = false;
  world = w;
}

module _ (c : Setting) (k : Key) where
  insert_round-node :
      (rounds : ℕ) (is_load : Bool) (v : ℕ) (leaf_addr : GlobalAddress) (place : Place) (depth : ℕ)
      (p : InternalEntry) (w : World)
      → eq_entry p Entry.null ≡ false
      → p.is_leaf ≡ false
      → insert_round c k rounds is_load (at v leaf_addr place p depth w)
        ≡ at_node c k rounds (at v leaf_addr place p depth w) (read_node c p place depth false w)
  unfolding insert_round
  insert_round-node rounds is_load v leaf_addr place depth p w e l = simp (insert_round, e, l) refl

  insert_round-leaf :
      (rounds : ℕ) (is_load : Bool) (v : ℕ) (leaf_addr : GlobalAddress) (place : Place) (depth : ℕ)
      (p : InternalEntry) (w : World)
      → eq_entry p Entry.null ≡ false
      → p.is_leaf ≡ true
      → insert_round c k rounds is_load (at v leaf_addr place p depth w)
        ≡ at_leaf c k rounds is_load
            (at v leaf_addr place p depth w)
            (read_leaf_at c rounds (addr_of p) place false w)
  unfolding insert_round
  insert_round-leaf rounds is_load v leaf_addr place depth p w e l = simp (insert_round, e, l) refl

acquired : (l : Leaf) → l.w_lock ≡ 0 → acquire_lock l ≡ (true, lock l)
unfolding acquire_lock
acquired l e = rw e refl

root_there :
    (n : ℕ) (m : Memory) (k : Key) (p : InternalEntry) {u : ℕ}
    → value_at n m k p ≡ some u
    → eq_entry p Entry.null ≡ false
unfolding value_at
root_there zero m k p has = none-some has
root_there (suc n) m k p has = elim (Bool-cases (eq_entry p Entry.null)) [
  | inl e ↦ none-some (sym (value_at-null n m k p e) ∙ has)
  | inr e ↦ e
]

found_key :
    (l : Leaf) (k : Key) {u : ℕ}
    → (if eq_key l.key k then some l.value else none) ≡ some u
    → l.key ≡ k
found_key l k e = elim (Bool-cases (eq_key l.key k)) [
  | inl same ↦ eq_key→eq l.key k same
  | inr other ↦ none-some (sym (rw other refl) ∙ e)
]

module _ (c : Setting) (quiet : IsQuiet c) (k : Key) (v : ℕ)
    (alone : (n : ℕ) → get_combining_value k v (c.lock_node n) ≡ (false, v)) where
  -- The lock is free, so the leaf is written in one round.
  update_in_place_lem :
      (rounds : ℕ) (a : GlobalAddress) (w : World)
      → (w.memory.leaves a).key ≡ k
      → (w.memory.leaves a).w_lock ≡ 0
      → (w' : World) × ((update_in_place c (suc rounds) k v a (w.memory.leaves a) w ≡ some w')
          × IsUpdate c k v w.memory w'.memory
          × ((w'.memory.leaves a).key ≡ k)
          × ((w'.memory.leaves a).value ≡ v))
  unfolding update_in_place send written_leaf unlock set_consistent set_value
  update_in_place_lem rounds a w own free =
      let w1 = turn c w in
      let l = lock (w1.memory.leaves a) in
      let same = turn_memory c quiet w in
      let got : acquire_lock (w1.memory.leaves a) ≡ (true, l) =
        acquired (w1.memory.leaves a) (ap (λ m. (m.leaves a).w_lock) same ∙ free) in
      let locked = record w1 { memory = put_leaf w1.memory a l } in
      let new = written_leaf c.crc v (w.memory.leaves a) in
      let same' : (turn c locked).memory ≡ put_leaf w.memory a l =
        turn_memory c quiet locked ∙ ap (λ m. put_leaf m a l) same in
      let here = eq_address_refl a in
      (
        send c (λ m. put_leaf m a new) locked,
        (
          rw (got, alone locked.clock) refl,
          subst (λ m. IsUpdate c k v w.memory (put_leaf m a new)) (sym same')
              (put_leaf-IsUpdate c k v w.memory a l own),
          rw here own,
          rw here refl,
        ),
      )

  -- A round at the leaf of the key.
  on_leaf_lem :
      (rounds depth : ℕ) (leaf_addr : GlobalAddress) (place : Place) (p : InternalEntry) (w : World)
      → (w.memory.leaves (addr_of p)).key ≡ k
      → (w.memory.leaves (addr_of p)).w_lock ≡ 0
      → (w' : World) × ((on_leaf c k
              (suc rounds)
              false
              (w.memory.leaves (addr_of p))
              (at v leaf_addr place p depth w)
            ≡ finished w')
          × IsUpdate c k v w.memory w'.memory
          × ((w'.memory.leaves (addr_of p)).key ≡ k)
          × ((w'.memory.leaves (addr_of p)).value ≡ v))
  unfolding on_leaf
  on_leaf_lem rounds depth leaf_addr place p w own free =
      let l = w.memory.leaves (addr_of p) in
      let mine : eq_key l.key k ≡ true = rw own (eq_key_refl k) in
      elim (Bool-cases (l.value == v)) [
        | inl old ↦ (
          w,
          (
            rw (on_leaf, mine, alone w.clock, old) refl,
            record { pages_eq = refl; root_eq = refl; leaves_eq = λ a. kept refl },
            own,
            (==_iff l.value v).0 old,
          ),
        )
        | inr other ↦
            let (w', (run, upd, own', value)) = update_in_place_lem rounds (addr_of p) w own free in
            (
              w',
              (rw (on_leaf, mine, alone w.clock, other, alone w.clock, run) refl, upd, own', value),
            )
      ]

  -- A round below a node goes on as a search for the key does.
  at_node_lem :
      (n rounds : ℕ) (leaf_addr : GlobalAddress) (place : Place) (depth : ℕ) (p : InternalEntry)
      (w : World) {u : ℕ}
      → IsKey k
      → eq_entry p Entry.null ≡ false
      → p.is_leaf ≡ false
      → IsNodeAt c w.memory place depth p
      → value_at (suc n) w.memory k p ≡ some u
      → (i : ℕ) × ((i < node_type_to_num (type_of p))
          × ((insert_round c k rounds false (at v leaf_addr place p depth w)
                ≡ next (
                    at v leaf_addr
                      (slot (addr_of p) i)
                      (get_or (w.memory.pages (addr_of p)).records i Entry.null)
                      ((w.memory.pages (addr_of p)).hdr.depth
                        + (w.memory.pages (addr_of p)).hdr.partial_len
                        + 1)
                      (turn c w)))
              × ((m : Memory)
                  → m.pages ≡ w.memory.pages
                  → value_at (suc n) m k p
                    ≡ value_at n m k (get_or (w.memory.pages (addr_of p)).records i Entry.null))))
  unfolding at_node at_header in_node
  at_node_lem n rounds leaf_addr place depth p w {u} key e l h has =
      let page = w.memory.pages (addr_of p) in
      let end = page.hdr.depth + page.hdr.partial_len in
      let fit : end ≤ 8 = omega (arith, h.depth_eq, h.end_le) in
      let (r, found, _, _, _) = mismatch_lem k page.hdr key fit in
      let byte = get_partial-partial k end (omega (arith, key.size)) in
      let read = read_node_lem c quiet place depth p w h in
      let below = sym (value_at-node n w.memory k p e l) ∙ has in
      elim (Bool-cases (ltb r page.hdr.partial_len)) [
        | inl off ↦ none-some (sym (rw (value_in, found, off) refl) ∙ below)
        | inr on ↦
            elim (Option-cases
              (find_slot page.records (partial k end) 0 (node_type_to_num (type_of p)))) [
                | inl missing ↦
                    none-some (sym (rw (value_in, found, on, byte, missing) refl) ∙ below)
                | inr (i, hit) ↦ (
                  i,
                  (
                    omega (
                      arith,
                      find_slot-lt page.records (partial k end) 0 (node_type_to_num (type_of p))
                          hit,
                    ),
                    (
                      insert_round-node c k rounds false v leaf_addr place depth p w e l
                          ∙ rw (read, at_node, at_header, found, on, in_node, byte, hit) refl,
                      λ m same.
                          value_at-node n m k p e l
                          ∙ (ap (λ f. value_in n m k p (f (addr_of p))) same
                              ∙ rw (value_in, found, on, byte, hit) refl),
                    ),
                  ),
                )
              ]
      ]

  -- An insertion below a place of a tree that has the key ends, and updates its leaf.
  insert_from_lem :
      (rounds : ℕ) (leaf_addr : GlobalAddress) (place : Place) (depth : ℕ) (p : InternalEntry)
      (w : World) {u : ℕ}
      → IsKey k
      → IsTree c w.memory place depth p
      → depth ≤ 9
      → 11 ≤ rounds + depth
      → value_at rounds w.memory k p ≡ some u
      → (w' : World) × ((insert_from c k rounds false (at v leaf_addr place p depth w) ≡ some w')
          × (IsUpdate c k v w.memory w'.memory × (value_at rounds w'.memory k p ≡ some v)))
  unfolding insert_from at_leaf
  insert_from_lem zero leaf_addr place depth p w key t le enough has = absurd (omega arith)
  insert_from_lem (suc rounds) leaf_addr place depth p w key (nothing e) le enough has =
      none-some (sym (value_at-null rounds w.memory k p e) ∙ has)
  insert_from_lem (suc zero) leaf_addr place depth p w key (leaf e l h) le enough has =
      absurd (omega arith)
  insert_from_lem (suc (suc rounds)) leaf_addr place depth p w key (leaf e l h) le enough has =
      let own =
        found_key (w.memory.leaves (addr_of p)) k
          (sym (value_at-leaf (suc rounds) w.memory k p e l) ∙ has) in
      let same = turn_memory c quiet w in
      let (w', (run, upd, own', value)) =
        on_leaf_lem rounds depth leaf_addr place p (turn c w)
          (ap (λ m. (m.leaves (addr_of p)).key) same ∙ own)
          (ap (λ m. (m.leaves (addr_of p)).w_lock) same ∙ h.free) in
      let here : insert_round c k (suc rounds) false (at v leaf_addr place p depth w)
          ≡ finished w' =
        insert_round-leaf c k (suc rounds) false v leaf_addr place depth p w e l
        ∙ rw (read_leaf_at_lem c quiet rounds place p w h, at_leaf)
            (ap
                (λ m.
                  on_leaf c k (suc rounds) false (m.leaves (addr_of p))
                    (at v leaf_addr place p depth (turn c w)))
                (sym same)
              ∙ run) in
      (
        w',
        (
          rw (insert_from, here) refl,
          (
            subst (λ m. IsUpdate c k v m w'.memory) same upd,
            value_at-leaf (suc rounds) w'.memory k p e l ∙ rw (own', eq_key_refl k, value) refl,
          ),
        ),
      )
  insert_from_lem (suc rounds) leaf_addr place depth p w key (node e l h below) le enough has =
      let (i, (lt, (run, down))) =
        at_node_lem rounds rounds leaf_addr place depth p w key e l h has in
      let same = turn_memory c quiet w in
      let sub = get_or (w.memory.pages (addr_of p)).records i Entry.null in
      let end =
        (w.memory.pages (addr_of p)).hdr.depth + (w.memory.pages (addr_of p)).hdr.partial_len in
      let t : IsTree c w.memory (slot (addr_of p) i) (end + 1) sub = rw h.depth_eq (below i lt) in
      let (w', (run', (upd, value))) =
        insert_from_lem rounds leaf_addr (slot (addr_of p) i) (end + 1) sub (turn c w) key
          (subst (λ m. IsTree c m (slot (addr_of p) i) (end + 1) sub) (sym same) t)
          (omega (arith, h.depth_eq, h.end_le)) (omega (arith, h.depth_eq))
          (ap (λ m. value_at rounds m k sub) same ∙ (sym (down w.memory refl) ∙ has)) in
      let upd' = subst (λ m. IsUpdate c k v m w'.memory) same upd in
      (w', (rw (insert_from, run) run', (upd', down w'.memory upd'.pages_eq ∙ value)))

  -- In a memory that no one else works on, with no value to combine, the insertion of a key that the tree has ends within
  -- ten rounds. The tree is a tree still; the key has the value, and any other key has what it had.
  pub insert_key_lem :
      (rounds : ℕ) (w : World) {u : ℕ}
      → IsKey k
      → IsTree c w.memory root 1 w.memory.root_entry
      → 10 ≤ rounds
      → value_at rounds w.memory k w.memory.root_entry ≡ some u
      → (w' : World) × ((insert_key c k rounds false v w ≡ some w')
          × (IsTree c w'.memory root 1 w'.memory.root_entry
              × ((j : Key)
                  → value_at rounds w'.memory j w'.memory.root_entry ≡ (
                      if eq_key k j
                      then some v
                      else value_at rounds w.memory j w.memory.root_entry))))
  unfolding insert_key read_entry entry_at
  insert_key_lem rounds w {u} key t enough has =
      let same = turn_memory c quiet w in
      let p = (turn c w).memory.root_entry in
      let (w', (run, (upd', value))) =
        insert_from_lem rounds Address.null root 1 p (turn c w) key
          (subst (λ m. IsTree c m root 1 m.root_entry) (sym same) t) (omega arith) (omega arith)
          (ap (λ m. value_at rounds m k m.root_entry) same ∙ has) in
      let upd = subst (λ m. IsUpdate c k v m w'.memory) same upd' in
      let mine : value_at rounds w'.memory k w'.memory.root_entry ≡ some v =
        ap (λ e. value_at rounds w'.memory k e) upd'.root_eq ∙ value in
      (
        w',
        (
          run,
          (
            update-IsTree c k v w.memory w'.memory upd t,
            λ j. elim (Bool-cases (eq_key k j)) [
              | inl own ↦
                  ap (λ x. value_at rounds w'.memory x w'.memory.root_entry)
                    (sym (eq_key→eq k j own))
                  ∙ (mine ∙ rw own refl)
              | inr other ↦
                  ap (λ e. value_at rounds w'.memory j e) upd.root_eq
                  ∙ (value_at-others c k v w.memory w'.memory j rounds w.memory.root_entry upd other
                      ∙ rw other refl)
            ],
          ),
        ),
      )

  -- In a memory that no one else works on and with no value to combine, the insertion of a key that the
  -- tree at the root has, and a search of any key before and after it: each ends within ten rounds. The
  -- search after it gives the value inserted if its key is the one inserted, and otherwise what the
  -- search before gave.
  pub insert_key-search :
      (rounds : ℕ) (w : World) (j : Key) {u : ℕ}
      → IsKey k
      → IsKey j
      → IsTree c w.memory root 1 w.memory.root_entry
      → 10 ≤ rounds
      → value_at rounds w.memory k w.memory.root_entry ≡ some u
      → (before : Option ℕ) × (w0 : World) × (w1 : World) × (w2 : World) × ((search c rounds j w
            ≡ some (before, w0))
          × ((insert_key c k rounds false v w ≡ some w1)
              × (search c rounds j w1 ≡ some ((if eq_key k j then some v else before), w2))))
  insert_key-search rounds w j key key' t enough has =
      let (w0, (run, _)) =
        search-value_at c quiet j rounds w key' t
          (root_there rounds w.memory k w.memory.root_entry has) enough in
      let (w1, (done, (t', values))) = insert_key_lem rounds w key t enough has in
      let has' : value_at rounds w1.memory k w1.memory.root_entry ≡ some v =
        values k ∙ rw (eq_key_refl k) refl in
      let (w2, (run', _)) =
        search-value_at c quiet j rounds w1 key' t'
          (root_there rounds w1.memory k w1.memory.root_entry has') enough in
      (
        value_at rounds w.memory j w.memory.root_entry,
        w0,
        w1,
        w2,
        (run, (done, run' ∙ ap (λ x. some (x, w2)) (values j))),
      )
