-- ===== src/Tree/Lookup.antt =====
-- `search` in a memory that no one else works on.
use hybrid_heterogeneous_mem.Prelude.{
  ℕ, zero, suc, ◌+◌, ◌≤◌, ◌<◌, ◌≡◌, refl, sym, ap, ◌∙◌, subst, false, none, some, ltb, get_or,
  arith, Bool-cases, Option-cases, ◌⊎◌, ◌↔◌, Option, inl, inr,
}
use hybrid_heterogeneous_mem.Key.{Key, IsKey}
use hybrid_heterogeneous_mem.Key.Prefix.{partial, get_partial-partial}
use hybrid_heterogeneous_mem.Node.Types.{node_type_to_num}
use hybrid_heterogeneous_mem.Node.Header.Match.{mismatch_lem}
use hybrid_heterogeneous_mem.Node.Entry.{InternalEntry, eq_entry, addr_of, type_of}
use hybrid_heterogeneous_mem.Node.Entry
use hybrid_heterogeneous_mem.Tree.Memory.{Place, root, slot, entry_at}
use hybrid_heterogeneous_mem.Tree.Client.{World, Setting, turn, read_entry, read_node, find_slot}
use hybrid_heterogeneous_mem.Tree.Search.{
  over, go_on, search_slots, search_header, search_node, search_leaf, search_round, search_from,
  search,
}
use hybrid_heterogeneous_mem.Tree.Shape.{value_at, IsNodeAt, IsTree, nothing, leaf, node}
use hybrid_heterogeneous_mem.Tree.Holds.{Holds, IsRadix, value_at-Holds}
use hybrid_heterogeneous_mem.Tree.Quiet.{
  IsQuiet, find_slot-lt, value_at-node, turn_memory, read_leaf_at_lem, read_node_lem, value_in,
}

module _ (c : Setting) (quiet : IsQuiet c) where
  search_round-node :
      (rounds : ℕ) (k : Key) (place : Place) (depth : ℕ) (p : InternalEntry) (w : World)
      → eq_entry p Entry.null ≡ false
      → p.is_leaf ≡ false
      → search_round c rounds k place p depth false w
        ≡ search_node c k place depth (read_node c p place depth false w)
  unfolding search_round
  search_round-node rounds k place depth p w e l = simp (search_round, e, l) refl

  -- What a round does below a node of a tree.
  search_node_lem :
      (k : Key) (n rounds : ℕ) (place : Place) (depth : ℕ) (p : InternalEntry) (w : World)
      → IsKey k
      → eq_entry p Entry.null ≡ false
      → p.is_leaf ≡ false
      → IsNodeAt c w.memory place depth p
      → (w' : World) × ((w'.memory ≡ w.memory)
          × (((search_round c rounds k place p depth false w ≡ over none w')
                × (value_at (suc n) w.memory k p ≡ none))
              ⊎ ((i : ℕ) × ((i < node_type_to_num (type_of p))
                    × ((search_round c rounds k place p depth false w
                          ≡ go_on
                              (slot (addr_of p) i)
                              (get_or (w.memory.pages (addr_of p)).records i Entry.null)
                              ((w.memory.pages (addr_of p)).hdr.depth
                                + (w.memory.pages (addr_of p)).hdr.partial_len
                                + 1)
                              w')
                        × (value_at (suc n) w.memory k p
                            ≡ value_at n w.memory k
                                (get_or (w.memory.pages (addr_of p)).records i Entry.null)))))))
  unfolding search_round search_node search_header search_slots value_at
  search_node_lem k n rounds place depth p w key e l h =
      let page = w.memory.pages (addr_of p) in
      let end = page.hdr.depth + page.hdr.partial_len in
      let fit : end ≤ 8 = omega (arith, h.depth_eq, h.end_le) in
      let (r, found, _, _, _) = mismatch_lem k page.hdr key fit in
      let at = get_partial-partial k end (omega (arith, key.size)) in
      let read = read_node_lem c quiet place depth p w h in
      (
        turn c w,
        (
          turn_memory c quiet w,
          elim (Bool-cases (ltb r page.hdr.partial_len)) [
            | inl off ↦ inl (
              search_round-node rounds k place depth p w e l
                  ∙ rw (read, search_node, search_header, found, off) refl,
              value_at-node n w.memory k p e l ∙ rw (value_in, found, off) refl,
            )
            | inr on ↦
                elim (Option-cases
                  (find_slot page.records (partial k end) 0 (node_type_to_num (type_of p)))) [
                    | inl missing ↦ inl (
                      search_round-node rounds k place depth p w e l
                          ∙ rw
                              (
                                read, search_node, search_header, found, on, search_slots, at,
                                missing,
                              )
                              refl,
                      value_at-node n w.memory k p e l ∙ rw (value_in, found, on, at, missing) refl,
                    )
                    | inr (i, hit) ↦ inr (
                      i,
                      (
                        omega (
                          arith,
                          find_slot-lt page.records (partial k end) 0 (node_type_to_num (type_of p))
                              hit,
                        ),
                        (
                          search_round-node rounds k place depth p w e l
                              ∙ rw
                                  (
                                    read, search_node, search_header, found, on, search_slots, at,
                                    hit,
                                  )
                                  refl,
                          value_at-node n w.memory k p e l ∙ rw (value_in, found, on, at, hit) refl,
                        ),
                      ),
                    )
                  ]
          ],
        ),
      )

  -- A search below a place with a tree ends within as many rounds as there are bytes left, with the
  -- value that the tree has for the key, and leaves the memory as it is.
  search_from_lem :
      (k : Key) (rounds : ℕ) (place : Place) (depth : ℕ) (p : InternalEntry) (w : World)
      → IsKey k
      → IsTree c w.memory place depth p
      → depth ≤ 9
      → 11 ≤ rounds + depth
      → (w' : World) × ((search_from c rounds k place p depth false w
            ≡ some (value_at rounds w.memory k p, w'))
          × (w'.memory ≡ w.memory))
  unfolding search_from search_round search_leaf value_at
  search_from_lem k zero place depth p w key t le enough = absurd (omega arith)
  search_from_lem k (suc rounds) place depth p w key (nothing e) le enough =
      (w, (rw (search_from, search_round, value_at, e) refl, refl))
  search_from_lem k (suc zero) place depth p w key (leaf e l h) le enough = absurd (omega arith)
  search_from_lem k (suc (suc rounds)) place depth p w key (leaf e l h) le enough = (
    turn c w,
    (
      rw (search_from, search_round, value_at, e, l, read_leaf_at_lem c quiet rounds place p w h)
          refl,
      turn_memory c quiet w,
    ),
  )
  search_from_lem k (suc rounds) place depth p w key (node e l h below) le enough =
      let (w', (same, step)) = search_node_lem k rounds rounds place depth p w key e l h in
      elim step [
        | inl (run, v) ↦ (w', (rw (search_from, run, v) refl, same))
        | inr (i, (lt, (run, v))) ↦
            let next = get_or (w.memory.pages (addr_of p)).records i Entry.null in
            let end =
              (w.memory.pages (addr_of p)).hdr.depth
              + (w.memory.pages (addr_of p)).hdr.partial_len in
            let sub : IsTree c w.memory (slot (addr_of p) i) (end + 1) next =
              rw h.depth_eq (below i lt) in
            let (w'', (run', same')) =
              search_from_lem k rounds (slot (addr_of p) i) (end + 1) next w' key
                (subst (λ m. IsTree c m (slot (addr_of p) i) (end + 1) next) (sym same) sub)
                (omega (arith, h.depth_eq, h.end_le)) (omega (arith, h.depth_eq)) in
            (
              w'',
              (
                rw (search_from, run, v)
                    (run' ∙ ap (λ m. some (value_at rounds m k next, w'')) same),
                same' ∙ same,
              ),
            )
      ]

  -- The value that a search gives, as a walk over the memory.
  pub search-value_at :
      (k : Key) (rounds : ℕ) (w : World)
      → IsKey k
      → IsTree c w.memory root 1 w.memory.root_entry
      → eq_entry w.memory.root_entry Entry.null ≡ false
      → 10 ≤ rounds
      → (w' : World) × ((search c rounds k w
            ≡ some (value_at rounds w.memory k w.memory.root_entry, w'))
          × (w'.memory ≡ w.memory))
  unfolding search read_entry entry_at
  search-value_at k rounds w key t some_root enough =
      let same = turn_memory c quiet w in
      let (w', (run, same')) =
        search_from_lem k rounds root 1 (turn c w).memory.root_entry (turn c w) key
          (subst (λ m. IsTree c m root 1 m.root_entry) (sym same) t) (omega arith) (omega arith) in
      let there : eq_entry (turn c w).memory.root_entry Entry.null ≡ false =
        ap (λ m. eq_entry m.root_entry Entry.null) same ∙ some_root in
      (
        w',
        (
          rw (search, there) (run ∙ ap (λ m. some (value_at rounds m k m.root_entry, w')) same),
          same' ∙ same,
        ),
      )

  -- In a memory that no one else works on, whose root entry is not null and the root of a tree in which the slots
  -- of a node have different bytes and the keys below a slot have the path of the node and the byte of the
  -- slot: a search of a key ends within ten rounds and leaves the memory as it is. It gives a value exactly if some
  -- leaf below the root has the key and that value, and none exactly if no leaf has the key.
  pub search_lem :
      (k : Key) (rounds : ℕ) (w : World)
      → IsKey k
      → IsTree c w.memory root 1 w.memory.root_entry
      → IsRadix w.memory w.memory.root_entry
      → eq_entry w.memory.root_entry Entry.null ≡ false
      → 10 ≤ rounds
      → (r : Option ℕ) × (w' : World) × ((search c rounds k w ≡ some (r, w'))
          × (w'.memory ≡ w.memory)
          × ((v : ℕ) → (r ≡ some v) ↔ Holds w.memory w.memory.root_entry k v)
          × ((r ≡ none) ↔ ((v : ℕ) → ¬ Holds w.memory w.memory.root_entry k v)))
  search_lem k rounds w key t radix some_root enough =
      let (w', (run, same)) = search-value_at k rounds w key t some_root enough in
      let p = w.memory.root_entry in
      let r = value_at rounds w.memory k p in
      let agree : (v : ℕ) → (r ≡ some v) ↔ Holds w.memory p k v = λ v.
        value_at-Holds c w.memory k v key rounds root 1 p t radix (omega arith) (omega arith) in
      (
        r,
        w',
        (
          run,
          same,
          agree,
          (
            λ missing v held. let there = (agree v).1 held in cc,
            λ empty. elim (Option-cases r) [
              | inl missing ↦ missing
              | inr (v, there) ↦ absurd (empty v ((agree v).0 there))
            ],
          ),
        ),
      )
