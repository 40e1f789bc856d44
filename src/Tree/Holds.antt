-- ===== src/Tree/Holds.antt =====
-- What a radix tree in the remote memory holds: the keys and the values of its leaves, however they are reached.
use hybrid_heterogeneous_mem.Prelude.{
  ℕ, zero, suc, ◌+◌, ◌≤◌, ◌<◌, ◌≡◌, refl, sym, ap, ◌∙◌, subst, true, false, none, some, ltb, get_or,
  arith, Bool-cases, Option-cases, inl, inr, ◌↔◌,
}
use hybrid_heterogeneous_mem.Key.{Key, IsKey}
use hybrid_heterogeneous_mem.Key.Prefix.{partial, get_partial-partial}
use hybrid_heterogeneous_mem.LockTable.Slot.{eq_key, eq_key_refl, eq_key→eq}
use hybrid_heterogeneous_mem.Node.Types.{node_type_to_num}
use hybrid_heterogeneous_mem.Node.Header.Match.{Follows, mismatch_lem}
use hybrid_heterogeneous_mem.Node.Entry.{InternalEntry, eq_entry, addr_of, type_of}
use hybrid_heterogeneous_mem.Node.Entry
use hybrid_heterogeneous_mem.Tree.Memory.{Place, slot, Memory}
use hybrid_heterogeneous_mem.Tree.Client.{Setting, find_slot}
use hybrid_heterogeneous_mem.Tree.Shape.{value_at, IsTree, nothing, leaf, node}
use hybrid_heterogeneous_mem.Tree.Quiet.{value_at-node, value_at-leaf, value_in}
use hybrid_heterogeneous_mem.Tree.Slots.{IsOf, find_slot-IsOf, find_slot-finds}

-- The entry `q` is the other entry, or stands in a slot of a node below it.
pub data Below (m : Memory) (q : InternalEntry) : InternalEntry → Type 0 where
  here : {p : InternalEntry} → p ≡ q → Below m q p
  down :
      {p : InternalEntry} (i : ℕ)
      → eq_entry p Entry.null ≡ false
      → p.is_leaf ≡ false
      → i < node_type_to_num (type_of p)
      → Below m q (get_or (m.pages (addr_of p)).records i Entry.null)
      → Below m q p

-- An entry of a leaf with the key and the value.
pub record IsLeafOf (m : Memory) (k : Key) (v : ℕ) (q : InternalEntry) : Type 0 where
  pub there : eq_entry q Entry.null ≡ false
  pub is_leaf : q.is_leaf ≡ true
  pub key : (m.leaves (addr_of q)).key ≡ k
  pub value : (m.leaves (addr_of q)).value ≡ v

-- Some leaf below an entry has the key and the value.
abbrev pub Holds : Memory → InternalEntry → Key → ℕ → Type 0
Holds m p k v = (q : InternalEntry) × Below m q p × IsLeafOf m k v q

-- The slots of a node have different bytes, and the keys of the leaves below a slot have the path of the node and
-- the byte of the slot.
pub record IsSorted (m : Memory) (p : InternalEntry) : Type 0 where
  pub distinct :
      (i j byte : ℕ)
      → i < node_type_to_num (type_of p)
      → j < node_type_to_num (type_of p)
      → IsOf (m.pages (addr_of p)).records byte i
      → IsOf (m.pages (addr_of p)).records byte j
      → i ≡ j
  pub keys :
      (i : ℕ) (k : Key) (v : ℕ)
      → i < node_type_to_num (type_of p)
      → Holds m (get_or (m.pages (addr_of p)).records i Entry.null) k v
      → Follows k (m.pages (addr_of p)).hdr 0 (m.pages (addr_of p)).hdr.partial_len
        × (partial k ((m.pages (addr_of p)).hdr.depth + (m.pages (addr_of p)).hdr.partial_len)
            ≡ (get_or (m.pages (addr_of p)).records i Entry.null).partial)

-- So for each node below an entry.
abbrev pub IsRadix : Memory → InternalEntry → Type 0
IsRadix m p =
    (q : InternalEntry)
    → Below m q p
    → eq_entry q Entry.null ≡ false
    → q.is_leaf ≡ false
    → IsSorted m q

-- Nothing is below a null entry, and only itself below a leaf.
pub Below-there :
    {m : Memory} {q p : InternalEntry}
    → Below m q p
    → eq_entry q Entry.null ≡ false
    → eq_entry p Entry.null ≡ false
Below-there (here e) there = ap (λ x. eq_entry x Entry.null) e ∙ there
Below-there (down i some_node not_leaf lt b) there = some_node

pub Below-leaf : {m : Memory} {q p : InternalEntry} → Below m q p → p.is_leaf ≡ true → p ≡ q
Below-leaf (here e) l = e
Below-leaf (down i some_node not_leaf lt b) l = absurd cc

-- A leaf below a node is below one of its slots.
Below-node :
    {m : Memory} {q p : InternalEntry}
    → Below m q p
    → p.is_leaf ≡ false
    → q.is_leaf ≡ true
    → (i : ℕ) × (i < node_type_to_num (type_of p))
      × Below m q (get_or (m.pages (addr_of p)).records i Entry.null)
Below-node (here e) not_leaf l = absurd (let l' = ap (λ x. x.is_leaf) e in cc)
Below-node (down i some_node not_leaf lt b) _ l = (i, lt, b)

module _ (c : Setting) (m : Memory) (k : Key) (v : ℕ) (key : IsKey k) where
  -- What a node holds of the key, a slot holds that has the byte of the key behind the path.
  held_in_slot :
      (p : InternalEntry)
      → p.is_leaf ≡ false
      → IsSorted m p
      → Holds m p k v
      → (i : ℕ) × (i < node_type_to_num (type_of p))
        × Follows k (m.pages (addr_of p)).hdr 0 (m.pages (addr_of p)).hdr.partial_len
        × IsOf
            (m.pages (addr_of p)).records
            (partial k ((m.pages (addr_of p)).hdr.depth + (m.pages (addr_of p)).hdr.partial_len))
            i
        × Holds m (get_or (m.pages (addr_of p)).records i Entry.null) k v
  held_in_slot p not_leaf sorted (q, b, stored) =
      let (i, lt, b') = Below-node b not_leaf stored.is_leaf in
      let (path, byte) = sorted.keys i k v lt (q, b', stored) in
      (
        i,
        lt,
        path,
        record { present = Below-there b' stored.there; partial = sym byte },
        (q, b', stored),
      )

  value_at-leaf_iff :
      (n : ℕ) (p : InternalEntry)
      → eq_entry p Entry.null ≡ false
      → p.is_leaf ≡ true
      → (value_at (suc n) m k p ≡ some v) ↔ Holds m p k v
  value_at-leaf_iff n p there l = (
    λ e. elim (Bool-cases (eq_key (m.leaves (addr_of p)).key k)) [
      | inl same ↦
          let is_it = rw same at (sym (value_at-leaf n m k p there l) ∙ e) in
          (
            p,
            here refl,
            record {
              there = there;
              is_leaf = l;
              key = eq_key→eq (m.leaves (addr_of p)).key k same;
              value = cc;
            },
          )
      | inr other ↦
          let nothing_there = rw other at (sym (value_at-leaf n m k p there l) ∙ e) in absurd cc
    ],
    λ h.
        let (q, b, stored) = h in
        let same : p ≡ q = Below-leaf b l in
        let own_key : (m.leaves (addr_of p)).key ≡ k =
          ap (λ x. (m.leaves (addr_of x)).key) same ∙ stored.key in
        let own_value : (m.leaves (addr_of p)).value ≡ v =
          ap (λ x. (m.leaves (addr_of x)).value) same ∙ stored.value in
        value_at-leaf n m k p there l ∙ rw (own_key, eq_key_refl k, own_value) refl,
  )

  -- The value that the walk from an entry gives is the one that the tree below it holds.
  pub value_at-Holds :
      (n : ℕ) (place : Place) (depth : ℕ) (p : InternalEntry)
      → IsTree c m place depth p
      → IsRadix m p
      → depth ≤ 9
      → 11 ≤ n + depth
      → (value_at n m k p ≡ some v) ↔ Holds m p k v
  unfolding value_at
  value_at-Holds zero place depth p t radix le enough = absurd (omega arith)
  value_at-Holds (suc n) place depth p (nothing e) radix le enough = (
    λ run. absurd (let no_value = rw (value_at, e) at run in cc),
    λ h. let (q, b, stored) = h in absurd (let there = Below-there b stored.there in cc),
  )
  value_at-Holds (suc n) place depth p (leaf e l h) radix le enough = value_at-leaf_iff n p e l
  value_at-Holds (suc n) place depth p (node e l h below) radix le enough =
      let page = m.pages (addr_of p) in
      let end = page.hdr.depth + page.hdr.partial_len in
      let sorted = radix p (here refl) e l in
      let (r, found, small, path, stop) =
        mismatch_lem k page.hdr key (omega (arith, h.depth_eq, h.end_le)) in
      let at_end = get_partial-partial k end (omega (arith, key.size, h.depth_eq, h.end_le)) in
      elim (Bool-cases (ltb r page.hdr.partial_len)) [
        | inl off ↦ (
          λ run. absurd (
              let gone : value_at (suc n) m k p ≡ none =
                value_at-node n m k p e l ∙ rw (value_in, found, off) refl in
              let no_value = sym gone ∙ run in cc),
          λ held.
              let lt : r < page.hdr.partial_len = ground (arith, off) in
              let (i, _, follows, _, _) = held_in_slot p l sorted held in
              absurd (stop lt (follows r (omega arith) lt)),
        )
        | inr on ↦
            elim (Option-cases
              (find_slot page.records (partial k end) 0 (node_type_to_num (type_of p)))) [
                | inl missing ↦ (
                  λ run. absurd (
                      let gone : value_at (suc n) m k p ≡ none =
                        value_at-node n m k p e l
                        ∙ rw (value_in, found, on, at_end, missing) refl in
                      let no_value = sym gone ∙ run in cc),
                  λ held.
                      let (i, lt, _, of_byte, _) = held_in_slot p l sorted held in
                      let (j, hit) =
                        find_slot-finds page.records (partial k end) 0
                          (node_type_to_num (type_of p)) i (omega arith) (omega (arith, lt))
                          of_byte in
                      absurd cc,
                )
                | inr (i, hit) ↦
                    let next = get_or page.records i Entry.null in
                    let (_, lt, of_byte) =
                      find_slot-IsOf page.records (partial k end) 0 (node_type_to_num (type_of p))
                        hit in
                    let lt' : i < node_type_to_num (type_of p) = omega (arith, lt) in
                    let step : value_at (suc n) m k p ≡ value_at n m k next =
                      value_at-node n m k p e l ∙ rw (value_in, found, on, at_end, hit) refl in
                    let (sound, complete) =
                      value_at-Holds n (slot (addr_of p) i) (depth + page.hdr.partial_len + 1) next
                        (below i lt') (λ q b. radix q (down i e l lt' b)) (omega (arith, h.end_le))
                        (omega (arith)) in
                    (
                      λ run.
                          let (q, b, stored) = sound (sym step ∙ run) in
                          (q, down i e l lt' b, stored),
                      λ held.
                          let (j, ltj, _, of_byte', held') = held_in_slot p l sorted held in
                          let same : j ≡ i =
                            sorted.distinct j i (partial k end) ltj lt' of_byte' of_byte in
                          step
                          ∙ complete (
                              subst (λ x. Holds m (get_or page.records x Entry.null) k v) same
                                held'),
                    )
              ]
      ]
