-- ===== src/RadixCache/Charged.antt =====
-- What `node_mem_size` has for a node is the size of the node, but for a root that was never charged.
use hybrid_heterogeneous_mem.Prelude.{
  ℕ, ◌+◌, ◌*◌, ◌≡◌, refl, true, Option, none, some, List, [], ◌∷◌, ◌==◌, ◌⊎◌, inl, inr, length,
  drop, arith, Bool-cases,
}
use hybrid_heterogeneous_mem.RadixCache.Entry.{CacheEntry, entry_size}
use hybrid_heterogeneous_mem.RadixCache.Node.{
  CacheNode, CacheMap, Parse, node, nil, here, down, split, passed, out, parse, charge, leaf_node,
  map_size, node_size, split_records, split_node, new_record, store_here, store_down, behind_here,
  behind_down, rebuilt, old_size, insert_at, insert_node, insert_records, Inserted, Stored,
}
use hybrid_heterogeneous_mem.RadixCache.Cache.{clear_at, clear_node, clear_records, new_root}
use hybrid_heterogeneous_mem.RadixCache.Sizes.{weight, weight_in}

-- The bytes of an entry: a depth, an address, its records and a time.
unfoldable pub entry_bytes : Option CacheEntry → ℕ
entry_bytes none = 0
entry_bytes (some e) = 17 + 8 * length e.records

-- The bytes of a node with all that is below it: a byte and the bytes of the path, for each record a byte and two
-- pointers, and the bytes of the entries and of the nodes that the records point to.
unfoldable mutual
  unfolding entry_bytes

  pub content : CacheNode → ℕ
  content (node d p c rs) = 1 + length p + content_in rs

  pub content_in : CacheMap → ℕ
  content_in nil = 0
  content_in (here b e rs) = 17 + entry_bytes e + content_in rs
  content_in (down b e n rs) = 17 + entry_bytes e + content n + content_in rs

unfoldable mutual
  pub IsCharged : CacheNode → Type 0
  IsCharged (node d p c rs) = (c ≡ node_size p rs) × AreCharged rs

  pub AreCharged : CacheMap → Type 0
  AreCharged nil = Unit
  AreCharged (here b e rs) = AreCharged rs
  AreCharged (down b e n rs) = IsCharged n × AreCharged rs

old_size-entry_bytes : (o : Option CacheEntry) → old_size o ≡ entry_bytes o
unfolding old_size entry_size entry_bytes
old_size-entry_bytes none = refl
old_size-entry_bytes (some e) = omega arith

mutual
  unfolding weight content IsCharged node_size map_size

  pub weight-content : (n : CacheNode) → IsCharged n → weight n ≡ content n
  weight-content (node d p c rs) (e, h) = omega (arith, e, content_in-weight_in rs h)

  content_in-weight_in :
      (rs : CacheMap) → AreCharged rs → content_in rs ≡ 17 * map_size rs + weight_in rs
  content_in-weight_in nil h = omega arith
  content_in-weight_in (here b e rs) h =
      omega (arith, content_in-weight_in rs h, old_size-entry_bytes e)
  content_in-weight_in (down b e n rs) h =
      omega (arith, content_in-weight_in rs h.1, old_size-entry_bytes e, weight-content n h.0)

leaf_node-IsCharged :
    (start : ℕ) (bytes : List ℕ) (e : CacheEntry) → IsCharged (leaf_node start bytes e)
unfolding leaf_node IsCharged charge
leaf_node-IsCharged start bytes e = (refl, tt)

-- What an insertion makes of records that are charged: they are, and the node around them is charged again or
-- has as many records as before.
abbrev IsStored : CacheMap → Stored → Type 0
IsStored rs s = AreCharged s.records × ((s.touched ≡ true) ⊎ (map_size s.records ≡ map_size rs))

module _ (e : CacheEntry) where
  split_records-AreCharged :
      (start : ℕ) (n : CacheNode) (x y : ℕ) (later : List ℕ)
      → IsCharged n
      → AreCharged (split_records start n x y later e)
  unfolding split_records IsCharged
  split_records-AreCharged start n x y [] h = elim (Bool-cases (x == y)) [
    | inl same ↦ rw same (h, tt)
    | inr other ↦ rw other (h, tt)
  ]
  split_records-AreCharged start n x y (z ∷ zs) h = elim (Bool-cases (x == y)) [
    | inl same ↦ rw same (h, tt)
    | inr other ↦ rw other (h, (leaf_node-IsCharged start (z ∷ zs) e, tt))
  ]

  split_node-IsCharged :
      (d : ℕ) (p : List ℕ) (c : ℕ) (rs : CacheMap) (rest : List ℕ) (i x y : ℕ) (later : List ℕ)
      → AreCharged rs
      → IsCharged (split_node d p c rs rest i x y later e).result
  unfolding split_node IsCharged charge
  split_node-IsCharged d p c rs rest i x y later h = (
    refl,
    split_records-AreCharged (d + i + 1) (charge (d + i + 1) (drop (i + 1) p) rs) x y later
        (refl, h),
  )

  new_record-IsStored :
      (idx y : ℕ) (later : List ℕ) (rs : CacheMap) → IsStored rs (new_record idx y later e)
  unfolding new_record IsCharged
  new_record-IsStored idx y [] rs = (tt, inl refl)
  new_record-IsStored idx y (z ∷ zs) rs = ((leaf_node-IsCharged (idx + 1) (z ∷ zs) e, tt), inl refl)

  store_here-IsStored :
      (idx b : ℕ) (old : Option CacheEntry) (rs rs' : CacheMap) (later : List ℕ)
      → AreCharged rs
      → IsStored rs' (store_here idx b old rs later e)
  unfolding store_here IsCharged
  store_here-IsStored idx b old rs rs' [] h = (h, inl refl)
  store_here-IsStored idx b old rs rs' (z ∷ zs) h =
      ((leaf_node-IsCharged (idx + 1) (z ∷ zs) e, h), inl refl)

  store_down-IsStored :
      (b : ℕ) (old : Option CacheEntry) (n : CacheNode) (rs : CacheMap) (later : List ℕ)
      (below : Inserted)
      → IsCharged n
      → IsCharged below.result
      → AreCharged rs
      → IsStored (down b old n rs) (store_down b old n rs later e below)
  unfolding store_down IsCharged map_size
  store_down-IsStored b old n rs [] below h h' hs = ((h, hs), inl refl)
  store_down-IsStored b old n rs (z ∷ zs) below h h' hs = ((h', hs), inr refl)

  rebuilt-IsCharged :
      (d : ℕ) (p : List ℕ) (c : ℕ) (rs : CacheMap) (s : Stored)
      → c ≡ node_size p rs
      → IsStored rs s
      → IsCharged (rebuilt d p c s).result
  unfolding rebuilt IsCharged charge node_size
  rebuilt-IsCharged d p c rs s own (h, kept) = elim (Bool-cases s.touched) [
    | inl t ↦ simp (rebuilt, t) (refl, h)
    | inr t ↦
        simp (rebuilt, t)
          (elim kept [ inl touched ↦ absurd cc | inr same ↦ omega (arith, own, same) ], h)
  ]

  insert_at-IsCharged :
      (d : ℕ) (p : List ℕ) (c : ℕ) (rs : CacheMap) (rest : List ℕ) (store : ℕ → List ℕ → Stored)
      (q : Parse)
      → c ≡ node_size p rs
      → AreCharged rs
      → ((y : ℕ) (later : List ℕ) → IsStored rs (store y later))
      → IsCharged (insert_at d p c rs rest e store q).result
  unfolding insert_at IsCharged
  insert_at-IsCharged d p c rs rest store out own h ih = (own, h)
  insert_at-IsCharged d p c rs rest store (split i x y later) own h ih =
      split_node-IsCharged d p c rs rest i x y later h
  insert_at-IsCharged d p c rs rest store (passed y later) own h ih =
      rebuilt-IsCharged d p c rs (store y later) own (ih y later)

mutual
  unfolding insert_node insert_records IsCharged behind_here behind_down map_size

  insert_node-IsCharged :
      (rest : List ℕ) (e : CacheEntry) (n : CacheNode)
      → IsCharged n
      → IsCharged (insert_node rest e n).result
  insert_node-IsCharged rest e (node d p c rs) (own, h) =
      insert_at-IsCharged e d p c rs rest (λ y later. insert_records (d + length p) y later e rs)
        (parse rest p 0) own h (λ y later. insert_records-IsStored (d + length p) y later e rs h)

  insert_records-IsStored :
      (idx y : ℕ) (later : List ℕ) (e : CacheEntry) (rs : CacheMap)
      → AreCharged rs
      → IsStored rs (insert_records idx y later e rs)
  insert_records-IsStored idx y later e nil h = new_record-IsStored e idx y later nil
  insert_records-IsStored idx y later e (here u old rs) h = elim (Bool-cases (u == y)) [
    | inl same ↦ rw same (store_here-IsStored e idx u old rs (here u old rs) later h)
    | inr other ↦
        let (h', kept) = insert_records-IsStored idx y later e rs h in
        rw other (h', elim kept [ inl t ↦ inl t | inr same ↦ inr (omega (arith, same)) ])
  ]
  insert_records-IsStored idx y later e (down u old n rs) h = elim (Bool-cases (u == y)) [
    | inl same ↦ rw same (
        store_down-IsStored e u old n rs later (insert_node later e n) h.0
          (insert_node-IsCharged later e n h.0) h.1)
    | inr other ↦
        let (h', kept) = insert_records-IsStored idx y later e rs h.1 in
        rw other ((h.0, h'), elim kept [ inl t ↦ inl t | inr same ↦ inr (omega (arith, same)) ])
  ]

clear_at-IsCharged :
    (d : ℕ) (p : List ℕ) (c : ℕ) (rs : CacheMap) (below : ℕ → List ℕ → CacheMap) (q : Parse)
    → c ≡ node_size p rs
    → AreCharged rs
    → ((y : ℕ) (later : List ℕ)
        → AreCharged (below y later) × (map_size (below y later) ≡ map_size rs))
    → IsCharged (clear_at d p c rs below q)
unfolding clear_at IsCharged node_size
clear_at-IsCharged d p c rs below (split i x y later) own h ih = (own, h)
clear_at-IsCharged d p c rs below (passed y later) own h ih =
    let (h', same) = ih y later in (omega (arith, own, same), h')
clear_at-IsCharged d p c rs below out own h ih = (own, h)

mutual
  unfolding clear_node clear_records IsCharged map_size

  clear_node-IsCharged :
      (rest : List ℕ) (n : CacheNode) → IsCharged n → IsCharged (clear_node rest n)
  clear_node-IsCharged rest (node d p c rs) (own, h) =
      clear_at-IsCharged d p c rs (λ y later. clear_records y later rs) (parse rest p 0) own h
        (λ y later. clear_records-AreCharged y later rs h)

  clear_records-AreCharged :
      (y : ℕ) (later : List ℕ) (rs : CacheMap)
      → AreCharged rs
      → AreCharged (clear_records y later rs) × (map_size (clear_records y later rs) ≡ map_size rs)
  clear_records-AreCharged y [] nil h = (h, refl)
  clear_records-AreCharged y (z ∷ zs) nil h = (h, refl)
  clear_records-AreCharged y [] (here b e rs) h = elim (Bool-cases (b == y)) [
    | inl same ↦ rw same (h, refl)
    | inr other ↦
        let (h', same) = clear_records-AreCharged y [] rs h in rw other (h', omega (arith, same))
  ]
  clear_records-AreCharged y (z ∷ zs) (here b e rs) h = elim (Bool-cases (b == y)) [
    | inl same ↦ rw same (h, refl)
    | inr other ↦
        let (h', same) = clear_records-AreCharged y (z ∷ zs) rs h in
        rw other (h', omega (arith, same))
  ]
  clear_records-AreCharged y [] (down b e n rs) h = elim (Bool-cases (b == y)) [
    | inl same ↦ rw same (h, refl)
    | inr other ↦
        let (h', same) = clear_records-AreCharged y [] rs h.1 in
        rw other ((h.0, h'), omega (arith, same))
  ]
  clear_records-AreCharged y (z ∷ zs) (down b e n rs) h = elim (Bool-cases (b == y)) [
    | inl same ↦ rw same ((clear_node-IsCharged (z ∷ zs) n h.0, h.1), refl)
    | inr other ↦
        let (h', same) = clear_records-AreCharged y (z ∷ zs) rs h.1 in
        rw other ((h.0, h'), omega (arith, same))
  ]

-- The root is as it was made, and not charged, or it is charged.
abbrev pub IsRoot : CacheNode → Type 0
IsRoot n = (n ≡ new_root) ⊎ IsCharged n

insert-new_root : (rest : List ℕ) (e : CacheEntry) → IsRoot (insert_node rest e new_root).result
unfolding insert_node insert_at parse rebuilt new_record IsCharged charge
insert-new_root [] e = inl refl
insert-new_root (y ∷ []) e = inr (refl, tt)
insert-new_root (y ∷ z ∷ zs) e = inr (refl, (leaf_node-IsCharged 1 (z ∷ zs) e, tt))

clear-new_root : (rest : List ℕ) → clear_node rest new_root ≡ new_root
unfolding clear_node clear_at parse
clear-new_root [] = refl
clear-new_root (y ∷ []) = refl
clear-new_root (y ∷ z ∷ zs) = refl

pub insert_node-IsRoot :
    (rest : List ℕ) (e : CacheEntry) (n : CacheNode)
    → IsRoot n
    → IsRoot (insert_node rest e n).result
insert_node-IsRoot rest e n (inl fresh) = rw fresh (insert-new_root rest e)
insert_node-IsRoot rest e n (inr h) = inr (insert_node-IsCharged rest e n h)

pub clear_node-IsRoot : (rest : List ℕ) (n : CacheNode) → IsRoot n → IsRoot (clear_node rest n)
clear_node-IsRoot rest n (inl fresh) = rw fresh (inl (clear-new_root rest))
clear_node-IsRoot rest n (inr h) = inr (clear_node-IsCharged rest n h)
