-- ===== src/RadixCache/Sizes.antt =====
-- The accounts of the cache of src/RadixCache.cpp: what `free_size` has given for nodes and entries.
use hybrid_heterogeneous_mem.Prelude.{
  ℕ, ◌+◌, ◌≡◌, Option, List, [], ◌∷◌, ◌==◌, length, arith, Bool-cases, inl, inr,
}
use hybrid_heterogeneous_mem.RadixCache.Entry.{CacheEntry, entry_size}
use hybrid_heterogeneous_mem.RadixCache.Node.{
  CacheNode, CacheMap, Parse, node, nil, here, down, split, passed, out, parse, charge, leaf_node,
  leaf_size, map_size, split_records, nested_size, split_node, old_size, new_record, store_here,
  store_down, behind_here, behind_down, rebuilt, insert_at, insert_node, insert_records, Inserted,
  Stored, node_size,
}

-- The bytes noted for the nodes below a node and itself, and those of their entries.
unfoldable mutual
  pub weight : CacheNode → ℕ
  weight (node d p c rs) = c + weight_in rs

  pub weight_in : CacheMap → ℕ
  weight_in nil = 0
  weight_in (here b e rs) = old_size e + weight_in rs
  weight_in (down b e n rs) = old_size e + weight n + weight_in rs

weight-leaf_node :
    (s x : ℕ) (xs : List ℕ) (e : CacheEntry)
    → weight (leaf_node s (x ∷ xs) e) ≡ leaf_size (x ∷ xs) + entry_size e
unfolding weight leaf_node charge leaf_size old_size node_size map_size
weight-leaf_node s x xs e = omega arith

-- What an insertion takes and gives back is what it adds to the weight.
module _ (e : CacheEntry) where
  weight-split_node :
      (d : ℕ) (p : List ℕ) (c : ℕ) (rs : CacheMap) (rest : List ℕ) (i x y : ℕ) (later : List ℕ)
      → weight (split_node d p c rs rest i x y later e).result
          + (split_node d p c rs rest i x y later e).freed
        ≡ c + weight_in rs + (split_node d p c rs rest i x y later e).consumed
  unfolding split_node split_records nested_size weight charge old_size
  weight-split_node d p c rs rest i x y [] = ground arith
  weight-split_node d p c rs rest i x y (z ∷ zs) =
      ground (arith, weight-leaf_node (d + i + 1) z zs e)

  new_weight :
      (idx y : ℕ) (later : List ℕ)
      → weight_in (new_record idx y later e).records + (new_record idx y later e).gave
        ≡ (new_record idx y later e).took
  unfolding new_record weight old_size
  new_weight idx y [] = omega arith
  new_weight idx y (z ∷ zs) = omega (arith, weight-leaf_node (idx + 1) z zs e)

  store_here_weight :
      (idx b : ℕ) (old : Option CacheEntry) (rs : CacheMap) (later : List ℕ)
      → weight_in (store_here idx b old rs later e).records + (store_here idx b old rs later e).gave
        ≡ old_size old + weight_in rs + (store_here idx b old rs later e).took
  unfolding store_here weight old_size
  store_here_weight idx b old rs [] = omega arith
  store_here_weight idx b old rs (z ∷ zs) = omega (arith, weight-leaf_node (idx + 1) z zs e)

  store_down-weight :
      (b : ℕ) (old : Option CacheEntry) (n : CacheNode) (rs : CacheMap) (later : List ℕ)
      (below : Inserted)
      → weight below.result + below.freed ≡ weight n + below.consumed
      → weight_in (store_down b old n rs later e below).records
          + (store_down b old n rs later e below).gave
        ≡ old_size old + weight n + weight_in rs + (store_down b old n rs later e below).took
  unfolding store_down weight old_size
  store_down-weight b old n rs [] below ih = omega arith
  store_down-weight b old n rs (z ∷ zs) below ih = omega (arith, ih)

  weight-rebuilt :
      (d : ℕ) (p : List ℕ) (c : ℕ) (rs : CacheMap) (s : Stored)
      → weight_in s.records + s.gave ≡ weight_in rs + s.took
      → weight (rebuilt d p c s).result + (rebuilt d p c s).freed
        ≡ c + weight_in rs + (rebuilt d p c s).consumed
  unfolding rebuilt weight charge
  weight-rebuilt d p c rs s ih = elim (Bool-cases s.touched) [
    | inl h ↦ simp (rebuilt, h) (omega (arith, ih))
    | inr h ↦ simp (rebuilt, h) (omega (arith, ih))
  ]

  weight-insert_at :
      (d : ℕ) (p : List ℕ) (c : ℕ) (rs : CacheMap) (rest : List ℕ) (store : ℕ → List ℕ → Stored)
      (q : Parse)
      → ((y : ℕ) (later : List ℕ)
          → weight_in (store y later).records + (store y later).gave
            ≡ weight_in rs + (store y later).took)
      → weight (insert_at d p c rs rest e store q).result
          + (insert_at d p c rs rest e store q).freed
        ≡ c + weight_in rs + (insert_at d p c rs rest e store q).consumed
  unfolding insert_at weight
  weight-insert_at d p c rs rest store out ih = omega arith
  weight-insert_at d p c rs rest store (split i x y later) ih =
      weight-split_node d p c rs rest i x y later
  weight-insert_at d p c rs rest store (passed y later) ih =
      weight-rebuilt d p c rs (store y later) (ih y later)

mutual
  unfolding insert_node insert_records weight behind_here behind_down

  pub weight-insert_node :
      (rest : List ℕ) (e : CacheEntry) (n : CacheNode)
      → weight (insert_node rest e n).result + (insert_node rest e n).freed
        ≡ weight n + (insert_node rest e n).consumed
  weight-insert_node rest e (node d p c rs) =
      weight-insert_at e d p c rs rest (λ y later. insert_records (d + length p) y later e rs)
        (parse rest p 0) (λ y later. weight_in-insert_records (d + length p) y later e rs)

  weight_in-insert_records :
      (idx y : ℕ) (later : List ℕ) (e : CacheEntry) (rs : CacheMap)
      → weight_in (insert_records idx y later e rs).records + (insert_records idx y later e rs).gave
        ≡ weight_in rs + (insert_records idx y later e rs).took
  weight_in-insert_records idx y later e nil = omega (arith, new_weight e idx y later)
  weight_in-insert_records idx y later e (here u old rs) = elim (Bool-cases (u == y)) [
    | inl same ↦ rw same (store_here_weight e idx u old rs later)
    | inr other ↦ rw other (omega (arith, weight_in-insert_records idx y later e rs))
  ]
  weight_in-insert_records idx y later e (down u old n rs) = elim (Bool-cases (u == y)) [
    | inl same ↦ rw same (
        store_down-weight e u old n rs later (insert_node later e n) (weight-insert_node later e n))
    | inr other ↦ rw other (omega (arith, weight_in-insert_records idx y later e rs))
  ]
