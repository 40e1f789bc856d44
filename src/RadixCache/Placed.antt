-- ===== src/RadixCache/Placed.antt =====
-- `hdr->depth` of a node of the cache is the number of bytes that lead to it.
use hybrid_heterogeneous_mem.Prelude.{
  ℕ, ◌+◌, ◌≡◌, refl, sym, subst, Option, List, [], ◌∷◌, ◌++◌, ◌==◌, length, length-append, arith,
  Bool-cases, inl, inr,
}
use hybrid_heterogeneous_mem.RadixCache.Entry.{CacheEntry}
use hybrid_heterogeneous_mem.RadixCache.Node.{
  CacheNode, CacheMap, Parse, node, nil, here, down, split, passed, out, parse, charge, leaf_node,
  split_records, split_node, new_record, store_here, store_down, behind_here, behind_down, rebuilt,
  insert_at, insert_node, insert_records, Inserted, Stored,
}
use hybrid_heterogeneous_mem.RadixCache.Header.{parse-split, take-length, drop-length}
use hybrid_heterogeneous_mem.RadixCache.Cache.{clear_at, clear_node, clear_records}

unfoldable mutual
  pub IsPlaced : ℕ → CacheNode → Type 0
  IsPlaced idx (node d p c rs) = (d ≡ idx) × ArePlaced (idx + length p + 1) rs

  pub ArePlaced : ℕ → CacheMap → Type 0
  ArePlaced idx nil = Unit
  ArePlaced idx (here b e rs) = ArePlaced idx rs
  ArePlaced idx (down b e n rs) = IsPlaced idx n × ArePlaced idx rs

leaf_node-IsPlaced :
    (start : ℕ) (bytes : List ℕ) (e : CacheEntry) → IsPlaced start (leaf_node start bytes e)
unfolding leaf_node IsPlaced
leaf_node-IsPlaced start bytes e = (refl, tt)

module _ (e : CacheEntry) where
  split_records-ArePlaced :
      (start : ℕ) (n : CacheNode) (x y : ℕ) (later : List ℕ)
      → IsPlaced start n
      → ArePlaced start (split_records start n x y later e)
  unfolding split_records IsPlaced
  split_records-ArePlaced start n x y [] h = elim (Bool-cases (x == y)) [
    | inl same ↦ rw same (h, tt)
    | inr other ↦ rw other (h, tt)
  ]
  split_records-ArePlaced start n x y (z ∷ zs) h = elim (Bool-cases (x == y)) [
    | inl same ↦ rw same (h, tt)
    | inr other ↦ rw other (h, (leaf_node-IsPlaced start (z ∷ zs) e, tt))
  ]

  new_record-ArePlaced :
      (idx y : ℕ) (later : List ℕ) → ArePlaced (idx + 1) (new_record idx y later e).records
  unfolding new_record IsPlaced
  new_record-ArePlaced idx y [] = tt
  new_record-ArePlaced idx y (z ∷ zs) = (leaf_node-IsPlaced (idx + 1) (z ∷ zs) e, tt)

  store_here-ArePlaced :
      (idx b : ℕ) (old : Option CacheEntry) (rs : CacheMap) (later : List ℕ)
      → ArePlaced (idx + 1) rs
      → ArePlaced (idx + 1) (store_here idx b old rs later e).records
  unfolding store_here IsPlaced
  store_here-ArePlaced idx b old rs [] h = h
  store_here-ArePlaced idx b old rs (z ∷ zs) h = (leaf_node-IsPlaced (idx + 1) (z ∷ zs) e, h)

  store_down-ArePlaced :
      (idx b : ℕ) (old : Option CacheEntry) (n : CacheNode) (rs : CacheMap) (later : List ℕ)
      (below : Inserted)
      → IsPlaced idx n
      → IsPlaced idx below.result
      → ArePlaced idx rs
      → ArePlaced idx (store_down b old n rs later e below).records
  unfolding store_down IsPlaced
  store_down-ArePlaced idx b old n rs [] below h h' hs = (h, hs)
  store_down-ArePlaced idx b old n rs (z ∷ zs) below h h' hs = (h', hs)

  rebuilt-IsPlaced :
      (idx d : ℕ) (p : List ℕ) (c : ℕ) (s : Stored)
      → d ≡ idx
      → ArePlaced (idx + length p + 1) s.records
      → IsPlaced idx (rebuilt d p c s).result
  unfolding rebuilt IsPlaced charge
  rebuilt-IsPlaced idx d p c s e h = elim (Bool-cases s.touched) [
    | inl t ↦ simp (rebuilt, t) (e, h)
    | inr t ↦ simp (rebuilt, t) (e, h)
  ]

  split_node-IsPlaced :
      (idx c : ℕ) (rs : CacheMap) (later q xs : List ℕ) (x y : ℕ)
      → ArePlaced (idx + length (q ++ x ∷ xs) + 1) rs
      → IsPlaced idx
          (split_node idx (q ++ x ∷ xs) c rs (q ++ y ∷ later) (length q) x y later e).result
  unfolding split_node IsPlaced charge
  split_node-IsPlaced idx c rs later q xs x y h =
      let start = idx + length q + 1 in
      let len : idx + length (q ++ x ∷ xs) + 1 ≡ start + length xs + 1 =
        omega (arith, length-append q (x ∷ xs)) in
      let old : IsPlaced start (charge start xs rs) = (refl, subst (λ i. ArePlaced i rs) len h) in
      rw (take-length q (y ∷ later), drop-length q x xs)
        (refl, split_records-ArePlaced start (charge start xs rs) x y later old)

  split_at-IsPlaced :
      (idx d c : ℕ) (rs : CacheMap) (rest p : List ℕ) (i x y : ℕ) (later q xs : List ℕ)
      → d ≡ idx
      → p ≡ q ++ x ∷ xs
      → rest ≡ q ++ y ∷ later
      → i ≡ length q
      → ArePlaced (idx + length p + 1) rs
      → IsPlaced idx (split_node d p c rs rest i x y later e).result
  split_at-IsPlaced idx d c rs rest p i x y later q xs hd hp hr hi h =
      rw (hd, hp, hr, hi)
        (split_node-IsPlaced idx c rs later q xs x y
          (subst (λ l. ArePlaced (idx + length l + 1) rs) hp h))

  insert_at-IsPlaced :
      (idx d : ℕ) (p : List ℕ) (c : ℕ) (rs : CacheMap) (rest : List ℕ) (store : ℕ → List ℕ → Stored)
      (q : Parse)
      → parse rest p 0 ≡ q
      → d ≡ idx
      → ArePlaced (idx + length p + 1) rs
      → ((y : ℕ) (later : List ℕ) → ArePlaced (idx + length p + 1) (store y later).records)
      → IsPlaced idx (insert_at d p c rs rest e store q).result
  unfolding insert_at IsPlaced
  insert_at-IsPlaced idx d p c rs rest store out run hd h ih = (hd, h)
  insert_at-IsPlaced idx d p c rs rest store (split i x y later) run hd h ih =
      let (q, xs, (hp, hr, hi, _)) = parse-split rest p 0 i x y later run in
      split_at-IsPlaced idx d c rs rest p i x y later q xs hd hp hr (omega (arith, hi)) h
  insert_at-IsPlaced idx d p c rs rest store (passed y later) run hd h ih =
      rebuilt-IsPlaced idx d p c (store y later) hd (ih y later)

mutual
  unfolding insert_node insert_records IsPlaced behind_here behind_down

  -- An insertion keeps every node at its place: its depth is the number of bytes that lead to it.
  pub insert_node-IsPlaced :
      (idx : ℕ) (rest : List ℕ) (e : CacheEntry) (n : CacheNode)
      → IsPlaced idx n
      → IsPlaced idx (insert_node rest e n).result
  insert_node-IsPlaced idx rest e (node d p c rs) h =
      insert_at-IsPlaced e idx d p c rs rest (λ y later. insert_records (d + length p) y later e rs)
        (parse rest p 0) refl h.0 h.1
        (λ y later.
          subst
            (λ i. ArePlaced (i + length p + 1) (insert_records (d + length p) y later e rs).records)
            h.0
            (insert_records-ArePlaced (d + length p) y later e rs
              (subst (λ i. ArePlaced (i + length p + 1) rs) (sym h.0) h.1)))

  insert_records-ArePlaced :
      (idx y : ℕ) (later : List ℕ) (e : CacheEntry) (rs : CacheMap)
      → ArePlaced (idx + 1) rs
      → ArePlaced (idx + 1) (insert_records idx y later e rs).records
  insert_records-ArePlaced idx y later e nil h = new_record-ArePlaced e idx y later
  insert_records-ArePlaced idx y later e (here u old rs) h = elim (Bool-cases (u == y)) [
    | inl same ↦ rw same (store_here-ArePlaced e idx u old rs later h)
    | inr other ↦ rw other (insert_records-ArePlaced idx y later e rs h)
  ]
  insert_records-ArePlaced idx y later e (down u old n rs) h = elim (Bool-cases (u == y)) [
    | inl same ↦ rw same (
        store_down-ArePlaced e (idx + 1) u old n rs later (insert_node later e n) h.0
          (insert_node-IsPlaced (idx + 1) later e n h.0) h.1)
    | inr other ↦ rw other (h.0, insert_records-ArePlaced idx y later e rs h.1)
  ]

clear_at-IsPlaced :
    (idx d : ℕ) (p : List ℕ) (c : ℕ) (rs : CacheMap) (below : ℕ → List ℕ → CacheMap) (q : Parse)
    → d ≡ idx
    → ArePlaced (idx + length p + 1) rs
    → ((y : ℕ) (later : List ℕ) → ArePlaced (idx + length p + 1) (below y later))
    → IsPlaced idx (clear_at d p c rs below q)
unfolding clear_at IsPlaced
clear_at-IsPlaced idx d p c rs below (split i x y later) e h ih = (e, h)
clear_at-IsPlaced idx d p c rs below (passed y later) e h ih = (e, ih y later)
clear_at-IsPlaced idx d p c rs below out e h ih = (e, h)

mutual
  unfolding clear_node clear_records IsPlaced

  pub clear_node-IsPlaced :
      (idx : ℕ) (rest : List ℕ) (n : CacheNode) → IsPlaced idx n → IsPlaced idx (clear_node rest n)
  clear_node-IsPlaced idx rest (node d p c rs) h =
      clear_at-IsPlaced idx d p c rs (λ y later. clear_records y later rs) (parse rest p 0) h.0 h.1
        (λ y later. clear_records-ArePlaced (idx + length p + 1) y later rs h.1)

  clear_records-ArePlaced :
      (idx y : ℕ) (later : List ℕ) (rs : CacheMap)
      → ArePlaced idx rs
      → ArePlaced idx (clear_records y later rs)
  clear_records-ArePlaced idx y [] nil h = h
  clear_records-ArePlaced idx y (z ∷ zs) nil h = h
  clear_records-ArePlaced idx y [] (here b e rs) h = elim (Bool-cases (b == y)) [
    | inl same ↦ rw same h
    | inr other ↦ rw other (clear_records-ArePlaced idx y [] rs h)
  ]
  clear_records-ArePlaced idx y (z ∷ zs) (here b e rs) h = elim (Bool-cases (b == y)) [
    | inl same ↦ rw same h
    | inr other ↦ rw other (clear_records-ArePlaced idx y (z ∷ zs) rs h)
  ]
  clear_records-ArePlaced idx y [] (down b e n rs) h = elim (Bool-cases (b == y)) [
    | inl same ↦ rw same h
    | inr other ↦ rw other (h.0, clear_records-ArePlaced idx y [] rs h.1)
  ]
  clear_records-ArePlaced idx y (z ∷ zs) (down b e n rs) h = elim (Bool-cases (b == y)) [
    | inl same ↦ rw same (clear_node-IsPlaced idx (z ∷ zs) n h.0, h.1)
    | inr other ↦ rw other (h.0, clear_records-ArePlaced idx y (z ∷ zs) rs h.1)
  ]
