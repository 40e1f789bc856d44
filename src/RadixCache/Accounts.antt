-- ===== src/RadixCache/Accounts.antt =====
-- The accounts of the cache after every operation of src/RadixCache.cpp.
use hybrid_heterogeneous_mem.Prelude.{
  ℕ, ◌+◌, ◌≤◌, ◌≡◌, refl, false, Option, none, some, List, [], ◌∷◌, ◌==◌, ltb, arith, Bool-cases,
  Option-cases, inl, inr,
}
use hybrid_heterogeneous_mem.Address.{GlobalAddress}
use hybrid_heterogeneous_mem.Key.{Key}
use hybrid_heterogeneous_mem.Node.Page.{InternalPage}
use hybrid_heterogeneous_mem.RadixCache.Entry.{CacheEntry, make_entry}
use hybrid_heterogeneous_mem.RadixCache.Node.{
  CacheNode, CacheMap, Parse, node, nil, here, down, split, passed, out, parse, old_size, entry_of,
  entry_in,
}
use hybrid_heterogeneous_mem.RadixCache.Cache.{
  clear_at, clear_node, clear_records, RadixCache, new_cache, insert, invalidate_found, invalidate,
  rebuild, evict_from, evict, add_to_cache, page_bytes,
}
use hybrid_heterogeneous_mem.RadixCache.Sizes.{weight, weight_in, weight-insert_node}

weight-clear_at :
    (d : ℕ) (p : List ℕ) (c : ℕ) (rs : CacheMap) (below : ℕ → List ℕ → CacheMap) (q : Parse)
    → ((y : ℕ) (later : List ℕ)
        → weight_in (below y later) + old_size (entry_in y later rs) ≡ weight_in rs)
    → weight (clear_at d p c rs below q)
        + old_size (elim q [
          | out ↦ none
          | split i x y later ↦ none
          | passed y later ↦ entry_in y later rs
        ])
      ≡ c + weight_in rs
unfolding weight clear_at old_size
weight-clear_at d p c rs below (split i x y later) ih = omega arith
weight-clear_at d p c rs below (passed y later) ih = omega (arith, ih y later)
weight-clear_at d p c rs below out ih = omega arith

-- What the bytes lead to is what is taken off.
mutual
  unfolding weight clear_node clear_at entry_of entry_in old_size

  weight-clear_node :
      (rest : List ℕ) (n : CacheNode)
      → weight (clear_node rest n) + old_size (entry_of rest n) ≡ weight n
  weight-clear_node rest (node d p c rs) =
      weight-clear_at d p c rs (λ y later. clear_records y later rs) (parse rest p 0)
        (λ y later. weight_in-clear_records y later rs)

  weight_in-clear_records :
      (y : ℕ) (later : List ℕ) (rs : CacheMap)
      → weight_in (clear_records y later rs) + old_size (entry_in y later rs) ≡ weight_in rs
  weight_in-clear_records y [] nil = omega arith
  weight_in-clear_records y (z ∷ zs) nil = omega arith
  weight_in-clear_records y [] (here b e rs) = ground (arith, weight_in-clear_records y [] rs)
  weight_in-clear_records y (z ∷ zs) (here b e rs) =
      ground (arith, weight_in-clear_records y (z ∷ zs) rs)
  weight_in-clear_records y [] (down b e n rs) = ground (arith, weight_in-clear_records y [] rs)
  weight_in-clear_records y (z ∷ zs) (down b e n rs) =
      ground (arith, weight_in-clear_records y (z ∷ zs) rs, weight-clear_node (z ∷ zs) n)

-- `used` is the bytes of the nodes and of the entries that are in the cache, and no more than there are.
pub record IsAccounted (c : RadixCache) : Type 0 where
  pub accounted : c.used ≡ weight c.root
  pub fits : c.used ≤ c.capacity

invalidate_found-accounted :
    (slot : List ℕ) (e : CacheEntry) (c : RadixCache) (o : Option CacheEntry)
    → c.used ≡ weight c.root
    → weight (clear_node slot c.root) + old_size o ≡ weight c.root
    → (invalidate_found slot e c o).used ≡ weight (invalidate_found slot e c o).root
unfolding invalidate_found old_size
invalidate_found-accounted slot e c none acc w = acc
invalidate_found-accounted slot e c (some found) acc w = elim (Bool-cases (found.id == e.id)) [
  | inl same ↦ rw same (omega (arith, w))
  | inr other ↦ rw other acc
]

invalidate-accounted :
    (slot : List ℕ) (e : CacheEntry) (c : RadixCache)
    → c.used ≡ weight c.root
    → (invalidate slot e c).used ≡ weight (invalidate slot e c).root
unfolding invalidate
invalidate-accounted slot e c acc =
    invalidate_found-accounted slot e c (entry_of slot c.root) acc (weight-clear_node slot c.root)

invalidate-le :
    (slot : List ℕ) (e : CacheEntry) (c : RadixCache) → (invalidate slot e c).used ≤ c.used
unfolding invalidate invalidate_found
invalidate-le slot e c = elim (Option-cases (entry_of slot c.root)) [
  | inl none_there ↦ rw none_there (omega arith)
  | inr (found, there) ↦ rw there (ground arith)
]

invalidate-capacity :
    (slot : List ℕ) (e : CacheEntry) (c : RadixCache) → (invalidate slot e c).capacity ≡ c.capacity
unfolding invalidate invalidate_found
invalidate-capacity slot e c = elim (Option-cases (entry_of slot c.root)) [
  | inl none_there ↦ rw none_there refl
  | inr (found, there) ↦ rw there (ground arith)
]

le_of_ltb : (a b : ℕ) → ltb a b ≡ false → b ≤ a
le_of_ltb a b h = ground (arith, h)

rebuild-IsAccounted : (c : RadixCache) → IsAccounted (rebuild c)
unfolding rebuild weight
rebuild-IsAccounted c = record { accounted = omega arith; fits = omega arith }

-- Eviction makes room: it ends with the entry that brings `used` down to the capacity, or with an empty cache.
evict_from-IsAccounted :
    (l : List (List ℕ × CacheEntry)) (c : RadixCache)
    → c.used ≡ weight c.root
    → IsAccounted (evict_from l c)
unfolding evict_from
evict_from-IsAccounted [] c acc = rebuild-IsAccounted c
evict_from-IsAccounted ((slot, e) ∷ []) c acc = rebuild-IsAccounted (invalidate slot e c)
evict_from-IsAccounted ((slot, e) ∷ x ∷ xs) c acc =
    let c' = record (invalidate slot e c) { eviction_list = x ∷ xs } in
    let acc' = invalidate-accounted slot e c acc in
    elim (Bool-cases (ltb c'.capacity c'.used)) [
      | inl full ↦ rw full (evict_from-IsAccounted (x ∷ xs) c' acc')
      | inr room ↦ rw room (record { accounted = acc'; fits = le_of_ltb c'.capacity c'.used room })
    ]

-- Setting a slot to null keeps the accounts.
pub invalidate-IsAccounted :
    (slot : List ℕ) (e : CacheEntry) (c : RadixCache)
    → IsAccounted c
    → IsAccounted (invalidate slot e c)
invalidate-IsAccounted slot e c v = record {
  accounted = invalidate-accounted slot e c v.accounted;
  fits = omega (arith, v.fits, invalidate-le slot e c, invalidate-capacity slot e c);
}

insert-accounted :
    (bytes : List ℕ) (e : CacheEntry) (c : RadixCache)
    → c.used ≡ weight c.root
    → (insert bytes e c).used ≡ weight (insert bytes e c).root
unfolding insert
insert-accounted bytes e c acc = omega (arith, weight-insert_node bytes e c.root)

evict-IsAccounted : (c : RadixCache) → c.used ≡ weight c.root → IsAccounted (evict c)
unfolding evict
evict-IsAccounted c acc = evict_from-IsAccounted c.eviction_list c acc

-- `add_to_cache`, whatever the page is.
pub add_to_cache-IsAccounted :
    (now : ℕ) (k : Key) (page : InternalPage) (addr : GlobalAddress) (c : RadixCache)
    → IsAccounted c
    → IsAccounted (add_to_cache now k page addr c)
unfolding add_to_cache
add_to_cache-IsAccounted now k page addr c v =
    let e = make_entry c.next_id now page addr in
    let c' = record (insert (page_bytes k page) e c) { next_id = c.next_id + 1 } in
    let acc = insert-accounted (page_bytes k page) e c v.accounted in
    elim (Bool-cases (page.hdr.depth == 1)) [
      | inl root_page ↦ rw root_page v
      | inr below ↦ elim (Bool-cases (ltb c'.capacity c'.used)) [
        | inl full ↦ rw (below, full) (evict-IsAccounted c' acc)
        | inr room ↦
            rw (below, room) (record { accounted = acc; fits = le_of_ltb c'.capacity c'.used room })
      ]
    ]

pub new_cache-IsAccounted : (capacity : ℕ) → IsAccounted (new_cache capacity)
unfolding new_cache weight
new_cache-IsAccounted capacity = record { accounted = omega arith; fits = omega arith }
