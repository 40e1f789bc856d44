-- ===== src/RadixCache/Reach.antt =====
-- The caches that the operations of src/RadixCache.cpp lead to.
use hybrid_heterogeneous_mem.Prelude.{
  ℕ, ◌+◌, ◌≡◌, refl, sym, subst, List, [], ◌∷◌, ◌==◌, ltb, length, get_or, take, Bool-cases,
  Option-cases, inl, inr, ◌⊎◌, ap, ◌∙◌, ◌≤◌,
}
use hybrid_heterogeneous_mem.Address.{GlobalAddress}
use hybrid_heterogeneous_mem.Key.{Key, IsKey}
use hybrid_heterogeneous_mem.Node.Page.{InternalPage}
use hybrid_heterogeneous_mem.Tree.Client.{find_slot}
use hybrid_heterogeneous_mem.RadixCache.Entry.{CacheEntry, make_entry, is_expired}
use hybrid_heterogeneous_mem.RadixCache.Node.{insert_node, CacheNode, entry_of}
use hybrid_heterogeneous_mem.RadixCache.Placed.{IsPlaced, insert_node-IsPlaced, clear_node-IsPlaced}
use hybrid_heterogeneous_mem.RadixCache.Accounts.{
  IsAccounted, new_cache-IsAccounted, add_to_cache-IsAccounted, invalidate-IsAccounted,
}
use hybrid_heterogeneous_mem.RadixCache.Sizes.{weight}
use hybrid_heterogeneous_mem.RadixCache.Charged.{
  content, IsRoot, insert_node-IsRoot, clear_node-IsRoot, weight-content,
}
use hybrid_heterogeneous_mem.RadixCache.Cache.{
  new_root, clear_node, RadixCache, new_cache, insert, invalidate_found, invalidate, rebuild,
  evict_from, evict, page_bytes, add_to_cache, SearchRet, take_hit, search_node, search_from_cache,
}
use hybrid_heterogeneous_mem.RadixCache.Longest.{try_upper}
use hybrid_heterogeneous_mem.RadixCache.Search.{search_from_cache-try_upper}

pub data Reach (capacity : ℕ) : RadixCache → Type 0 where
  started : {c : RadixCache} → c ≡ new_cache capacity → Reach capacity c
  added :
      {c c' : RadixCache} (now : ℕ) (k : Key) (page : InternalPage) (addr : GlobalAddress)
      → Reach capacity c
      → c' ≡ add_to_cache now k page addr c
      → Reach capacity c'
  searched :
      {c c' : RadixCache} (now : ℕ) (k : Key)
      → Reach capacity c
      → c' ≡ (search_from_cache now k c).1
      → Reach capacity c'
  invalidated :
      {c c' : RadixCache} (slot : List ℕ) (e : CacheEntry)
      → Reach capacity c
      → c' ≡ invalidate slot e c
      → Reach capacity c'

-- A property that every setting of a slot to null keeps is kept by a search.
take_hit-keeps :
    (P : RadixCache → Type 0)
    → ((slot : List ℕ) (e : CacheEntry) (c : RadixCache) → P c → P (invalidate slot e c))
    → (now : ℕ) (k : Key) (ret : List SearchRet) (c : RadixCache) → P c
    → P (take_hit now k ret c).1
unfolding take_hit
take_hit-keeps P keep now k [] c h = h
take_hit-keeps P keep now k (r ∷ ret) c h = elim (Option-cases r.entry) [
  | inl e ↦ simp (take_hit, e) (take_hit-keeps P keep now k ret c h)
  | inr (e, there) ↦ elim (Bool-cases (is_expired now e)) [
    | inl old ↦
        simp (take_hit, there, old)
          (take_hit-keeps P keep now k ret (invalidate r.slot e c) (keep r.slot e c h))
    | inr young ↦
        elim (Option-cases (find_slot e.records (get_or k r.next_idx 0) 0 (length e.records))) [
          | inl missing ↦
              simp (take_hit, there, young, missing) (take_hit-keeps P keep now k ret c h)
          | inr (i, found) ↦ simp (take_hit, there, young, found) h
        ]
  ]
]

search-keeps :
    (P : RadixCache → Type 0)
    → ((slot : List ℕ) (e : CacheEntry) (c : RadixCache) → P c → P (invalidate slot e c))
    → (now : ℕ) (k : Key) (c : RadixCache) → P c
    → P (search_from_cache now k c).1
unfolding search_from_cache
search-keeps P keep now k c h =
    take_hit-keeps P keep now k (search_node (take 7 k) (take 7 k) c.root []) c h

-- A property of the root that a new root has, and that insertions and settings to null keep.
module _ (P : CacheNode → Type 0) (fresh : P new_root)
    (put : (rest : List ℕ) (e : CacheEntry) (n : CacheNode) → P n → P (insert_node rest e n).result)
    (clear : (rest : List ℕ) (n : CacheNode) → P n → P (clear_node rest n)) where
  abbrev Root : RadixCache → Type 0
  Root c = P c.root

  invalidate-Root :
      (slot : List ℕ) (e : CacheEntry) (c : RadixCache) → Root c → Root (invalidate slot e c)
  unfolding invalidate invalidate_found
  invalidate-Root slot e c h = elim (Option-cases (entry_of slot c.root)) [
    | inl missing ↦ rw missing h
    | inr (found, there) ↦ elim (Bool-cases (found.id == e.id)) [
      | inl same ↦ rw (there, same) (clear slot c.root h)
      | inr other ↦ rw (there, other) h
    ]
  ]

  rebuild-Root : (c : RadixCache) → Root (rebuild c)
  unfolding rebuild
  rebuild-Root c = fresh

  evict_from-Root :
      (l : List (List ℕ × CacheEntry)) (c : RadixCache) → Root c → Root (evict_from l c)
  unfolding evict_from
  evict_from-Root [] c h = rebuild-Root c
  evict_from-Root ((slot, e) ∷ []) c h = rebuild-Root (invalidate slot e c)
  evict_from-Root ((slot, e) ∷ x ∷ xs) c h =
      let c' = record (invalidate slot e c) { eviction_list = x ∷ xs } in
      let h' = invalidate-Root slot e c h in
      elim (Bool-cases (ltb c'.capacity c'.used)) [
        | inl full ↦ rw full (evict_from-Root (x ∷ xs) c' h')
        | inr room ↦ rw room h'
      ]

  add_to_cache-Root :
      (now : ℕ) (k : Key) (page : InternalPage) (addr : GlobalAddress) (c : RadixCache)
      → Root c
      → Root (add_to_cache now k page addr c)
  unfolding add_to_cache insert evict
  add_to_cache-Root now k page addr c h =
      let e = make_entry c.next_id now page addr in
      let c' = record (insert (page_bytes k page) e c) { next_id = c.next_id + 1 } in
      let stored = put (page_bytes k page) e c.root h in
      elim (Bool-cases (page.hdr.depth == 1)) [
        | inl root_page ↦ rw root_page h
        | inr below ↦ elim (Bool-cases (ltb c'.capacity c'.used)) [
          | inl full ↦ rw (below, full) (evict_from-Root c'.eviction_list c' stored)
          | inr room ↦ rw (below, room) stored
        ]
      ]

  new_cache-Root : (capacity : ℕ) → Root (new_cache capacity)
  unfolding new_cache
  new_cache-Root capacity = fresh

  Reach-Root : {capacity : ℕ} {c : RadixCache} → Reach capacity c → Root c
  Reach-Root {capacity} (started e) = subst Root (sym e) (new_cache-Root capacity)
  Reach-Root (added {c = c} now k page addr r e) =
      subst Root (sym e) (add_to_cache-Root now k page addr c (Reach-Root r))
  Reach-Root (searched {c = c} now k r e) =
      subst Root (sym e) (search-keeps Root invalidate-Root now k c (Reach-Root r))
  Reach-Root (invalidated {c = c} slot e r eq) =
      subst Root (sym eq) (invalidate-Root slot e c (Reach-Root r))

new_root-IsPlaced : IsPlaced 0 new_root
unfolding IsPlaced
new_root-IsPlaced = (refl, tt)

Reach-AtPlace : {capacity : ℕ} {c : RadixCache} → Reach capacity c → IsPlaced 0 c.root
Reach-AtPlace r =
    Reach-Root (IsPlaced 0) new_root-IsPlaced (insert_node-IsPlaced 0) (clear_node-IsPlaced 0) r

Reach-IsAccounted : {capacity : ℕ} {c : RadixCache} → Reach capacity c → IsAccounted c
Reach-IsAccounted {capacity} (started e) =
    subst IsAccounted (sym e) (new_cache-IsAccounted capacity)
Reach-IsAccounted (added {c = c} now k page addr r e) =
    subst IsAccounted (sym e) (add_to_cache-IsAccounted now k page addr c (Reach-IsAccounted r))
Reach-IsAccounted (searched {c = c} now k r e) =
    subst IsAccounted (sym e)
      (search-keeps IsAccounted invalidate-IsAccounted now k c (Reach-IsAccounted r))
Reach-IsAccounted (invalidated {c = c} slot e r eq) =
    subst IsAccounted (sym eq) (invalidate-IsAccounted slot e c (Reach-IsAccounted r))

-- What a cache has used is the bytes of its nodes and entries, or nothing with the root as it was made; and it
-- is no more than the capacity.
pub record IsValid (c : RadixCache) : Type 0 where
  pub accounted : (c.used ≡ content c.root) ⊎ ((c.used ≡ 0) × (c.root ≡ new_root))
  pub fits : c.used ≤ c.capacity

new_root-weight : weight new_root ≡ 0
unfolding weight
new_root-weight = refl

-- After any calls of `add_to_cache`, `search_from_cache` and `invalidate` on a new cache: what `free_size` lacks of the
-- capacity is the bytes of all nodes in the tree, by the lengths of their paths and the numbers of their records,
-- and of all entries that they hold, but nothing while the root is still as it was made; and `free_size` is not
-- negative.
pub Reach-IsValid : {capacity : ℕ} {c : RadixCache} → Reach capacity c → IsValid c
Reach-IsValid {c = c} r =
    let h = Reach-IsAccounted r in
    record {
      accounted = elim (Reach-Root IsRoot (inl refl) insert_node-IsRoot clear_node-IsRoot r) [
        | inl fresh ↦ inr (h.accounted ∙ (ap weight fresh ∙ new_root-weight), fresh)
        | inr charged ↦ inl (h.accounted ∙ weight-content c.root charged)
      ];
      fits = h.fits;
    }

-- After any calls on a new cache, a search of a key gives what the loop of the page cache gives over the entries
-- that the nodes hold: the slot, the entry and the record of the longest prefix of at most seven bytes whose entry
-- is not expired and has a record of the next byte, or nothing if no prefix has one.
pub search-longest :
    {capacity : ℕ} {c : RadixCache} (now : ℕ) (k : Key)
    → Reach capacity c
    → IsKey k
    → (search_from_cache now k c).0 ≡ try_upper now k (λ b. entry_of b c.root) 7
search-longest {c = c} now k r key = search_from_cache-try_upper now k c key (Reach-AtPlace r)
