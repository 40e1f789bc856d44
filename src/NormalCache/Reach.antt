-- ===== src/NormalCache/Reach.antt =====
-- The caches that the operations of src/NormalCache.cpp lead to.
use hybrid_heterogeneous_mem.Prelude.{
  ℕ, zero, suc, ◌+◌, ◌*◌, ◌≤◌, ◌≡◌, refl, sym, ◌∙◌, subst, Option, none, some, List, [], ◌∷◌,
  length, take, ltb, get_or, arith, length-append, Bool-cases, Option-cases, inl, inr,
}
use mathlib.Core.List.Memᴰ.{head, append_left, append_right}
use hybrid_heterogeneous_mem.Address.{GlobalAddress}
use hybrid_heterogeneous_mem.Key.{Key}
use hybrid_heterogeneous_mem.LockTable.Slot.{eq_key, eq_key→eq}
use hybrid_heterogeneous_mem.Node.Page.{InternalPage}
use hybrid_heterogeneous_mem.Tree.Client.{find_slot}
use hybrid_heterogeneous_mem.RadixCache.Entry.{CacheEntry, make_entry, is_expired}
use hybrid_heterogeneous_mem.NormalCache.{
  held, NormalCache, new_cache, insert, invalidate, evict, page_bytes, add_page, add_to_cache,
  CacheHit, try_prefix, search_upper, search_from_cache,
}
use hybrid_heterogeneous_mem.NormalCache.Accounts.{
  weight, cost, cost-held, replaced, insert-Drifts, invalidate-used, invalidate-capacity,
}
use hybrid_heterogeneous_mem.NormalCache.Slots.{IsMap, held-set_slot, set_slot-IsMap}
use hybrid_heterogeneous_mem.NormalCache.Evict.{
  Listed, IsSound, invalidate-IsSound, evict-ends, evict-IsSound,
}

-- The cache `c` after calls on a new one, which replaced `n` entries by others.
pub data Reach (capacity : ℕ) : ℕ → NormalCache → Type 0 where
  started : {n : ℕ} {c : NormalCache} → n ≡ 0 → c ≡ new_cache capacity → Reach capacity n c
  added :
      {n n' : ℕ} {c c' : NormalCache} (rounds now : ℕ) (k : Key) (page : InternalPage)
      (addr : GlobalAddress)
      → Reach capacity n c
      → n' ≡ n + replaced (held (page_bytes k page) c.cache_map)
      → add_to_cache rounds now k page addr c ≡ some c'
      → Reach capacity n' c'
  searched :
      {n : ℕ} {c c' : NormalCache} (now : ℕ) (k : Key)
      → Reach capacity n c
      → c' ≡ (search_from_cache now k c).1
      → Reach capacity n c'
  invalidated :
      {n : ℕ} {c c' : NormalCache} (slot : List ℕ) (e : CacheEntry)
      → Reach capacity n c
      → c' ≡ invalidate slot e c
      → Reach capacity n c'

-- What holds between two calls: the accounts, and that there is room.
record IsValid (capacity n : ℕ) (c : NormalCache) : Type 0 where
  sound : IsSound n c
  fits : c.used ≤ capacity
  room : c.capacity ≡ capacity

invalidate-IsValid :
    {capacity n : ℕ} (slot : List ℕ) (e : CacheEntry) (c : NormalCache)
    → IsValid capacity n c
    → IsValid capacity n (invalidate slot e c)
invalidate-IsValid {n = n} slot e c h = record {
  sound = invalidate-IsSound n slot e c h.sound;
  fits = omega (arith, invalidate-used slot e c, h.fits);
  room = invalidate-capacity slot e c ∙ h.room;
}

-- A property that every setting of a slot to null keeps is kept by a search.
module _ (P : NormalCache → Type 0)
    (keep : (slot : List ℕ) (e : CacheEntry) (c : NormalCache) → P c → P (invalidate slot e c))
    (now : ℕ) (k : Key) where
  try_prefix-keeps :
      (j : ℕ) (o : Option CacheEntry) (c : NormalCache)
      (upper : NormalCache → Option CacheHit × NormalCache)
      → P c
      → ((c' : NormalCache) → P c' → P (upper c').1)
      → P (try_prefix now k j o c upper).1
  unfolding try_prefix
  try_prefix-keeps j none c upper h up = up c h
  try_prefix-keeps j (some e) c upper h up = elim (Bool-cases (is_expired now e)) [
    | inl old ↦ rw (try_prefix, old) (up (invalidate (take j k) e c) (keep (take j k) e c h))
    | inr young ↦ elim (Option-cases (find_slot e.records (get_or k j 0) 0 (length e.records))) [
      | inl missing ↦ rw (try_prefix, young, missing) (up c h)
      | inr (i, found) ↦ rw (try_prefix, young, found) h
    ]
  ]

  search_upper-keeps : (n : ℕ) (c : NormalCache) → P c → P (search_upper now k n c).1
  unfolding search_upper
  search_upper-keeps zero c h =
      try_prefix-keeps 0 (held (take 0 k) c.cache_map) c (λ c'. (none, c')) h (λ c' h'. h')
  search_upper-keeps (suc n) c h =
      try_prefix-keeps (suc n) (held (take (suc n) k) c.cache_map) c (λ c'. search_upper now k n c')
        h (λ c' h'. search_upper-keeps n c' h')

search-keeps :
    (now : ℕ) (k : Key) (P : NormalCache → Type 0)
    → ((slot : List ℕ) (e : CacheEntry) (c : NormalCache) → P c → P (invalidate slot e c))
    → (c : NormalCache) → P c
    → P (search_from_cache now k c).1
unfolding search_from_cache
search-keeps now k P keep c h = search_upper-keeps P keep now k 7 c h

insert-Listed :
    (bytes : List ℕ) (e : CacheEntry) (c : NormalCache) → Listed c → Listed (insert bytes e c)
unfolding insert
insert-Listed bytes e c h b x there =
    let back = sym (held-set_slot bytes (some e) b c.cache_map) ∙ there in
    elim (Bool-cases (eq_key bytes b)) [
      | inl same ↦
          let new = rw same at back in
          append_right c.eviction_list (head (cc (eq_key→eq bytes b same, new)))
      | inr other ↦ append_left ((bytes, e) ∷ []) (h b x (rw other at back))
    ]

add_page-IsSound :
    (n now : ℕ) (k : Key) (page : InternalPage) (addr : GlobalAddress) (c : NormalCache)
    → IsSound n c
    → IsSound (n + replaced (held (page_bytes k page) c.cache_map)) (add_page now k page addr c)
unfolding add_page insert
add_page-IsSound n now k page addr c h =
    let bytes = page_bytes k page in
    let e = make_entry c.next_id now page addr in
    record {
      accounts = insert-Drifts n bytes e c h.accounts;
      slots = set_slot-IsMap bytes (some e) c.cache_map h.slots;
      listed = insert-Listed bytes e c h.listed;
    }

add_page-capacity :
    (now : ℕ) (k : Key) (page : InternalPage) (addr : GlobalAddress) (c : NormalCache)
    → (add_page now k page addr c).capacity ≡ c.capacity
unfolding add_page insert
add_page-capacity now k page addr c = refl

add_page-eviction_list :
    (now : ℕ) (k : Key) (page : InternalPage) (addr : GlobalAddress) (c : NormalCache)
    → length (add_page now k page addr c).eviction_list ≡ length c.eviction_list + 1
unfolding add_page insert
add_page-eviction_list now k page addr c =
    length-append c.eviction_list ((page_bytes k page, make_entry c.next_id now page addr) ∷ [])

replaced_le : (o : Option CacheEntry) → 8 * replaced o ≤ cost o
unfolding replaced cost
replaced_le none = omega arith
replaced_le (some e) = omega arith

-- There is always room for the pointers that are lost.
add_page-room :
    {capacity n : ℕ} (now : ℕ) (k : Key) (page : InternalPage) (addr : GlobalAddress)
    (c : NormalCache)
    → IsValid capacity n c
    → 8 * (n + replaced (held (page_bytes k page) c.cache_map))
      ≤ (add_page now k page addr c).capacity
unfolding add_page insert
add_page-room now k page addr c h =
    let o = held (page_bytes k page) c.cache_map in
    omega (
      arith,
      replaced_le o,
      cost-held (page_bytes k page) c.cache_map,
      h.sound.accounts,
      h.fits,
      h.room,
    )

add_to_cache-IsValid :
    {capacity n : ℕ} (rounds now : ℕ) (k : Key) (page : InternalPage) (addr : GlobalAddress)
    (c : NormalCache) {c' : NormalCache}
    → IsValid capacity n c
    → add_to_cache rounds now k page addr c ≡ some c'
    → IsValid capacity (n + replaced (held (page_bytes k page) c.cache_map)) c'
unfolding add_to_cache
add_to_cache-IsValid {capacity} {n} rounds now k page addr c {c'} h e =
    let more = add_page now k page addr c in
    let m = n + replaced (held (page_bytes k page) c.cache_map) in
    let sound = add_page-IsSound n now k page addr c h.sound in
    let same : more.capacity ≡ capacity = add_page-capacity now k page addr c ∙ h.room in
    elim (Bool-cases (ltb more.capacity more.used)) [
      | inl full ↦
          let (sound', fits, same') = evict-IsSound m rounds more sound (rw full at e) in
          record { sound = sound'; fits = omega (arith, fits, same', same); room = same' ∙ same }
      | inr here ↦
          let end : more ≡ c' = cc (rw here at e) in
          let fits : more.used ≤ capacity = ground (arith, here, same) in
          subst (IsValid capacity m) end (record { sound = sound; fits = fits; room = same })
    ]

new_cache-IsValid : (capacity : ℕ) → IsValid capacity 0 (new_cache capacity)
unfolding new_cache weight IsMap held
new_cache-IsValid capacity = record {
  sound = record { accounts = refl; slots = tt; listed = λ b e there. absurd cc };
  fits = omega arith;
  room = refl;
}

Reach-IsValid : {capacity n : ℕ} {c : NormalCache} → Reach capacity n c → IsValid capacity n c
Reach-IsValid {capacity} {c = c} (started none_yet e) =
    subst (λ n. IsValid capacity n c) (sym none_yet)
      (subst (IsValid capacity 0) (sym e) (new_cache-IsValid capacity))
Reach-IsValid {capacity} (added {c = c} {c' = c'} rounds now k page addr r more e) =
    subst (λ n. IsValid capacity n c') (sym more)
      (add_to_cache-IsValid rounds now k page addr c (Reach-IsValid r) e)
Reach-IsValid {capacity} {n} (searched {c = c} now k r e) =
    subst (IsValid capacity n) (sym e)
      (search-keeps now k (IsValid capacity n) invalidate-IsValid c (Reach-IsValid r))
Reach-IsValid {capacity} {n} (invalidated {c = c} slot e r eq) =
    subst (IsValid capacity n) (sym eq) (invalidate-IsValid slot e c (Reach-IsValid r))

-- After calls on a new cache of which `n` replaced an entry by another: what `free_size` lacks of the capacity is a
-- pointer, the content and a key for each entry in the map, and a pointer more for each of the `n` calls, which is
-- never given back; and `free_size` is not negative.
pub Reach-accounts :
    {capacity n : ℕ} {c : NormalCache}
    → Reach capacity n c
    → (c.used ≡ weight c.cache_map + 8 * n) × (c.used ≤ capacity)
Reach-accounts r = let h = Reach-IsValid r in (h.sound.accounts, h.fits)

-- After any calls on a new cache, `add_to_cache` ends, its eviction with at most two rounds more than the list of
-- evictions has pairs, and `free_size` is not negative then.
pub add_to_cache-ends :
    {capacity n : ℕ} {c : NormalCache} (now : ℕ) (k : Key) (page : InternalPage)
    (addr : GlobalAddress)
    → Reach capacity n c
    → (c' : NormalCache) × ((add_to_cache (length c.eviction_list + 2) now k page addr c ≡ some c')
        × (c'.used ≤ capacity))
unfolding add_to_cache
add_to_cache-ends {capacity} {n} {c} now k page addr r =
    let h = Reach-IsValid r in
    let more = add_page now k page addr c in
    let m = n + replaced (held (page_bytes k page) c.cache_map) in
    let same : more.capacity ≡ capacity = add_page-capacity now k page addr c ∙ h.room in
    elim (Bool-cases (ltb more.capacity more.used)) [
      | inl full ↦
          let (c', (ends, sound, fits, same')) =
            evict-ends m more.eviction_list more refl (add_page-room now k page addr c h)
              (add_page-IsSound n now k page addr c h.sound) in
          let rounds : suc (length more.eviction_list) ≡ length c.eviction_list + 2 =
            omega (arith, add_page-eviction_list now k page addr c) in
          (
            c',
            (
              rw full (subst (λ x. evict x more ≡ some c') rounds ends),
              omega (arith, fits, same', same),
            ),
          )
      | inr here ↦ (more, (rw here refl, ground (arith, here, same)))
    ]
