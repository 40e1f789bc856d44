-- ===== src/NormalCache/Accounts.antt =====
-- What `free_size` of src/NormalCache.cpp counts.
use hybrid_heterogeneous_mem.Prelude.{
  ℕ, ◌+◌, ◌*◌, ◌≤◌, ◌≡◌, refl, Option, none, some, List, [], ◌∷◌, ◌==◌, arith, Bool-cases,
  Option-cases, inl, inr,
}
use hybrid_heterogeneous_mem.RadixCache.Entry.{CacheEntry, entry_size}
use hybrid_heterogeneous_mem.NormalCache.{
  Slots, held, set_slot, NormalCache, used_after, insert, invalidate_found, invalidate, evict_one,
}

-- A pointer, an entry and a key.
unfoldable pub cost : Option CacheEntry → ℕ
cost none = 0
cost (some e) = 8 + entry_size e + 8

unfoldable pub weight : Slots → ℕ
unfolding cost
weight [] = 0
weight ((b, o) ∷ m) = cost o + weight m

weight-set_slot :
    (bytes : List ℕ) (v : Option CacheEntry) (m : Slots)
    → weight (set_slot bytes v m) + cost (held bytes m) ≡ weight m + cost v
unfolding weight set_slot held cost
weight-set_slot bytes v [] = omega arith
weight-set_slot bytes v ((b, o) ∷ m) = ground (arith, weight-set_slot bytes v m)

-- The pointers of the entries that were replaced, `n` of them, are never given back.
abbrev pub Drifts : ℕ → NormalCache → Type 0
Drifts n c = c.used ≡ weight c.cache_map + 8 * n

-- The entries that an insertion replaces: none or one.
unfoldable pub replaced : Option CacheEntry → ℕ
replaced none = 0
replaced (some e) = 1

used_after-weight :
    (n used w w' : ℕ) (e : CacheEntry) (o : Option CacheEntry)
    → used ≡ w + 8 * n
    → w' + cost o ≡ w + (8 + entry_size e + 8)
    → used_after used e o ≡ w' + 8 * (n + replaced o)
unfolding used_after replaced cost
used_after-weight n used w w' e none acc h = omega (arith, acc, h)
used_after-weight n used w w' e (some old) acc h = omega (arith, acc, h)

pub insert-Drifts :
    (n : ℕ) (bytes : List ℕ) (e : CacheEntry) (c : NormalCache)
    → Drifts n c
    → Drifts (n + replaced (held bytes c.cache_map)) (insert bytes e c)
unfolding insert cost
insert-Drifts n bytes e c acc =
    used_after-weight n c.used (weight c.cache_map) (weight (set_slot bytes (some e) c.cache_map)) e
      (held bytes c.cache_map) acc (weight-set_slot bytes (some e) c.cache_map)

invalidate_found-Drifts :
    (n : ℕ) (slot : List ℕ) (e : CacheEntry) (c : NormalCache) (o : Option CacheEntry)
    → Drifts n c
    → weight (set_slot slot none c.cache_map) + cost o ≡ weight c.cache_map + 0
    → Drifts n (invalidate_found slot e c o)
unfolding invalidate_found cost
invalidate_found-Drifts n slot e c none acc h = acc
invalidate_found-Drifts n slot e c (some found) acc h = elim (Bool-cases (found.id == e.id)) [
  | inl same ↦ rw same (omega (arith, acc, h))
  | inr other ↦ rw other acc
]

pub invalidate-Drifts :
    (n : ℕ) (slot : List ℕ) (e : CacheEntry) (c : NormalCache)
    → Drifts n c
    → Drifts n (invalidate slot e c)
unfolding invalidate cost
invalidate-Drifts n slot e c acc =
    invalidate_found-Drifts n slot e c (held slot c.cache_map) acc
      (weight-set_slot slot none c.cache_map)

pub evict_one-Drifts :
    (n : ℕ) (l : List (List ℕ × CacheEntry)) (c : NormalCache)
    → Drifts n c
    → Drifts n (evict_one l c)
unfolding evict_one
evict_one-Drifts n [] c acc = acc
evict_one-Drifts n ((slot, e) ∷ l) c acc =
    invalidate-Drifts n slot e (record c { eviction_list = l }) acc

pub invalidate-capacity :
    (slot : List ℕ) (e : CacheEntry) (c : NormalCache) → (invalidate slot e c).capacity ≡ c.capacity
unfolding invalidate invalidate_found
invalidate-capacity slot e c = elim (Option-cases (held slot c.cache_map)) [
  | inl missing ↦ rw missing refl
  | inr (found, there) ↦
      rw there (elim (Bool-cases (found.id == e.id)) [
        | inl same ↦ rw same refl
        | inr other ↦ rw other refl
      ])
]

pub evict_one-capacity :
    (l : List (List ℕ × CacheEntry)) (c : NormalCache) → (evict_one l c).capacity ≡ c.capacity
unfolding evict_one
evict_one-capacity [] c = refl
evict_one-capacity ((slot, e) ∷ l) c = invalidate-capacity slot e (record c { eviction_list = l })

pub cost-held : (bytes : List ℕ) (m : Slots) → cost (held bytes m) ≤ weight m
unfolding weight held cost
cost-held bytes [] = omega arith
cost-held bytes ((b, o) ∷ m) = ground (arith, cost-held bytes m)

pub invalidate-used :
    (slot : List ℕ) (e : CacheEntry) (c : NormalCache) → (invalidate slot e c).used ≤ c.used
unfolding invalidate invalidate_found
invalidate-used slot e c = elim (Option-cases (held slot c.cache_map)) [
  | inl missing ↦ rw missing (omega arith)
  | inr (found, there) ↦ rw there (elim (Bool-cases (found.id == e.id)) [
    | inl same ↦ rw same (omega arith)
    | inr other ↦ rw other (omega arith)
  ])
]
