-- ===== src/RadixCache/Longest.antt =====
-- The loop of `_search` of src/NormalCache.cpp without what it does to expired entries: it tries the prefixes of
-- a key from the longest on. The stack of `_search` of src/RadixCache.cpp is compared with it.
use hybrid_heterogeneous_mem.Prelude.{
  ℕ, zero, suc, ◌+◌, ◌≤◌, ◌<◌, ◌≡◌, refl, ap, true, false, Option, none, some, List, [], ◌∷◌, ◌==◌,
  length, take, get_or, arith, Bool-cases, Option-cases, inl, inr,
}
use hybrid_heterogeneous_mem.Key.{Key}
use hybrid_heterogeneous_mem.Tree.Client.{find_slot}
use hybrid_heterogeneous_mem.RadixCache.Entry.{CacheEntry, is_expired}
use hybrid_heterogeneous_mem.RadixCache.Node.{Parse, split, passed, out}
use hybrid_heterogeneous_mem.RadixCache.Header.{strip, passed_of}
use hybrid_heterogeneous_mem.RadixCache.Cache.{
  RadixCache, SearchRet, CacheHit, search_at, take_hit, invalidate,
}

module _ (now : ℕ) (k : Key) where
  -- The entry of a prefix of `j` bytes, if it is there, not expired and has a record of the next byte.
  unfoldable pub hit_at : List ℕ → Option CacheEntry → ℕ → Option CacheHit → Option CacheHit
  hit_at slot none j other = other
  hit_at slot (some e) j other = elim (is_expired now e) [
    | true ↦ other
    | false ↦ elim (find_slot e.records (get_or k j 0) 0 (length e.records)) [
      | none ↦ other
      | some i ↦ some (slot, e, i)
    ]
  ]

  -- The prefixes of `j` bytes and less, the longest first.
  unfoldable pub try_upper : (List ℕ → Option CacheEntry) → ℕ → Option CacheHit
  unfolding hit_at
  try_upper held zero = hit_at [] (held []) 0 none
  try_upper held (suc j) =
      hit_at (take (suc j) k) (held (take (suc j) k)) (suc j) (try_upper held j)

  -- What the stack gives, without what becomes of expired entries.
  unfoldable pub choose : List SearchRet → Option CacheHit
  choose [] = none
  choose (r ∷ ret) = hit_at r.slot r.entry r.next_idx (choose ret)

  pub take_hit-choose :
      (ret : List SearchRet) (c : RadixCache) → (take_hit now k ret c).0 ≡ choose ret
  unfolding take_hit choose hit_at
  take_hit-choose [] c = refl
  take_hit-choose (r ∷ ret) c = elim (Option-cases r.entry) [
    | inl e ↦ simp (take_hit, choose, hit_at, e) (take_hit-choose ret c)
    | inr (e, there) ↦ elim (Bool-cases (is_expired now e)) [
      | inl old ↦
          simp (take_hit, choose, hit_at, there, old) (take_hit-choose ret (invalidate r.slot e c))
      | inr young ↦
          elim (Option-cases (find_slot e.records (get_or k r.next_idx 0) 0 (length e.records))) [
            | inl missing ↦
                simp (take_hit, choose, hit_at, there, young, missing) (take_hit-choose ret c)
            | inr (i, found) ↦ simp (take_hit, choose, hit_at, there, young, found) refl
          ]
    ]
  ]

  -- The prefixes of `n` bytes and less behind the first `idx`, the longest first.
  unfoldable pub over : List ℕ → (ℕ → Option CacheEntry) → ℕ → ℕ → Option CacheHit → Option CacheHit
  over bytes f idx zero o = o
  over bytes f idx (suc r) o =
      hit_at (take (idx + suc r) bytes) (f (suc r)) (idx + suc r) (over bytes f idx r o)

  pub over-none :
      (bytes : List ℕ) (f : ℕ → Option CacheEntry) (idx n : ℕ) (o : Option CacheHit)
      → ((r : ℕ) → r < n → f (suc r) ≡ none)
      → over bytes f idx n o ≡ o
  unfolding over hit_at
  over-none bytes f idx zero o h = refl
  over-none bytes f idx (suc n) o h =
      rw (h n (omega arith)) (over-none bytes f idx n o (λ r lt. h r (omega arith)))

  pub over-ext :
      (bytes : List ℕ) (f g : ℕ → Option CacheEntry) (idx n : ℕ) (o : Option CacheHit)
      → ((r : ℕ) → r < n → f (suc r) ≡ g (suc r))
      → over bytes f idx n o ≡ over bytes g idx n o
  unfolding over
  over-ext bytes f g idx zero o h = refl
  over-ext bytes f g idx (suc n) o h =
      rw (h n (omega arith), over-ext bytes f g idx n o (λ r lt. h r (omega arith))) refl

  pub over-split :
      (bytes : List ℕ) (f : ℕ → Option CacheEntry) (idx a s n : ℕ) (o : Option CacheHit)
      → n ≡ a + s
      → over bytes f idx n o ≡ over bytes (λ r. f (a + r)) (idx + a) s (over bytes f idx a o)
  unfolding over
  over-split bytes f idx a zero n o e = let same : n ≡ a = omega (arith, e) in rw same refl
  over-split bytes f idx a (suc s) zero o e = absurd (omega (arith, e))
  over-split bytes f idx a (suc s) (suc n) o e =
      let here : suc n ≡ a + suc s = e in
      let place : idx + suc n ≡ idx + a + suc s = omega (arith, e) in
      let rest = over-split bytes f idx a s n o (omega (arith, e)) in rw (rest, place, here) refl

pub strip-take-none : (r : ℕ) (t p : List ℕ) → strip t p ≡ none → strip (take r t) p ≡ none
unfolding strip
strip-take-none zero t p e = refl
strip-take-none (suc r) [] p e = refl
strip-take-none (suc r) (y ∷ ys) [] e = absurd cc
strip-take-none (suc r) (y ∷ ys) (x ∷ xs) e = elim (Bool-cases (y == x)) [
  | inl same ↦ rw same (strip-take-none r ys xs (rw same at e))
  | inr other ↦ rw other refl
]

pub strip-take-short : (r : ℕ) (t p : List ℕ) → r ≤ length p → strip (take r t) p ≡ none
unfolding strip
strip-take-short zero t p le = refl
strip-take-short (suc r) [] p le = refl
strip-take-short (suc r) (y ∷ ys) [] le = absurd (omega arith)
strip-take-short (suc r) (y ∷ ys) (x ∷ xs) le = ground (arith, strip-take-short r ys xs)

pub strip-take-long :
    (n r : ℕ) (t p : List ℕ) (y : ℕ) (later : List ℕ)
    → n ≡ length p + r
    → strip t p ≡ some (y, later)
    → strip (take (suc n) t) p ≡ some (y, take r later)
unfolding strip
strip-take-long n r [] p y later h e = absurd cc
strip-take-long n r (b ∷ bs) [] y later h e =
    let same : n ≡ r = omega (arith, h) in rw same (ap (λ (o : Option (ℕ × List ℕ)). taken o) e)
  where
    taken : Option (ℕ × List ℕ) → Option (ℕ × List ℕ)
    taken none = none
    taken (some (c, l)) = some (c, take r l)
strip-take-long zero r (b ∷ bs) (x ∷ xs) y later h e = absurd (omega (arith, h))
strip-take-long (suc n) r (b ∷ bs) (x ∷ xs) y later h e = elim (Bool-cases (b == x)) [
  | inl same ↦ rw same (strip-take-long n r bs xs y later (omega (arith, h)) (rw same at e))
  | inr other ↦ none-pair (rw other at e)
]
  where
    none-pair : {A : Type 0} {q : ℕ × List ℕ} → none ≡ some q → A
    none-pair i = absurd cc

pub strip-length :
    (t p : List ℕ) (y : ℕ) (later : List ℕ)
    → strip t p ≡ some (y, later)
    → length t ≡ length p + 1 + length later
unfolding strip
strip-length [] p y later e = absurd cc
strip-length (b ∷ bs) [] y later e = ground (arith, e)
strip-length (b ∷ bs) (x ∷ xs) y later e = ground (arith, e, strip-length bs xs y later)

pub search_parsed :
    (ret : List SearchRet) (below : ℕ → List ℕ → List SearchRet) (q : Parse)
    → search_at ret below q ≡ elim (passed_of q) [ none ↦ ret | some (y, l) ↦ below y l ]
unfolding search_at passed_of
search_parsed ret below (split i x y later) = refl
search_parsed ret below (passed y later) = refl
search_parsed ret below out = refl
