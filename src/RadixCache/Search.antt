-- ===== src/RadixCache/Search.antt =====
-- What `search_from_cache` of src/RadixCache.cpp finds, by the loop of RadixCache.Longest over what the nodes hold.
use hybrid_heterogeneous_mem.Prelude.{
  ℕ, zero, suc, ◌+◌, ◌≤◌, ◌<◌, ◌≡◌, refl, sym, ap, ◌∙◌, true, false, Option, none, some, List, [],
  ◌∷◌, ◌==◌, length, length-take, take, arith, Bool-cases, Option-cases, inl, inr,
}
use hybrid_heterogeneous_mem.Key.{Key, IsKey}
use hybrid_heterogeneous_mem.RadixCache.Entry.{CacheEntry}
use hybrid_heterogeneous_mem.RadixCache.Node.{
  CacheNode, CacheMap, node, nil, here, down, parse, entry_of, entry_in,
}
use hybrid_heterogeneous_mem.RadixCache.Header.{strip, parse-strip}
use hybrid_heterogeneous_mem.RadixCache.Content.{
  entry_behind, entry_of-strip, entry_in-nil, entry_of-nil,
}
use hybrid_heterogeneous_mem.RadixCache.Placed.{IsPlaced, ArePlaced}
use hybrid_heterogeneous_mem.RadixCache.Cache.{
  RadixCache, SearchRet, search_node, search_records, search_from_cache,
}
use hybrid_heterogeneous_mem.RadixCache.Longest.{
  choose, take_hit-choose, over, over-none, over-ext, over-split, strip-take-none, strip-take-short,
  strip-take-long, strip-length, search_parsed, hit_at, try_upper,
}

module _ (now : ℕ) (k : Key) (bytes : List ℕ) where
  -- The prefixes that end in a node or below it.
  abbrev NodeOver : (idx : ℕ) (n : CacheNode) (rest : List ℕ) (ret : List SearchRet) → Type 0
  NodeOver idx n rest ret =
      choose now k (search_node bytes rest n ret)
      ≡ over now k bytes (λ r. entry_of (take r rest) n) idx (length rest) (choose now k ret)

  search_node-strip :
      (d : ℕ) (p : List ℕ) (c : ℕ) (rs : CacheMap) (rest : List ℕ) (ret : List SearchRet)
      → search_node bytes rest (node d p c rs) ret ≡ elim (strip rest p) [
        | none ↦ ret
        | some (y, l) ↦ search_records bytes (d + length p) y l rs ret
      ]
  unfolding search_node
  search_node-strip d p c rs rest ret =
      search_parsed ret (λ y l. search_records bytes (d + length p) y l rs ret) (parse rest p 0)
      ∙ ap
          (λ (o : Option (ℕ × List ℕ)). elim o [
            | none ↦ ret
            | some (y, l) ↦ search_records bytes (d + length p) y l rs ret
          ])
          (parse-strip rest p 0)

  -- A prefix that ends behind the header.
  deep :
      (d : ℕ) (p : List ℕ) (c : ℕ) (rs : CacheMap) (rest : List ℕ) (y : ℕ) (later : List ℕ)
      → strip rest p ≡ some (y, later)
      → (r : ℕ)
      → entry_of (take (suc (length p) + suc r) rest) (node d p c rs)
        ≡ entry_in y (take (suc r) later) rs
  deep d p c rs rest y later goes r =
      let place : suc (length p) + suc r ≡ suc (length p + suc r) = omega arith in
      ap (λ x. entry_of (take x rest) (node d p c rs)) place
      ∙ (entry_of-strip (take (suc (length p + suc r)) rest) d p c rs
          ∙ ap (λ q. entry_behind q rs)
              (strip-take-long (length p + suc r) (suc r) rest p y later refl goes))

  at_node :
      (idx d : ℕ) (p : List ℕ) (c : ℕ) (rs : CacheMap) (rest : List ℕ) (ret : List SearchRet)
      → d ≡ idx
      → ((y : ℕ) (later : List ℕ)
          → choose now k (search_records bytes (idx + length p) y later rs ret)
            ≡ over now k bytes
                (λ r. entry_in y (take r later) rs)
                (idx + length p + 1)
                (length later)
                (hit_at now k
                  (take (idx + length p + 1) bytes)
                  (entry_in y [] rs)
                  (idx + length p + 1)
                  (choose now k ret)))
      → NodeOver idx (node d p c rs) rest ret
  unfolding over
  at_node idx d p c rs rest ret hd ih =
      let o = choose now k ret in
      let f = λ (r : ℕ). entry_of (take r rest) (node d p c rs) in
      let met = search_node-strip d p c rs rest ret in
      elim (Option-cases (strip rest p)) [
        | inl stops ↦
            ap (λ l. choose now k l) met
            ∙ rw stops refl
            ∙ sym (
                over-none now k bytes f idx (length rest) o (λ r lt.
                  entry_of-strip (take (suc r) rest) d p c rs
                  ∙ ap (λ q. entry_behind q rs) (strip-take-none (suc r) rest p stops)))
        | inr ((y, later), goes) ↦
            let a = suc (length p) in
            let at_end : f a ≡ entry_in y [] rs =
              entry_of-strip (take a rest) d p c rs
              ∙ ap (λ q. entry_behind q rs)
                  (strip-take-long (length p) 0 rest p y later (omega arith) goes) in
            let short = over-none now k bytes f idx (length p) o (λ r lt.
              entry_of-strip (take (suc r) rest) d p c rs
              ∙ ap (λ q. entry_behind q rs) (strip-take-short (suc r) rest p (omega arith))) in
            let long =
              over-ext now k bytes (λ r. f (a + r)) (λ r. entry_in y (take r later) rs) (idx + a)
                (length later) (over now k bytes f idx a o)
                (λ r lt. deep d p c rs rest y later goes r) in
            let place : idx + a ≡ idx + length p + 1 = omega arith in
            let run : choose now k (search_node bytes rest (node d p c rs) ret)
                ≡ choose now k (search_records bytes (idx + length p) y later rs ret) =
              ap (λ l. choose now k l) met ∙ rw (goes, hd) refl in
            run
            ∙ (ih y later
                ∙ sym (
                    over-split now k bytes f idx a (length later) (length rest) o
                      (omega (arith, strip-length rest p y later goes))
                    ∙ (long ∙ rw (short, at_end, place) refl)))
      ]

-- What the records have for a byte, with one more record in front.
entry_in-here_other :
    (b y : ℕ) (e : Option CacheEntry) (rs : CacheMap) (l : List ℕ)
    → (b == y) ≡ false
    → entry_in y l (here b e rs) ≡ entry_in y l rs
unfolding entry_in
entry_in-here_other b y e rs [] other = rw other refl
entry_in-here_other b y e rs (v ∷ vs) other = rw other refl

entry_in-down_other :
    (b y : ℕ) (e : Option CacheEntry) (n : CacheNode) (rs : CacheMap) (l : List ℕ)
    → (b == y) ≡ false
    → entry_in y l (down b e n rs) ≡ entry_in y l rs
unfolding entry_in
entry_in-down_other b y e n rs [] other = rw other refl
entry_in-down_other b y e n rs (v ∷ vs) other = rw other refl

entry_in-here_longer :
    (b y : ℕ) (e : Option CacheEntry) (rs : CacheMap) (r : ℕ) (l : List ℕ)
    → (b == y) ≡ true
    → r < length l
    → entry_in y (take (suc r) l) (here b e rs) ≡ none
unfolding entry_in
entry_in-here_longer b y e rs r [] same lt = absurd (omega arith)
entry_in-here_longer b y e rs r (v ∷ vs) same lt = rw same refl

entry_in-down_longer :
    (b y : ℕ) (e : Option CacheEntry) (n : CacheNode) (rs : CacheMap) (r : ℕ) (l : List ℕ)
    → (b == y) ≡ true
    → r < length l
    → entry_in y (take (suc r) l) (down b e n rs) ≡ entry_of (take (suc r) l) n
unfolding entry_in
entry_in-down_longer b y e n rs r [] same lt = absurd (omega arith)
entry_in-down_longer b y e n rs r (v ∷ vs) same lt = rw same refl

entry_in-here_same :
    (b y : ℕ) (e : Option CacheEntry) (rs : CacheMap)
    → (b == y) ≡ true
    → entry_in y [] (here b e rs) ≡ e
unfolding entry_in
entry_in-here_same b y e rs same = rw same refl

entry_in-down_same :
    (b y : ℕ) (e : Option CacheEntry) (n : CacheNode) (rs : CacheMap)
    → (b == y) ≡ true
    → entry_in y [] (down b e n rs) ≡ e
unfolding entry_in
entry_in-down_same b y e n rs same = rw same refl

mutual
  unfolding IsPlaced search_records choose hit_at

  node_lem :
      (now : ℕ) (k : Key) (bytes : List ℕ) (idx : ℕ) (n : CacheNode) (rest : List ℕ)
      (ret : List SearchRet)
      → IsPlaced idx n
      → NodeOver now k bytes idx n rest ret
  node_lem now k bytes idx (node d p c rs) rest ret h =
      at_node now k bytes idx d p c rs rest ret h.0
        (λ y later. records_lem now k bytes (idx + length p) y later rs ret h.1)

  records_lem :
      (now : ℕ) (k : Key) (bytes : List ℕ) (idx y : ℕ) (later : List ℕ) (rs : CacheMap)
      (ret : List SearchRet)
      → ArePlaced (idx + 1) rs
      → choose now k (search_records bytes idx y later rs ret)
        ≡ over now k bytes
            (λ r. entry_in y (take r later) rs)
            (idx + 1)
            (length later)
            (hit_at now k (take (idx + 1) bytes) (entry_in y [] rs) (idx + 1) (choose now k ret))
  records_lem now k bytes idx y later nil ret h = sym (
      over-none now k bytes (λ r. entry_in y (take r later) nil) (idx + 1) (length later)
        (hit_at now k (take (idx + 1) bytes) (entry_in y [] nil) (idx + 1) (choose now k ret))
        (λ r lt. entry_in-nil y (take (suc r) later))
      ∙ ap (λ o. hit_at now k (take (idx + 1) bytes) o (idx + 1) (choose now k ret))
          (entry_in-nil y []))
  records_lem now k bytes idx y later (here b e rs) ret h = elim (Bool-cases (b == y)) [
    | inl same ↦ rw same (
        sym (
          over-none now k bytes (λ r. entry_in y (take r later) (here b e rs)) (idx + 1)
            (length later)
            (hit_at now k (take (idx + 1) bytes) (entry_in y [] (here b e rs)) (idx + 1)
              (choose now k ret))
            (λ r lt. entry_in-here_longer b y e rs r later same lt)
          ∙ ap (λ o. hit_at now k (take (idx + 1) bytes) o (idx + 1) (choose now k ret))
              (entry_in-here_same b y e rs same)))
    | inr other ↦ rw other (
        records_lem now k bytes idx y later rs ret h
        ∙ sym (
            over-ext now k bytes (λ r. entry_in y (take r later) (here b e rs))
              (λ r. entry_in y (take r later) rs) (idx + 1) (length later)
              (hit_at now k (take (idx + 1) bytes) (entry_in y [] (here b e rs)) (idx + 1)
                (choose now k ret))
              (λ r lt. entry_in-here_other b y e rs (take (suc r) later) other)
            ∙ ap
                (λ o.
                  over now k bytes (λ r. entry_in y (take r later) rs) (idx + 1) (length later)
                    (hit_at now k (take (idx + 1) bytes) o (idx + 1) (choose now k ret)))
                (entry_in-here_other b y e rs [] other)))
  ]
  records_lem now k bytes idx y later (down b e n rs) ret h = elim (Bool-cases (b == y)) [
    | inl same ↦
        let found : SearchRet = record {
          slot = take (idx + 1) bytes;
          entry = e;
          next_idx = idx + 1;
        } in
        rw same (
          node_lem now k bytes (idx + 1) n later (found ∷ ret) h.0
          ∙ sym (
              over-ext now k bytes (λ r. entry_in y (take r later) (down b e n rs))
                (λ r. entry_of (take r later) n) (idx + 1) (length later)
                (hit_at now k (take (idx + 1) bytes) (entry_in y [] (down b e n rs)) (idx + 1)
                  (choose now k ret))
                (λ r lt. entry_in-down_longer b y e n rs r later same lt)
              ∙ ap
                  (λ o.
                    over now k bytes (λ r. entry_of (take r later) n) (idx + 1) (length later)
                      (hit_at now k (take (idx + 1) bytes) o (idx + 1) (choose now k ret)))
                  (entry_in-down_same b y e n rs same)))
    | inr other ↦ rw other (
        records_lem now k bytes idx y later rs ret h.1
        ∙ sym (
            over-ext now k bytes (λ r. entry_in y (take r later) (down b e n rs))
              (λ r. entry_in y (take r later) rs) (idx + 1) (length later)
              (hit_at now k (take (idx + 1) bytes) (entry_in y [] (down b e n rs)) (idx + 1)
                (choose now k ret))
              (λ r lt. entry_in-down_other b y e n rs (take (suc r) later) other)
            ∙ ap
                (λ o.
                  over now k bytes (λ r. entry_in y (take r later) rs) (idx + 1) (length later)
                    (hit_at now k (take (idx + 1) bytes) o (idx + 1) (choose now k ret)))
                (entry_in-down_other b y e n rs [] other)))
  ]

take-take : (j n : ℕ) (l : List ℕ) → j ≤ n → take j (take n l) ≡ take j l
take-take zero n l le = refl
take-take (suc j) zero l le = absurd (omega arith)
take-take (suc j) (suc n) [] le = refl
take-take (suc j) (suc n) (x ∷ l) le = ap (λ t. x ∷ t) (take-take j n l (omega arith))

module _ (now : ℕ) (k : Key) (root : CacheNode) where
  over-try_upper :
      (m n : ℕ)
      → n ≤ m
      → over now k (take m k) (λ r. entry_of (take r (take m k)) root) 0 n none
        ≡ try_upper now k (λ b. entry_of b root) n
  unfolding over try_upper hit_at
  over-try_upper m zero le = rw (entry_of-nil root) refl
  over-try_upper m (suc n) le =
      let place : 0 + suc n ≡ suc n = omega arith in
      rw (place, take-take (suc n) m k le, over-try_upper m n (omega arith)) refl

-- A cache whose nodes are at their places.
pub search_from_cache-try_upper :
    (now : ℕ) (k : Key) (c : RadixCache)
    → IsKey k
    → IsPlaced 0 c.root
    → (search_from_cache now k c).0 ≡ try_upper now k (λ b. entry_of b c.root) 7
unfolding search_from_cache choose
search_from_cache-try_upper now k c key placed =
    let bytes = take 7 k in
    let long : length bytes ≡ 7 = omega (arith, length-take 7 k, key.size) in
    take_hit-choose now k (search_node bytes bytes c.root []) c
    ∙ (node_lem now k bytes 0 c.root bytes [] placed
        ∙ (ap (λ n. over now k bytes (λ r. entry_of (take r bytes) c.root) 0 n none) long
            ∙ over-try_upper now k c.root 7 7 (omega arith)))
