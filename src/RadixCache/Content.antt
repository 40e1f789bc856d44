-- ===== src/RadixCache/Content.antt =====
-- What a node of the cache holds, as a map from byte arrays to entries, and what `_insert` makes of it.
use hybrid_heterogeneous_mem.Prelude.{
  ℕ, ◌+◌, ◌≡◌, ◌≢◌, refl, sym, ap, ◌∙◌, true, false, ◌&&◌, Option, none, some, List, [], ◌∷◌, ◌++◌,
  ◌==◌, if◌then◌else◌, length, arith, Bool-cases, inl, inr,
}
use hybrid_heterogeneous_mem.LockTable.Slot.{eq_key}
use hybrid_heterogeneous_mem.RadixCache.Entry.{CacheEntry}
use hybrid_heterogeneous_mem.RadixCache.Node.{
  CacheNode, CacheMap, Parse, node, nil, here, down, split, passed, out, parse, but_last, last_byte,
  charge, leaf_node, split_records, split_node, new_record, store_here, store_down, behind_here,
  behind_down, rebuilt, insert_node, insert_at, insert_records, entry_of, entry_in, Inserted,
  Stored, node_size,
}
use hybrid_heterogeneous_mem.RadixCache.Header.{
  strip, cut, eq_behind, passed_of, parse-strip, strip-append, eq_key-strip, parse-passed,
  parse-split, take-length, drop-length, last-of,
}

-- The entry behind a header that was passed, or none.
abbrev pub entry_behind : Option (ℕ × List ℕ) → CacheMap → Option CacheEntry
entry_behind none rs = none
entry_behind (some (b, l)) rs = entry_in b l rs

entry_parsed :
    (q : Parse) (rs : CacheMap)
    → (elim q [ out ↦ none | split i x y later ↦ none | passed y later ↦ entry_in y later rs ])
      ≡ entry_behind (passed_of q) rs
unfolding passed_of
entry_parsed (split i x y later) rs = refl
entry_parsed (passed y later) rs = refl
entry_parsed out rs = refl

pub entry_of-strip :
    (t : List ℕ) (d : ℕ) (p : List ℕ) (c : ℕ) (rs : CacheMap)
    → entry_of t (node d p c rs) ≡ entry_behind (strip t p) rs
unfolding entry_of
entry_of-strip t d p c rs =
    entry_parsed (parse t p 0) rs ∙ ap (λ o. entry_behind o rs) (parse-strip t p 0)

-- A map from byte arrays with the value of one array replaced.
abbrev pub updated : List ℕ → CacheEntry → List ℕ → Option CacheEntry → Option CacheEntry
updated bytes e t old = if eq_key bytes t then some e else old

-- A node with one entry.
behind_leaf :
    (y : ℕ) (e : CacheEntry) (o : Option (ℕ × List ℕ))
    → entry_behind o (here y (some e) nil) ≡ (if eq_behind y [] o then some e else none)
unfolding entry_in eq_key
behind_leaf y e none = refl
behind_leaf y e (some (b, [])) = ground arith
behind_leaf y e (some (b, z ∷ zs)) = ground arith

entry_of-leaf_node :
    (start x : ℕ) (xs : List ℕ) (e : CacheEntry) (t : List ℕ)
    → entry_of t (leaf_node start (x ∷ xs) e) ≡ updated (x ∷ xs) e t none
unfolding leaf_node charge
entry_of-leaf_node start x xs e t =
    let bl = but_last (x ∷ xs) in
    let y = last_byte (x ∷ xs) in
    let whole : eq_key (x ∷ xs) t ≡ eq_behind y [] (strip t bl) =
      ap (λ q. eq_key q t) (sym (last-of x xs)) ∙ eq_key-strip bl y [] t in
    rw (entry_of-strip, whole) (behind_leaf y e (strip t bl))

pub entry_of-nil : (n : CacheNode) → entry_of [] n ≡ none
unfolding entry_of parse
entry_of-nil (node d [] c rs) = refl
entry_of-nil (node d (x ∷ p) c rs) = refl

-- The records of the node that splits a header, behind what is left of the header.
behind_split :
    (start d x y : ℕ) (xs later : List ℕ) (rs : CacheMap) (e : CacheEntry) (o : Option (ℕ × List ℕ))
    → ((x == y) ≡ true → later ≡ [])
    → entry_behind o (split_records start (charge d xs rs) x y later e)
      ≡ (if eq_behind y later o then some e else entry_behind (cut x xs o) rs)
unfolding split_records entry_in eq_key charge strip
behind_split start d x y xs later rs e none last = refl
behind_split start d x y xs [] rs e (some (b, [])) last = ground arith
behind_split start d x y xs [] rs e (some (b, c ∷ cs)) last =
    ground (arith, entry_of-strip (c ∷ cs) d xs (node_size xs rs) rs)
behind_split start d x y xs (z ∷ zs) rs e (some (b, [])) last = ground (arith, last)
behind_split start d x y xs (z ∷ zs) rs e (some (b, c ∷ cs)) last = ground (
  arith,
  last,
  entry_of-strip (c ∷ cs) d xs (node_size xs rs) rs,
  entry_of-leaf_node start z zs e (c ∷ cs),
)

-- A split on how a walk ends.
pub data Ends (q : Parse) : Type 0 where
  at_split : (i x y : ℕ) (later : List ℕ) → q ≡ split i x y later → Ends q
  behind : (y : ℕ) (later : List ℕ) → q ≡ passed y later → Ends q
  outside : q ≡ out → Ends q

pub Parse-cases : (q : Parse) → Ends q
Parse-cases (split i x y later) = at_split i x y later refl
Parse-cases (passed y later) = behind y later refl
Parse-cases out = outside refl

pub parse-ne-out : (r : ℕ) (rest p : List ℕ) (j : ℕ) {A : Type 0} → parse (r ∷ rest) p j ≡ out → A
unfolding parse
parse-ne-out r rest [] j e = absurd cc
parse-ne-out r [] (x ∷ xs) j e = absurd cc
parse-ne-out r (s ∷ rest) (x ∷ xs) j e = elim (Bool-cases (r == x)) [
  | inl same ↦ parse-ne-out s rest xs (j + 1) (rw same at e)
  | inr other ↦ absurd (ground (arith, e, other))
]

module _ (e : CacheEntry) (d : ℕ) (c : ℕ) (rs : CacheMap) (t : List ℕ) where
  split_content :
      (q xs : List ℕ) (x y : ℕ) (later : List ℕ)
      → ((x == y) ≡ true → later ≡ [])
      → entry_of t (split_node d (q ++ x ∷ xs) c rs (q ++ y ∷ later) (length q) x y later e).result
        ≡ updated (q ++ y ∷ later) e t (entry_of t (node d (q ++ x ∷ xs) c rs))
  unfolding split_node charge
  split_content q xs x y later last =
      let start = d + length q + 1 in
      let records = split_records start (charge start xs rs) x y later e in
      let made : (split_node d (q ++ x ∷ xs) c rs (q ++ y ∷ later) (length q) x y later e).result
          ≡ charge d q records =
        rw (take-length q (y ∷ later), drop-length q x xs) refl in
      ap (λ n. entry_of t n) made
      ∙ (entry_of-strip t d q (node_size q records) records
          ∙ (behind_split start start x y xs later rs e (strip t q) last
              ∙ rw (entry_of-strip, eq_key-strip, strip-append) refl))

  split_at :
      (rest p : List ℕ) (i x y : ℕ) (later q xs : List ℕ)
      → p ≡ q ++ x ∷ xs
      → rest ≡ q ++ y ∷ later
      → i ≡ length q
      → ((x == y) ≡ true → later ≡ [])
      → entry_of t (split_node d p c rs rest i x y later e).result
        ≡ updated rest e t (entry_of t (node d p c rs))
  split_at rest p i x y later q xs hp hr hi last =
      rw (hp, hr, hi) (split_content q xs x y later last)

  insert_split :
      (rest p : List ℕ) (i x y : ℕ) (later : List ℕ)
      → parse rest p 0 ≡ split i x y later
      → entry_of t (insert_node rest e (node d p c rs)).result
        ≡ updated rest e t (entry_of t (node d p c rs))
  unfolding insert_node insert_at
  insert_split rest p i x y later run =
      let (q, xs, (hp, hr, hi, last)) = parse-split rest p 0 i x y later run in
      ap
        (λ r.
          entry_of t
            (insert_at d p c rs rest e (λ b l. insert_records (d + length p) b l e rs) r).result)
        run
      ∙ (split_at rest p i x y later q xs hp hr (omega (arith, hi)) last)

  rebuilt_content :
      (p : List ℕ) (s : Stored)
      → entry_of t (rebuilt d p c s).result ≡ entry_behind (strip t p) s.records
  unfolding rebuilt charge
  rebuilt_content p s = elim (Bool-cases s.touched) [
    | inl h ↦ simp (rebuilt, h) (entry_of-strip t d p (node_size p s.records) s.records)
    | inr h ↦ simp (rebuilt, h) (entry_of-strip t d p c s.records)
  ]

  insert_passed :
      (rest p : List ℕ) (y : ℕ) (later : List ℕ)
      → parse rest p 0 ≡ passed y later
      → ((b : ℕ) (l : List ℕ)
          → entry_in b l (insert_records (d + length p) y later e rs).records
            ≡ (if y == b && eq_key later l then some e else entry_in b l rs))
      → entry_of t (insert_node rest e (node d p c rs)).result
        ≡ updated rest e t (entry_of t (node d p c rs))
  unfolding insert_node insert_at
  insert_passed rest p y later run stored =
      let s = insert_records (d + length p) y later e rs in
      let old = entry_of-strip t d p c rs in
      let whole : eq_key rest t ≡ eq_behind y later (strip t p) =
        ap (λ r. eq_key r t) (parse-passed rest p 0 y later run) ∙ eq_key-strip p y later t in
      ap
        (λ r.
          entry_of t
            (insert_at d p c rs rest e (λ b l. insert_records (d + length p) b l e rs) r).result)
        run
      ∙ (rebuilt_content p s ∙ (pointwise (strip t p) ∙ rw (old, whole) refl))
    where
      pointwise :
          (o : Option (ℕ × List ℕ))
          → entry_behind o (insert_records (d + length p) y later e rs).records
            ≡ (if eq_behind y later o then some e else entry_behind o rs)
      pointwise none = refl
      pointwise (some (b, l)) = stored b l

-- A record in front of others.
module _ (idx y : ℕ) (e : CacheEntry) (b : ℕ) where
  new_content :
      (later l : List ℕ)
      → entry_in b l (new_record idx y later e).records
        ≡ (if y == b && eq_key later l then some e else none)
  unfolding new_record entry_in eq_key
  new_content [] [] = ground arith
  new_content [] (v ∷ vs) = ground arith
  new_content (z ∷ zs) [] = ground arith
  new_content (z ∷ zs) (v ∷ vs) = ground (arith, entry_of-leaf_node (idx + 1) z zs e (v ∷ vs))

  store_here_content :
      (u : ℕ) (old : Option CacheEntry) (rs : CacheMap) (later l : List ℕ)
      → (u == y) ≡ true
      → entry_in b l (store_here idx u old rs later e).records
        ≡ (if y == b && eq_key later l then some e else entry_in b l (here u old rs))
  unfolding store_here entry_in eq_key
  store_here_content u old rs [] [] same = ground (arith, same)
  store_here_content u old rs [] (v ∷ vs) same = ground (arith, same)
  store_here_content u old rs (z ∷ zs) [] same = ground (arith, same)
  store_here_content u old rs (z ∷ zs) (v ∷ vs) same =
      ground (arith, same, entry_of-leaf_node (idx + 1) z zs e (v ∷ vs))

  store_down_content :
      (u : ℕ) (old : Option CacheEntry) (n : CacheNode) (rs : CacheMap) (later l : List ℕ)
      (below : Inserted)
      → (u == y) ≡ true
      → (later ≢ [] → entry_of l below.result ≡ updated later e l (entry_of l n))
      → entry_in b l (store_down u old n rs later e below).records
        ≡ (if y == b && eq_key later l then some e else entry_in b l (down u old n rs))
  unfolding store_down entry_in eq_key
  store_down_content u old n rs [] [] below same ih = ground (arith, same)
  store_down_content u old n rs [] (v ∷ vs) below same ih = ground (arith, same)
  store_down_content u old n rs (z ∷ zs) [] below same ih = ground (arith, same)
  store_down_content u old n rs (z ∷ zs) (v ∷ vs) below same ih = ground (arith, same, ih (λ q. cc))

pub entry_in-nil : (b : ℕ) (l : List ℕ) → entry_in b l nil ≡ none
unfolding entry_in
entry_in-nil b [] = refl
entry_in-nil b (v ∷ vs) = refl

-- A record of another byte in front of the records that the entry went into.
module _ (y : ℕ) (e : CacheEntry) (b u : ℕ) (old : Option CacheEntry) (rs rs' : CacheMap)
    (other : (u == y) ≡ false) where
  behind_here_content :
      (later l : List ℕ)
      → entry_in b l rs' ≡ (if y == b && eq_key later l then some e else entry_in b l rs)
      → entry_in b l (here u old rs')
        ≡ (if y == b && eq_key later l then some e else entry_in b l (here u old rs))
  unfolding entry_in
  behind_here_content later [] ih = ground (arith, other, ih)
  behind_here_content later (v ∷ vs) ih = ground (arith, other, ih)

  behind_down_content :
      (n : CacheNode) (later l : List ℕ)
      → entry_in b l rs' ≡ (if y == b && eq_key later l then some e else entry_in b l rs)
      → entry_in b l (down u old n rs')
        ≡ (if y == b && eq_key later l then some e else entry_in b l (down u old n rs))
  unfolding entry_in
  behind_down_content n later [] ih = ground (arith, other, ih)
  behind_down_content n later (v ∷ vs) ih = ground (arith, other, ih)

mutual
  unfolding insert_records behind_here behind_down entry_in

  node_content :
      (r : ℕ) (rest : List ℕ) (e : CacheEntry) (n : CacheNode) (t : List ℕ)
      → entry_of t (insert_node (r ∷ rest) e n).result ≡ updated (r ∷ rest) e t (entry_of t n)
  node_content r rest e (node d p c rs) t = elim (Parse-cases (parse (r ∷ rest) p 0)) [
    | at_split i x y later run ↦ insert_split e d c rs t (r ∷ rest) p i x y later run
    | behind y later run ↦
        insert_passed e d c rs t (r ∷ rest) p y later run
          (λ b l. records_content (d + length p) y later e rs b l)
    | outside run ↦ parse-ne-out r rest p 0 run
  ]

  records_content :
      (idx y : ℕ) (later : List ℕ) (e : CacheEntry) (rs : CacheMap) (b : ℕ) (l : List ℕ)
      → entry_in b l (insert_records idx y later e rs).records
        ≡ (if y == b && eq_key later l then some e else entry_in b l rs)
  records_content idx y later e nil b l =
      new_content idx y e b later l
      ∙ ap (λ o. if y == b && eq_key later l then some e else o) (sym (entry_in-nil b l))
  records_content idx y later e (here u old rs) b l = elim (Bool-cases (u == y)) [
    | inl same ↦ rw same (store_here_content idx y e b u old rs later l same)
    | inr other ↦ rw other (
        behind_here_content y e b u old rs (insert_records idx y later e rs).records other later l
          (records_content idx y later e rs b l))
  ]
  records_content idx y [] e (down u old n rs) b l = elim (Bool-cases (u == y)) [
    | inl same ↦ rw same (
        store_down_content idx y e b u old n rs [] l (insert_node [] e n) same
          (λ no. absurd (no refl)))
    | inr other ↦ rw other (
        behind_down_content y e b u old rs (insert_records idx y [] e rs).records other n [] l
          (records_content idx y [] e rs b l))
  ]
  records_content idx y (z ∷ zs) e (down u old n rs) b l = elim (Bool-cases (u == y)) [
    | inl same ↦ rw same (
        store_down_content idx y e b u old n rs (z ∷ zs) l (insert_node (z ∷ zs) e n) same
          (λ no. node_content z zs e n l))
    | inr other ↦ rw other (
        behind_down_content y e b u old rs (insert_records idx y (z ∷ zs) e rs).records other n
          (z ∷ zs) l (records_content idx y (z ∷ zs) e rs b l))
  ]

-- Putting an entry in at a byte array that is not empty replaces what the node holds at that array, and
-- nothing else, whether a header is split, a record is filled or a new node is hung in.
pub entry_of-insert_node :
    (bytes : List ℕ) (e : CacheEntry) (n : CacheNode) (t : List ℕ)
    → bytes ≢ []
    → entry_of t (insert_node bytes e n).result ≡ (if eq_key bytes t then some e else entry_of t n)
entry_of-insert_node [] e n t some_bytes = absurd (some_bytes refl)
entry_of-insert_node (r ∷ rest) e n t some_bytes = node_content r rest e n t
