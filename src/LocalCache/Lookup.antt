-- ===== src/LocalCache/Lookup.antt =====
-- What `query` finds of what `insert` put in.
use hybrid_heterogeneous_mem.Prelude.{
  ℕ, ◌+◌, ◌<◌, ◌≡◌, ◌≢◌, refl, ap, ◌∙◌, sym, false, Option, none, some, List, [], ◌∷◌, ltb, leb,
  length, arith, ℕ_discrete, Bool-cases, ◌⊎◌, inl, inr, subst, gt→leb, ge→ltb,
}
use hybrid_heterogeneous_mem.Prelude.Threads.{replace}
use hybrid_heterogeneous_mem.Key.{Key}
use hybrid_heterogeneous_mem.LockTable.Slot.{eq_key_refl}
use hybrid_heterogeneous_mem.LocalCache.{
  Entry, LocalCache, bucket_elements_limit, new, should_migrate, extract, pop_back, salt,
  get_hashcode, get_candidate_buckets, least_loaded, evict, emplace, insert_at, insert, query_in,
  query,
}
use hybrid_heterogeneous_mem.LocalCache.Counts.{IsValid, least_loaded_lem, pop_back_lem}

-- The first entry of the key in a bucket has the value.
abbrev HasValue : Key → ℕ → List Entry → Type 0
HasValue k v es =
    (e : Entry) × (rest : List Entry) × ((extract k es ≡ some (e, rest)) × (e.value ≡ v))

HasValue-front :
    (k : Key) (v : ℕ) (times : List ℕ) (es : List Entry)
    → HasValue k v (record { key = k; value = v; access_times = times } ∷ es)
unfolding extract
HasValue-front k v times es =
    (record { key = k; value = v; access_times = times }, es, (rw (eq_key_refl k) refl, refl))

evict-buckets :
    (now : ℕ) (s : LocalCache) (index : ℕ) (front : List Entry) (last : Entry)
    → pop_back (s.buckets index) ≡ some (front, last)
    → ((evict now s index).0).buckets ≡ replace s.buckets index front
unfolding evict
evict-buckets now s index front last g = elim (Bool-cases (should_migrate now last)) [
  | inl b ↦ rw (g, b) refl
  | inr b ↦ rw (g, b) refl
]

replace_twice :
    (f : ℕ → List Entry) (i : ℕ) (a b : List Entry) (c : ℕ)
    → replace (replace f i a) i b c ≡ replace f i b c
replace_twice f i a b c = ground arith

List-cases : (es : List Entry) → (es ≡ []) ⊎ ((x : Entry) × (xs : List Entry) × (es ≡ x ∷ xs))
List-cases [] = inl refl
List-cases (x ∷ xs) = inr (x, xs, refl)

-- Where an entry is emplaced: at the front of its bucket, from which only a last entry is evicted.
emplace-buckets :
    (now : ℕ) (k : Key) (v : ℕ) (s : LocalCache) (index : ℕ)
    → s.bucket_elements index ≡ length (s.buckets index)
    → (es : List Entry) × ((c : ℕ)
        → ((emplace now k v s index).0).buckets c
          ≡ replace s.buckets index (record { key = k; value = v; access_times = [] } ∷ es) c)
unfolding emplace pop_back
emplace-buckets now k v s index counted =
    let e : Entry = record { key = k; value = v; access_times = [] } in
    let s' : LocalCache = record s {
      buckets = replace s.buckets index (e ∷ s.buckets index);
      bucket_elements = replace s.bucket_elements index (s.bucket_elements index + 1);
      cur_size = s.cur_size + 1;
    } in
    elim (Bool-cases (ltb bucket_elements_limit (s'.bucket_elements index))) [
      | inl b ↦ elim (List-cases (s.buckets index)) [
        | inl none_there ↦ absurd (ground (arith, ap length none_there))
        | inr (y, ys, g) ↦
            let (front, last, (h, l)) = pop_back_lem y ys in
            let here : s'.buckets index ≡ e ∷ y ∷ ys = ground (arith, g) in
            let popped : pop_back (s'.buckets index) ≡ some (e ∷ front, last) = rw (here, h) refl in
            (
              front,
              λ c. rw b (
                  ap (λ f. f c) (evict-buckets now s' index (e ∷ front) last popped)
                  ∙ replace_twice s.buckets index (e ∷ s.buckets index) (e ∷ front) c),
            )
      ]
      | inr b ↦ (s.buckets index, λ c. rw b refl)
    ]

query_in-found :
    (now : ℕ) (k : Key) (s : LocalCache) (c : ℕ) (cs : List ℕ) (v : ℕ)
    → HasValue k v (s.buckets c)
    → (query_in now k s (c ∷ cs)).1 ≡ some v
unfolding query_in
query_in-found now k s c cs v (e, rest, (g, h)) = rw g (ap some h)

query_in-skip :
    (now : ℕ) (k : Key) (s : LocalCache) (c : ℕ) (cs : List ℕ)
    → extract k (s.buckets c) ≡ none
    → query_in now k s (c ∷ cs) ≡ query_in now k s cs
unfolding query_in
query_in-skip now k s c cs g = rw g refl

-- A search through candidates of which only `index` has the key.
query_in-value :
    (now : ℕ) (k : Key) (v : ℕ) (s : LocalCache) (index : ℕ)
    → HasValue k v (s.buckets index)
    → ((c : ℕ) → c ≢ index → extract k (s.buckets c) ≡ none)
    → (x y z : ℕ) → (index ≡ x) ⊎ ((index ≡ y) ⊎ (index ≡ z))
    → (query_in now k s (x ∷ y ∷ z ∷ [])).1 ≡ some v
query_in-value now k v s index has others x y z which = elim (ℕ_discrete x index) [
  | yes at_x ↦ query_in-found now k s x (y ∷ z ∷ []) v (rw at_x has)
  | no not_x ↦
      ap (λ q. q.1) (query_in-skip now k s x (y ∷ z ∷ []) (others x not_x))
      ∙ elim (ℕ_discrete y index) [
        | yes at_y ↦ query_in-found now k s y (z ∷ []) v (rw at_y has)
        | no not_y ↦
            ap (λ q. q.1) (query_in-skip now k s y (z ∷ []) (others y not_y))
            ∙ query_in-found now k s z [] v
                (subst (λ i. HasValue k v (s.buckets i)) (last_of not_x not_y which) has)
      ]
]
  where
    last_of : x ≢ index → y ≢ index → (index ≡ x) ⊎ ((index ≡ y) ⊎ (index ≡ z)) → index ≡ z
    last_of not_x not_y w = omega arith

-- An entry that goes into a bucket below the limit.
abbrev placed : Key → ℕ → LocalCache → ℕ → LocalCache
placed k v s index = record s {
  buckets =
      replace s.buckets index (record { key = k; value = v; access_times = [] } ∷ s.buckets index);
  bucket_elements = replace s.bucket_elements index (s.bucket_elements index + 1);
  cur_size = s.cur_size + 1;
}

insert_at-placed :
    (capacity now : ℕ) (k : Key) (v : ℕ) (s : LocalCache) (index : ℕ)
    → extract k (s.buckets index) ≡ none
    → s.cur_size < capacity
    → s.bucket_elements index ≡ 0
    → insert_at capacity now k v s index ≡ (placed k v s index, none)
unfolding insert_at emplace
insert_at-placed capacity now k v s index absent free low =
    let small : ltb bucket_elements_limit ((placed k v s index).bucket_elements index) ≡ false =
      ground (arith, low) in
    rw (absent, gt→leb capacity s.cur_size free, small) refl

-- The second candidate is picked when it alone is known to be empty and the first has an entry.
least_loaded_second :
    (elements : ℕ → ℕ) (a b c : ℕ)
    → elements a ≡ 1
    → elements b ≡ 0
    → least_loaded elements (a ∷ b ∷ c ∷ []) none 3 ≡ some b
unfolding least_loaded
least_loaded_second elements a b c ea eb = rw (ea, eb, ge→ltb (elements c) 0 (omega arith)) refl

module _ (hash : Key → ℕ → ℕ) (capacity : ℕ) where
  insert-pick :
      (now : ℕ) (k : Key) (v : ℕ) (s : LocalCache) (i : ℕ)
      → least_loaded s.bucket_elements (get_candidate_buckets hash capacity k) none 3 ≡ some i
      → insert hash capacity now k v s ≡ some (insert_at capacity now k v s i)
  unfolding insert
  insert-pick now k v s i e = rw e refl

  -- A valid cache that is not full, and a key that no bucket has an entry of: after `insert` puts the
  -- key in, `query` gives its value, whatever the hashes and the times are.
  pub query-insert :
      (now later : ℕ) (k : Key) (v : ℕ) (s : LocalCache)
      → IsValid capacity s
      → s.cur_size < capacity
      → ((c : ℕ) → extract k (s.buckets c) ≡ none)
      → (s' : LocalCache) × (out : Option (Key × ℕ)) × ((insert hash capacity now k v s
            ≡ some (s', out))
          × ((query hash capacity later k s').1 ≡ some v))
  unfolding insert query get_candidate_buckets insert_at
  query-insert now later k v s valid free absent =
      let few = valid.few (get_hashcode hash capacity k (salt 0)) in
      let (i, (e, which)) =
        least_loaded_lem s.bucket_elements (get_hashcode hash capacity k (salt 0))
          (get_hashcode hash capacity k (salt 1)) (get_hashcode hash capacity k (salt 2)) 3
          (omega (arith, few)) in
      let r = emplace now k v s i in
      let (es, at) = emplace-buckets now k v s i (valid.counted i) in
      let here : r.0.buckets i ≡ record { key = k; value = v; access_times = [] } ∷ es =
        at i ∙ ground arith in
      let there : (c : ℕ) → c ≢ i → extract k (r.0.buckets c) ≡ none =
        λ c ne. ap (extract k) (at c ∙ ground arith) ∙ absent c in
      (
        r.0,
        r.1,
        (
          rw (e, absent i, ge_full free) refl,
          query_in-value later k v r.0 i
              (subst (HasValue k v) (sym here) (HasValue-front k v [] es)) there
              (get_hashcode hash capacity k (salt 0)) (get_hashcode hash capacity k (salt 1))
              (get_hashcode hash capacity k (salt 2)) which,
        ),
      )
    where
      ge_full : s.cur_size < capacity → leb capacity s.cur_size ≡ false
      ge_full lt = gt→leb capacity s.cur_size lt

  -- A key whose first two candidate buckets are different, and the empty cache of two or more buckets: two
  -- calls of `insert` end without an eviction, the first bucket has the key with the value of the first call
  -- and the second bucket has it with the value of the second, each of them alone; the cache counts two
  -- entries; and `query` then gives the value of the first call, not of the last.
  pub insert_twice :
      (t t' t'' : ℕ) (k : Key) (v v' : ℕ)
      → 1 < capacity
      → get_hashcode hash capacity k (salt 0) ≢ get_hashcode hash capacity k (salt 1)
      → (s s' : LocalCache) × ((insert hash capacity t k v new ≡ some (s, none))
          × ((insert hash capacity t' k v' s ≡ some (s', none))
              × ((s'.buckets (get_hashcode hash capacity k (salt 0))
                    ≡ record { key = k; value = v; access_times = [] } ∷ [])
                  × (s'.buckets (get_hashcode hash capacity k (salt 1))
                      ≡ record { key = k; value = v'; access_times = [] } ∷ [])
                  × (s'.cur_size ≡ 2)
                  × ((query hash capacity t'' k s').1 ≡ some v))))
  unfolding insert query get_candidate_buckets least_loaded new extract
  insert_twice t t' t'' k v v' room ne =
      let a = get_hashcode hash capacity k (salt 0) in
      let b = get_hashcode hash capacity k (salt 1) in
      let c = get_hashcode hash capacity k (salt 2) in
      let s = placed k v new a in
      let s' = placed k v' s b in
      let first : insert_at capacity t k v new a ≡ (s, none) =
        insert_at-placed capacity t k v new a refl (omega arith) refl in
      let empty_b : s.buckets b ≡ [] = ground arith in
      let second : insert_at capacity t' k v' s b ≡ (s', none) =
        insert_at-placed capacity t' k v' s b (ap (extract k) empty_b) (omega arith)
          (ground arith) in
      let here : s'.buckets a ≡ record { key = k; value = v; access_times = [] } ∷ [] =
        ground arith in
      let pick = least_loaded_second s.bucket_elements a b c (ground arith) (ground arith) in
      let found =
        query_in-found t'' k s' a (b ∷ c ∷ []) v
          (subst (HasValue k v) (sym here) (HasValue-front k v [] [])) in
      let there : s'.buckets b ≡ record { key = k; value = v'; access_times = [] } ∷ [] =
        ground arith in
      (
        s,
        s',
        (
          ap some first,
          (insert-pick t' k v' s b pick ∙ ap some second, (here, there, refl, found)),
        ),
      )
