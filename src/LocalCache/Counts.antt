-- ===== src/LocalCache/Counts.antt =====
-- The counters of the cache: the elements of a bucket and the entries of all buckets.
use hybrid_heterogeneous_mem.Prelude.{
  ℕ, suc, ◌≢◌, ◌+◌, ◌-◌, ◌<◌, ◌≤◌, ◌≡◌, refl, ap, sym, Option, none, some, List, [], ◌∷◌, ltb, leb,
  lt→ltb, length, arith, Bool-cases, Option-cases, ◌⊎◌, inl, inr,
}
use hybrid_heterogeneous_mem.Prelude.Threads.{replace, sum_over, sum_over-replace, sum_over-zero}
use hybrid_heterogeneous_mem.Key.{Key}
use hybrid_heterogeneous_mem.LockTable.Slot.{eq_key}
use hybrid_heterogeneous_mem.LocalCache.{
  Entry, LocalCache, bucket_elements_limit, new, should_migrate, extract, pop_back, salt,
  get_hashcode, get_candidate_buckets, least_loaded, touch, evict, emplace, insert_at, insert,
}

abbrev pub count : ℕ → ℕ
count n = n

-- Each bucket has as many entries as its counter says, at most two, and `cur_size` is their sum, at
-- most `capacity`.
pub record IsValid (capacity : ℕ) (s : LocalCache) : Type 0 where
  pub counted : (i : ℕ) → s.bucket_elements i ≡ length (s.buckets i)
  pub few : (i : ℕ) → s.bucket_elements i ≤ bucket_elements_limit
  pub total : s.cur_size ≡ sum_over count capacity s.bucket_elements
  pub room : s.cur_size ≤ capacity

length-extract :
    (k : Key) (es : List Entry) {e : Entry} {rest : List Entry}
    → extract k es ≡ some (e, rest)
    → length es ≡ suc (length rest)
unfolding extract
length-extract k [] g = cc
length-extract k (x ∷ xs) g = elim (Bool-cases (eq_key x.key k)) [
  | inl same ↦ ground arith
  | inr other ↦ elim (Option-cases (extract k xs)) [
    | inl no_entry ↦ ground arith
    | inr ((y, ys), h) ↦ ground (arith, length-extract k xs h)
  ]
]

-- What `pop_back` does on a list that is not empty.
pub pop_back_lem :
    (e : Entry) (es : List Entry)
    → (front : List Entry) × (last : Entry) × ((pop_back (e ∷ es) ≡ some (front, last))
        × (length front ≡ length es))
unfolding pop_back
pop_back_lem e [] = ([], e, (refl, refl))
pop_back_lem e (x ∷ xs) =
    let (front, last, (g, h)) = pop_back_lem x xs in
    (e ∷ front, last, (ground arith, omega (arith, h)))

-- Some candidate is picked when the first is not beyond the limit.
pub least_loaded_lem :
    (elements : ℕ → ℕ) (a b c min_load : ℕ)
    → elements a < min_load
    → (i : ℕ) × ((least_loaded elements (a ∷ b ∷ c ∷ []) none min_load ≡ some i)
        × ((i ≡ a) ⊎ ((i ≡ b) ⊎ (i ≡ c))))
unfolding least_loaded
least_loaded_lem elements a b c min_load lt =
    let first = lt→ltb (elements a) min_load lt in
    elim (Bool-cases (ltb (elements b) (elements a))) [
      | inl yes_b ↦ elim (Bool-cases (ltb (elements c) (elements b))) [
        | inl yes_c ↦ (c, (cc, inr (inr refl)))
        | inr not_c ↦ (b, (cc, inr (inl refl)))
      ]
      | inr not_b ↦ elim (Bool-cases (ltb (elements c) (elements a))) [
        | inl yes_c ↦ (c, (cc, inr (inr refl)))
        | inr not_c ↦ (a, (cc, inl refl))
      ]
    ]

-- The eviction from a bucket that is one over the limit.
evict-IsValid :
    (capacity now : ℕ) (s : LocalCache) (index : ℕ)
    → index < capacity
    → ((i : ℕ) → s.bucket_elements i ≡ length (s.buckets i))
    → ((i : ℕ) → i ≢ index → s.bucket_elements i ≤ bucket_elements_limit)
    → s.bucket_elements index ≡ suc bucket_elements_limit
    → s.cur_size ≡ sum_over count capacity s.bucket_elements
    → s.cur_size ≤ capacity
    → (e : Entry) (es : List Entry) → s.buckets index ≡ e ∷ es
    → IsValid capacity ((evict now s index).0)
unfolding evict
evict-IsValid capacity now s index lt counted few over total room e es g =
    let (front, last, (h, l)) = pop_back_lem e es in
    let size = ap length g in
    let counted' : (i : ℕ)
        → replace s.bucket_elements index (s.bucket_elements index - 1) i
          ≡ length (replace s.buckets index front i) =
      λ i. ground (arith, counted i, counted index) in
    let few' : (i : ℕ)
        → replace s.bucket_elements index (s.bucket_elements index - 1) i ≤ bucket_elements_limit =
      λ i. ground (arith, few i) in
    let total' : s.cur_size - 1
        ≡ sum_over count capacity (replace s.bucket_elements index (s.bucket_elements index - 1)) =
      omega (
        arith,
        sum_over-replace count capacity s.bucket_elements index (s.bucket_elements index - 1) lt,
      ) in
    rw (g, h)
      (elim (Bool-cases (should_migrate now last)) [
        | inl b ↦
            rw b (record { counted = counted'; few = few'; total = total'; room = omega arith })
        | inr b ↦
            rw b (record { counted = counted'; few = few'; total = total'; room = omega arith })
      ])

module _ (capacity : ℕ) (now : ℕ) (k : Key) (v : ℕ) (s : LocalCache) (index : ℕ)
    (valid : IsValid capacity s) (lt : index < capacity) where
  touch-IsValid :
      (e : Entry) (rest : List Entry)
      → length (s.buckets index) ≡ suc (length rest)
      → IsValid capacity (touch now s index e rest)
  unfolding touch
  touch-IsValid e rest g = record {
    counted = λ i. ground (arith, valid.counted i);
    few = valid.few;
    total = valid.total;
    room = valid.room;
  }

  emplace-IsValid : s.cur_size < capacity → IsValid capacity ((emplace now k v s index).0)
  unfolding emplace
  emplace-IsValid free =
      let e : Entry = record { key = k; value = v; access_times = [] } in
      let s' : LocalCache = record s {
        buckets = replace s.buckets index (e ∷ s.buckets index);
        bucket_elements = replace s.bucket_elements index (s.bucket_elements index + 1);
        cur_size = s.cur_size + 1;
      } in
      let counted' : (i : ℕ) → s'.bucket_elements i ≡ length (s'.buckets i) =
        λ i. ground (arith, valid.counted i, valid.counted index) in
      let total' : s'.cur_size ≡ sum_over count capacity s'.bucket_elements = omega (
        arith,
        valid.total,
        sum_over-replace count capacity s.bucket_elements index (s.bucket_elements index + 1) lt,
      ) in
      elim (Bool-cases (ltb bucket_elements_limit (s'.bucket_elements index))) [
        | inl b ↦ rw b (
            evict-IsValid capacity now s' index lt counted' (λ i ne. ground (arith, valid.few i))
              (ground (arith, valid.few index)) total' (omega (arith, free)) e (s.buckets index)
              (ground arith))
        | inr b ↦ rw b (record {
          counted = counted';
          few = λ i. ground (arith, valid.few i);
          total = total';
          room = omega (arith, free);
        })
      ]

  insert_at-IsValid : IsValid capacity ((insert_at capacity now k v s index).0)
  unfolding insert_at
  insert_at-IsValid = elim (Option-cases (extract k (s.buckets index))) [
    | inl absent ↦ elim (Bool-cases (leb capacity s.cur_size)) [
      | inl full ↦
          rw (absent, full)
            (record {
              counted = valid.counted;
              few = valid.few;
              total = valid.total;
              room = valid.room;
            })
      | inr free ↦ rw (absent, free) (emplace-IsValid (ground arith))
    ]
    | inr ((e, rest), g) ↦
        rw g (touch-IsValid (record e { value = v }) rest (length-extract k (s.buckets index) g))
  ]

pub new-IsValid : (capacity : ℕ) → IsValid capacity new
unfolding new
new-IsValid capacity = record {
  counted = λ i. refl;
  few = λ i. omega arith;
  total = sym (sum_over-zero count capacity 0 refl);
  room = omega arith;
}

module _ (hash : Key → ℕ → ℕ) (capacity : ℕ) (now : ℕ) (k : Key) (s : LocalCache)
    (some_bucket : 0 < capacity) (valid : IsValid capacity s) where
  get_hashcode-lt : (seed : ℕ) → get_hashcode hash capacity k seed < capacity
  unfolding get_hashcode
  get_hashcode-lt seed = omega arith

  -- A valid cache of at least one bucket: `insert` always picks a bucket, whatever the hashes are, and
  -- the cache stays valid: no bucket has more than two entries, and the counters count the entries.
  pub insert-IsValid :
      (v : ℕ)
      → (s' : LocalCache) × (out : Option (Key × ℕ)) × ((insert hash capacity now k v s
            ≡ some (s', out))
          × IsValid capacity s')
  unfolding insert get_candidate_buckets
  insert-IsValid v =
      let few = valid.few (get_hashcode hash capacity k (salt 0)) in
      let low = get_hashcode-lt (salt 0) in
      let low' = get_hashcode-lt (salt 1) in
      let low'' = get_hashcode-lt (salt 2) in
      let (i, (e, which)) =
        least_loaded_lem s.bucket_elements (get_hashcode hash capacity k (salt 0))
          (get_hashcode hash capacity k (salt 1)) (get_hashcode hash capacity k (salt 2)) 3
          (omega (arith, few)) in
      let lt : i < capacity = ground arith in
      let r = insert_at capacity now k v s i in
      (r.0, r.1, (rw e refl, insert_at-IsValid capacity now k v s i valid lt))
