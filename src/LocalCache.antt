-- ===== src/LocalCache.antt =====
-- include/LocalCache.h: the cache of keys and values in the memory of a compute node. An operation is
-- one step here; in the source it takes the lock of a bucket for each visit. The time of an operation
-- is `std::time`, `hash` stands for `CityHash64WithSeed` on the bytes of a key, and what
-- `Tree::migrate_local_cache_to_radix_cache` is called on is given back.
pub mod Counts
pub mod Lookup
pub mod Tests
use hybrid_heterogeneous_mem.Prelude.{
  ℕ, ◌+◌, ◌-◌, ◌*◌, ◌%◌, ◌^◌, ◌<◌, ◌≤◌, ◌≡◌, Bool, true, false, Option, none, some, List, [], ◌∷◌,
  ◌++◌, ltb, leb, ◌==◌, if◌then◌else◌, length,
}
use hybrid_heterogeneous_mem.Prelude.Threads.{replace}
use hybrid_heterogeneous_mem.Key.{Key}
use hybrid_heterogeneous_mem.LockTable.Slot.{eq_key}

-- `Node`
pub record Entry : Type 0 where
  pub key : Key
  pub value : ℕ
  pub access_times : List ℕ

-- The vectors have `capacity` elements.
pub record LocalCache : Type 0 where
  pub cur_size : ℕ
  pub buckets : ℕ → List Entry
  pub bucket_elements : ℕ → ℕ
  pub sum_evict_time : ℕ
  pub sum_migrate_time : ℕ
  pub sum_reject_time : ℕ
  pub local_cache_hit : ℕ
  pub local_cache_miss : ℕ

abbrev pub window_time_duration : ℕ
window_time_duration = 10

abbrev pub bucket_elements_limit : ℕ
bucket_elements_limit = 2

abbrev pub migration_threshold : ℕ
migration_threshold = 2

-- The constructor.
unfoldable pub new : LocalCache
new = record {
  cur_size = 0;
  buckets = λ _. [];
  bucket_elements = λ _. 0;
  sum_evict_time = 0;
  sum_migrate_time = 0;
  sum_reject_time = 0;
  local_cache_hit = 0;
  local_cache_miss = 0;
}

-- The loop that pops the times that are out of the window; the difference is taken as a `size_t`.
unfoldable pub expire : ℕ → List ℕ → List ℕ
expire now [] = []
expire now (t ∷ ts) =
    let rest = expire now ts in
    if ltb window_time_duration ((now + 2 ^ 64 - t) % 2 ^ 64) then rest else t ∷ ts

unfoldable pub update_access_time : ℕ → Entry → Entry
update_access_time now e = record e { access_times = expire now e.access_times ++ (now ∷ []) }

unfoldable pub get_access_count : ℕ → Entry → ℕ
get_access_count now e = length (expire now e.access_times)

unfoldable pub should_migrate : ℕ → Entry → Bool
should_migrate now e = ltb migration_threshold (get_access_count now e)

-- The loop that looks for the key: its entry, and the bucket without it.
unfoldable pub extract : Key → List Entry → Option (Entry × List Entry)
extract k [] = none
extract k (e ∷ es) =
    let found = extract k es in if eq_key e.key k then some (e, es) else put_back e found
  where
    put_back : Entry → Option (Entry × List Entry) → Option (Entry × List Entry)
    put_back e none = none
    put_back e (some (x, rest)) = some (x, e ∷ rest)

-- `back` and `pop_back`
unfoldable pub pop_back : List Entry → Option (List Entry × Entry)
pop_back [] = none
pop_back (e ∷ es) = let rest = pop_back es in keep e rest
  where
    keep : Entry → Option (List Entry × Entry) → Option (List Entry × Entry)
    keep e none = some ([], e)
    keep e (some (front, last)) = some (e ∷ front, last)

-- The salt of a round: the product is 32 bits wide, is passed as an `int` and becomes a 64-bit seed.
unfoldable pub salt : ℕ → ℕ
salt i =
    let product = i * 2654435769 % 2 ^ 32 in
    if ltb product (2 ^ 31) then product else product + 2 ^ 64 - 2 ^ 32

-- The parameters `hash` and `capacity` of a cache.
module _ (hash : Key → ℕ → ℕ) (capacity : ℕ) where
  unfoldable pub get_hashcode : Key → ℕ → ℕ
  get_hashcode k seed = hash k seed % capacity

  unfoldable pub get_candidate_buckets : Key → List ℕ
  get_candidate_buckets k =
      get_hashcode k (salt 0) ∷ get_hashcode k (salt 1) ∷ get_hashcode k (salt 2) ∷ []

-- The loop of `insert` over the candidates; the index is not initialised before a bucket is picked.
unfoldable pub least_loaded : (ℕ → ℕ) → List ℕ → Option ℕ → ℕ → Option ℕ
least_loaded elements [] index min_load = index
least_loaded elements (c ∷ cs) index min_load =
    let pick = least_loaded elements cs (some c) (elements c) in
    let skip = least_loaded elements cs index min_load in
    if ltb (elements c) min_load then pick else skip

-- The found entry moves to the front of its bucket.
unfoldable pub touch : ℕ → LocalCache → ℕ → Entry → List Entry → LocalCache
touch now s index e rest = record s {
  buckets = replace s.buckets index (update_access_time now e ∷ rest);
}

-- The eviction at the end of `insert`, with the key and the value that are migrated.
unfoldable pub evict : ℕ → LocalCache → ℕ → LocalCache × Option (Key × ℕ)
evict now s index = drop_last (pop_back (s.buckets index))
  where
    drop_last : Option (List Entry × Entry) → LocalCache × Option (Key × ℕ)
    drop_last none = (s, none)
    drop_last (some (front, last)) =
        let s' : LocalCache = record s {
          buckets = replace s.buckets index front;
          bucket_elements = replace s.bucket_elements index (s.bucket_elements index - 1);
          sum_evict_time = s.sum_evict_time + 1;
          cur_size = s.cur_size - 1;
        } in
        if should_migrate now last
        then ((
          record s' { sum_migrate_time = s'.sum_migrate_time + 1 },
          some (last.key, last.value),
        ))
        else (s', none)

-- `emplace_front` and what follows it.
unfoldable pub emplace : ℕ → Key → ℕ → LocalCache → ℕ → LocalCache × Option (Key × ℕ)
emplace now k v s index =
    let e : Entry = record { key = k; value = v; access_times = [] } in
    let s' : LocalCache = record s {
      buckets = replace s.buckets index (e ∷ s.buckets index);
      bucket_elements = replace s.bucket_elements index (s.bucket_elements index + 1);
      cur_size = s.cur_size + 1;
    } in
    let out = evict now s' index in
    if ltb bucket_elements_limit (s'.bucket_elements index) then out else (s', none)

-- `insert` from the second lock on.
unfoldable pub insert_at : ℕ → ℕ → Key → ℕ → LocalCache → ℕ → LocalCache × Option (Key × ℕ)
insert_at capacity now k v s index = go (extract k (s.buckets index))
  where
    go : Option (Entry × List Entry) → LocalCache × Option (Key × ℕ)
    go (some (e, rest)) = (touch now s index (record e { value = v }) rest, none)
    go none =
        if leb capacity s.cur_size
        then ((record s { sum_reject_time = s.sum_reject_time + 1 }, none))
        else emplace now k v s index

module _ (hash : Key → ℕ → ℕ) (capacity : ℕ) where
  -- `none` where the source uses an index that was never set.
  unfoldable pub insert : ℕ → Key → ℕ → LocalCache → Option (LocalCache × Option (Key × ℕ))
  insert now k v s = go (
      least_loaded s.bucket_elements (get_candidate_buckets hash capacity k) none
        (bucket_elements_limit + 1))
    where
      go : Option ℕ → Option (LocalCache × Option (Key × ℕ))
      go none = none
      go (some index) = some (insert_at capacity now k v s index)

-- The loop of `query` over the candidates.
unfoldable pub query_in : ℕ → Key → LocalCache → List ℕ → LocalCache × Option ℕ
query_in now k s [] = (record s { local_cache_miss = s.local_cache_miss + 1 }, none)
query_in now k s (c ∷ cs) = let rest = query_in now k s cs in found (extract k (s.buckets c)) rest
  where
    found : Option (Entry × List Entry) → LocalCache × Option ℕ → LocalCache × Option ℕ
    found none rest = rest
    found (some (e, others)) rest =
        let s' = touch now s c e others in
        (record s' { local_cache_hit = s'.local_cache_hit + 1 }, some e.value)

module _ (hash : Key → ℕ → ℕ) (capacity : ℕ) where
  unfoldable pub query : ℕ → Key → LocalCache → LocalCache × Option ℕ
  query now k s = query_in now k s (get_candidate_buckets hash capacity k)
