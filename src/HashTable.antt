-- ===== src/HashTable.antt =====
-- include/MyLocalHashTable.h: a hash table from keys to values with a list for each bucket.
pub mod Lookup
pub mod Tests
use hybrid_heterogeneous_mem.Prelude.{
  ℕ, zero, suc, ◌+◌, ◌-◌, ◌*◌, ◌%◌, ◌^◌, ◌<◌, ◌≤◌, ◌≡◌, Bool, true, false, Option, none, some, List,
  [], ◌∷◌, ◌++◌, if◌then◌else◌,
}
use hybrid_heterogeneous_mem.Prelude.Threads.{replace}
use hybrid_heterogeneous_mem.Key.{Key}
use hybrid_heterogeneous_mem.LockTable.Slot.{eq_key}

-- `Node`, as its key and its value.
abbrev pub HashNode : Type 0
HashNode = Key × ℕ

-- There are `capacity` buckets at all times.
pub record HashTable : Type 0 where
  pub buckets : ℕ → List HashNode
  pub capacity : ℕ
  pub count : ℕ

-- The loop of `get_hashcode` over the bytes of the key, in 64 bits.
unfoldable pub hash_bytes : ℕ → Key → ℕ
hash_bytes hash [] = hash
hash_bytes hash (x ∷ xs) = hash_bytes ((hash * 2 ^ 5 + hash + x) % 2 ^ 64) xs

unfoldable pub hashcode : Key → ℕ → ℕ
hashcode k hash_size = hash_bytes 5381 k % hash_size

unfoldable pub make_table : ℕ → HashTable
make_table capacity = record { buckets = λ _. []; capacity = capacity; count = 0 }

-- The loop over a bucket: the value of the first node of the key.
unfoldable pub find : Key → List HashNode → Option ℕ
find k [] = none
find k (x ∷ xs) = let rest = find k xs in if eq_key x.0 k then some x.1 else rest

-- The assignment to the value of the first node of the key, and to no node without one.
unfoldable pub assign : Key → ℕ → List HashNode → List HashNode
assign k v [] = []
assign k v (x ∷ xs) = let rest = assign k v xs in if eq_key x.0 k then (x.0, v) ∷ xs else x ∷ rest

-- The inner loop of `rehash`, over the nodes of one bucket.
unfoldable pub move_nodes : ℕ → List HashNode → (ℕ → List HashNode) → ℕ → List HashNode
move_nodes new_capacity [] new_buckets = new_buckets
move_nodes new_capacity (x ∷ xs) new_buckets =
    let index = hashcode x.0 new_capacity in
    move_nodes new_capacity xs (replace new_buckets index (new_buckets index ++ x ∷ []))

-- The outer loop, over the first `n` buckets.
unfoldable pub move_buckets : ℕ → (ℕ → List HashNode) → ℕ → ℕ → List HashNode
move_buckets new_capacity buckets zero = λ _. []
move_buckets new_capacity buckets (suc n) =
    move_nodes new_capacity (buckets n) (move_buckets new_capacity buckets n)

unfoldable pub rehash : ℕ → HashTable → HashTable
rehash new_capacity t = record t {
  buckets = move_buckets new_capacity t.buckets t.capacity;
  capacity = new_capacity;
}

unfoldable pub lookup : Key → HashTable → Option ℕ
lookup k t = find k (t.buckets (hashcode k t.capacity))

-- `insert` behind the test of the load.
unfoldable pub put : Key → ℕ → HashTable → Bool × HashTable
put k v t =
    let index = hashcode k t.capacity in
    let found = find k (t.buckets index) in
    elim found [
      | some old ↦
          (false, record t { buckets = replace t.buckets index (assign k v (t.buckets index)) })
      | none ↦ (
        true,
        record t {
          buckets = replace t.buckets index (t.buckets index ++ (k, v) ∷ []);
          count = t.count + 1;
        },
      )
    ]

-- `insert`; `crowded` is the comparison of the size with the product of the load factor, a `float`.
unfoldable pub insert_node : (ℕ → ℕ → Bool) → Key → ℕ → HashTable → Bool × HashTable
insert_node crowded k v t =
    put k v (if crowded t.count t.capacity then rehash (t.capacity * 2) t else t)

-- The node that `erase` takes out of a bucket is the first one of the key.
unfoldable pub drop_first : Key → List HashNode → List HashNode
drop_first k [] = []
drop_first k (x ∷ xs) = let rest = drop_first k xs in if eq_key x.0 k then xs else x ∷ rest

unfoldable pub erase : Key → HashTable → Bool × HashTable
erase k t =
    let index = hashcode k t.capacity in
    let found = find k (t.buckets index) in
    elim found [
      | none ↦ (false, t)
      | some old ↦ (
        true,
        record t {
          buckets = replace t.buckets index (drop_first k (t.buckets index));
          count = t.count - 1;
        },
      )
    ]
