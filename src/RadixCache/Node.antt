-- ===== src/RadixCache/Node.antt =====
-- The nodes of the cache of include/RadixCache.h, and `_insert` and `invalidate` of src/RadixCache.cpp on
-- them. A pointer to a node is the node, since each stands in one record; the slot of an entry is the
-- bytes that lead to it. A function gets the bytes of the array from the depth of the node on: `hdr->depth`
-- is always the number of bytes that lead to the node, as RadixCache.Placed shows. `charged` is what
-- `node_mem_size` has for the node, 0 if it has nothing.
use hybrid_heterogeneous_mem.Prelude.{
  ℕ, suc, ◌+◌, ◌*◌, Bool, true, false, Option, none, some, List, [], ◌∷◌, ◌==◌, if◌then◌else◌,
  length, take, drop,
}
use hybrid_heterogeneous_mem.RadixCache.Entry.{CacheEntry, entry_size}

-- A record is `here` if its `next` is null, and `down` otherwise.
mutual
  pub data CacheNode : Type 0 where
    node : ℕ → List ℕ → ℕ → CacheMap → CacheNode

  pub data CacheMap : Type 0 where
    nil : CacheMap
    here : ℕ → Option CacheEntry → CacheMap → CacheMap
    down : ℕ → Option CacheEntry → CacheNode → CacheMap → CacheMap

unfoldable pub map_size : CacheMap → ℕ
map_size nil = 0
map_size (here b e rs) = suc (map_size rs)
map_size (down b e n rs) = suc (map_size rs)

-- `content_size` of a node.
unfoldable pub node_size : List ℕ → CacheMap → ℕ
node_size partial rs = 1 + length partial + (1 + 8 + 8) * map_size rs

-- How the walk over a header ends: in front of a byte of it, with that byte, the byte of the array and the
-- bytes behind it; or behind the header, at a byte of the array; or outside of the array.
pub data Parse : Type 0 where
  split : ℕ → ℕ → ℕ → List ℕ → Parse
  passed : ℕ → List ℕ → Parse
  out : Parse

-- The loop over the header from `i` on, with the bytes of the array there.
unfoldable pub parse : List ℕ → List ℕ → ℕ → Parse
parse [] partial i = out
parse (y ∷ ys) [] i = passed y ys
parse (y ∷ []) (x ∷ xs) i = split i x y []
parse (y ∷ z ∷ ys) (x ∷ xs) i =
    let on = parse (z ∷ ys) xs (i + 1) in if y == x then on else split i x y (z ∷ ys)

unfoldable pub but_last : List ℕ → List ℕ
but_last [] = []
but_last (x ∷ []) = []
but_last (x ∷ y ∷ ys) = x ∷ but_last (y ∷ ys)

unfoldable pub last_byte : List ℕ → ℕ
last_byte [] = 0
last_byte (x ∷ []) = x
last_byte (x ∷ y ∷ ys) = last_byte (y ∷ ys)

-- `consume_by_node`: the node with its size noted.
unfoldable pub charge : ℕ → List ℕ → CacheMap → CacheNode
charge depth partial rs = node depth partial (node_size partial rs) rs

-- A node with one entry, at the last byte of the array.
unfoldable pub leaf_node : ℕ → List ℕ → CacheEntry → CacheNode
unfolding charge node_size map_size but_last last_byte
leaf_node start bytes e = charge start (but_last bytes) (here (last_byte bytes) (some e) nil)

-- The size of a node made by `leaf_node`.
unfoldable pub leaf_size : List ℕ → ℕ
unfolding node_size map_size but_last last_byte
leaf_size bytes = 1 + length (but_last bytes) + (1 + 8 + 8) * 1

-- What an insertion made of a node, and the bytes that it took from `free_size` and gave back.
pub record Inserted : Type 0 where
  pub result : CacheNode
  pub consumed : ℕ
  pub freed : ℕ

-- What an insertion made of the records, with the sizes, and whether the node itself is to be charged.
pub record Stored : Type 0 where
  pub records : CacheMap
  pub took : ℕ
  pub gave : ℕ
  pub touched : Bool

-- The records of the node that splits a header: of `next_node` at its byte `x`, and of the new entry at `y`.
unfoldable pub split_records : ℕ → CacheNode → ℕ → ℕ → List ℕ → CacheEntry → CacheMap
unfolding leaf_node
split_records start next_node x y later e =
    if x == y
    then down x (some e) next_node nil
    else down x none next_node (elim later [
      | [] ↦ here y (some e) nil
      | z ∷ zs ↦ down y none (leaf_node start (z ∷ zs) e) nil
    ])

-- What the nested node takes, if there is one.
unfoldable pub nested_size : ℕ → ℕ → List ℕ → ℕ
unfolding leaf_size
nested_size x y [] = 0
nested_size x y (z ∷ zs) = if x == y then 0 else leaf_size (z ∷ zs)

-- The split of a header in front of its byte `i`.
unfoldable pub split_node :
    ℕ → List ℕ → ℕ → CacheMap → List ℕ → ℕ → ℕ → ℕ → List ℕ → CacheEntry → Inserted
unfolding charge node_size split_records nested_size
split_node depth partial charged rs rest i x y later e =
    let start = depth + i + 1 in
    let new_partial = drop (i + 1) partial in
    let new_records = split_records start (charge start new_partial rs) x y later e in
    record {
      result = charge depth (take i rest) new_records;
      consumed =
          node_size (take i rest) new_records
          + nested_size x y later
          + node_size new_partial rs
          + entry_size e;
      freed = charged;
    }

-- `free_manager->free` of the entry that was replaced.
unfoldable pub old_size : Option CacheEntry → ℕ
old_size none = 0
old_size (some e) = entry_size e

-- A record with the byte was not there.
unfoldable pub new_record : ℕ → ℕ → List ℕ → CacheEntry → Stored
unfolding leaf_node leaf_size
new_record idx y [] e = record {
  records = here y (some e) nil;
  took = entry_size e;
  gave = 0;
  touched = true;
}
new_record idx y (z ∷ zs) e = record {
  records = down y none (leaf_node (idx + 1) (z ∷ zs) e) nil;
  took = leaf_size (z ∷ zs) + entry_size e;
  gave = 0;
  touched = true;
}

-- A record without a next node.
unfoldable pub store_here : ℕ → ℕ → Option CacheEntry → CacheMap → List ℕ → CacheEntry → Stored
unfolding leaf_node leaf_size
store_here idx b old rs [] e = record {
  records = here b (some e) rs;
  took = entry_size e;
  gave = old_size old;
  touched = true;
}
store_here idx b old rs (z ∷ zs) e = record {
  records = down b old (leaf_node (idx + 1) (z ∷ zs) e) rs;
  took = leaf_size (z ∷ zs) + entry_size e;
  gave = 0;
  touched = true;
}

-- A record with a next node, and what the insertion below it makes of that.
unfoldable pub store_down :
    ℕ → Option CacheEntry → CacheNode → CacheMap → List ℕ → CacheEntry → Inserted → Stored
store_down b old n rs [] e below = record {
  records = down b (some e) n rs;
  took = entry_size e;
  gave = old_size old;
  touched = true;
}
store_down b old n rs (z ∷ zs) e below = record {
  records = down b old below.result rs;
  took = below.consumed;
  gave = below.freed;
  touched = false;
}

-- The node around the records.
unfoldable pub rebuilt : ℕ → List ℕ → ℕ → Stored → Inserted
unfolding charge node_size
rebuilt depth partial charged s =
    if s.touched
    then record {
      result = charge depth partial s.records;
      consumed = s.took + node_size partial s.records;
      freed = s.gave + charged;
    }
    else record { result = node depth partial charged s.records; consumed = s.took; freed = s.gave }

-- The record of another byte stays in front.
unfoldable pub behind_here : ℕ → Option CacheEntry → Stored → Stored
behind_here b old s = record s { records = here b old s.records }

unfoldable pub behind_down : ℕ → Option CacheEntry → CacheNode → Stored → Stored
behind_down b old n s = record s { records = down b old n s.records }

-- What becomes of a node, by how the walk over its header ended; `store` puts the entry into the records.
unfoldable pub insert_at :
    ℕ → List ℕ → ℕ → CacheMap → List ℕ → CacheEntry → (ℕ → List ℕ → Stored) → Parse → Inserted
insert_at depth partial charged rs rest e store out = record {
  result = node depth partial charged rs;
  consumed = 0;
  freed = 0;
}
insert_at depth partial charged rs rest e store (split i x y later) =
    split_node depth partial charged rs rest i x y later e
insert_at depth partial charged rs rest e store (passed y later) =
    rebuilt depth partial charged (store y later)

-- `_insert` from a node on, and in its records from one on.
unfoldable mutual
  pub insert_node : List ℕ → CacheEntry → CacheNode → Inserted
  insert_node rest e (node depth partial charged rs) =
      insert_at depth partial charged rs rest e
        (λ y later. insert_records (depth + length partial) y later e rs) (parse rest partial 0)

  pub insert_records : ℕ → ℕ → List ℕ → CacheEntry → CacheMap → Stored
  insert_records idx y later e nil = new_record idx y later e
  insert_records idx y later e (here b old rs) =
      let other = behind_here b old (insert_records idx y later e rs) in
      if b == y then store_here idx b old rs later e else other
  insert_records idx y later e (down b old n rs) =
      let other = behind_down b old n (insert_records idx y later e rs) in
      let same = store_down b old n rs later e (insert_node later e n) in
      if b == y then same else other

-- The entry that the bytes lead to.
unfoldable mutual
  pub entry_of : List ℕ → CacheNode → Option CacheEntry
  entry_of rest (node depth partial charged rs) = elim (parse rest partial 0) [
    | out ↦ none
    | split i x y later ↦ none
    | passed y later ↦ entry_in y later rs
  ]

  pub entry_in : ℕ → List ℕ → CacheMap → Option CacheEntry
  entry_in y later nil = none
  entry_in y [] (here b e rs) = if b == y then e else entry_in y [] rs
  entry_in y (z ∷ zs) (here b e rs) = if b == y then none else entry_in y (z ∷ zs) rs
  entry_in y [] (down b e n rs) = if b == y then e else entry_in y [] rs
  entry_in y (z ∷ zs) (down b e n rs) =
      if b == y then entry_of (z ∷ zs) n else entry_in y (z ∷ zs) rs
