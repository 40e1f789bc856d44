-- ===== src/HashTable/Tests.antt =====
-- A table of two buckets, before and behind a rehash.
use hybrid_heterogeneous_mem.Prelude.{
  ℕ, ◌*◌, ◌≡◌, refl, Bool, leb, some, [], ◌∷◌, if◌then◌else◌, arith,
}
use hybrid_heterogeneous_mem.Key.{Key}
use hybrid_heterogeneous_mem.LockTable.Slot.{eq_key}
use hybrid_heterogeneous_mem.HashTable.{make_table, find, lookup, insert_node}
use hybrid_heterogeneous_mem.HashTable.Lookup.{IsSorted, lookup-insert_node}

abbrev key : Key
key = 1 ∷ 2 ∷ []

abbrev other : Key
other = 1 ∷ 3 ∷ []

abbrev crowded_table : ℕ → ℕ → Bool
crowded_table count capacity = leb (3 * capacity) (4 * count)

two_buckets-IsSorted : IsSorted (make_table 2)
unfolding make_table find
two_buckets-IsSorted k i ne = refl

lookup-insert_node_example :
    lookup other (insert_node crowded_table key 5 (make_table 2)).1
    ≡ (if eq_key key other then some 5 else lookup other (make_table 2))
unfolding make_table
lookup-insert_node_example =
    lookup-insert_node crowded_table key other 5 (make_table 2) two_buckets-IsSorted (omega arith)
