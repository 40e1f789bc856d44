-- ===== src/Leaf/Tests.antt =====
-- A leaf, with the value in place of its checksum.
use hybrid_heterogeneous_mem.Prelude.{
  ℕ, ◌+◌, ◌≤◌, ◌≡◌, refl, true, some, List, [], ◌∷◌, ◌++◌, arith, ℕ_discrete, ◌⊎◌,
}
use hybrid_heterogeneous_mem.Prelude.Threads.{replace, sum_over}
use hybrid_heterogeneous_mem.Address.{GlobalAddress, eq_address}
use hybrid_heterogeneous_mem.Key.{Key}
use hybrid_heterogeneous_mem.Leaf.{
  Leaf, is_valid, is_consistent, acquire_lock, away, acquiring, holding, writing, called, acquired,
  began, lock, read_leaf,
}
use hybrid_heterogeneous_mem.Leaf.Read.{read_leaf_lem}
use hybrid_heterogeneous_mem.Leaf.Update.{
  System, turn, Reach, start, later, holds, writes, in_place_updates,
}

abbrev value_as_crc : Key → ℕ → ℕ
value_as_crc k v = v

abbrev parent : GlobalAddress
parent = record { node_id = 1; offset = 256 }

abbrev whole_leaf : Leaf
whole_leaf = record {
  rev_ptr = parent;
  valid = true;
  checksum = 5;
  key = 7 ∷ [];
  value = 5;
  w_lock = 0;
}

abbrev torn_leaf : Leaf
torn_leaf = record whole_leaf { value = 6 }

read_leaf_lem_example :
    (cas : List (GlobalAddress × GlobalAddress)) × (read_leaf value_as_crc parent true
        ((torn_leaf ∷ []) ++ whole_leaf ∷ [])
      ≡ some (is_valid parent true whole_leaf, whole_leaf, cas))
unfolding is_valid is_consistent eq_address
read_leaf_lem_example =
    read_leaf_lem value_as_crc parent true (torn_leaf ∷ []) [] whole_leaf (refl, tt) refl

abbrev waiting : System
waiting = record { remote = whole_leaf; pc = replace (λ _. away) 0 (acquiring 8 whole_leaf) }

abbrev locked_leaf : Leaf
locked_leaf = record whole_leaf { w_lock = 1 }

-- The first bytes of the write are there: the checksum is the new one, the value the old one.
abbrev half_done : System
half_done = record {
  remote = record locked_leaf { checksum = 8 };
  pc = replace (replace waiting.pc 0 (holding 8 whole_leaf)) 0 (writing 8 whole_leaf);
}

run : Reach value_as_crc (7 ∷ []) 2 whole_leaf half_done
unfolding acquire_lock lock ℕ_discrete
run =
    later
      (later (later start (turn 0 (omega arith) (called 8 whole_leaf refl)))
        (turn 0 (omega arith) (acquired refl)))
      (turn 0 (omega arith) (began refl refl))

in_place_updates_example :
    (holds (half_done.pc 0) + holds (half_done.pc 1) ≤ half_done.remote.w_lock)
    × (half_done.remote.w_lock ≤ 1)
    × (half_done.remote.key ≡ 7 ∷ [])
    × ((is_consistent value_as_crc half_done.remote ≡ true)
        ⊎ ((half_done.remote.w_lock ≡ 1) × (1 ≤ sum_over writes 2 half_done.pc)))
unfolding is_consistent
in_place_updates_example =
    in_place_updates value_as_crc {n = 2} {leaf = whole_leaf} {s = half_done} {i = 0} {j = 1} refl
      refl run (omega arith) (omega arith) (omega arith)
