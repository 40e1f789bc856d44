-- ===== src/LocalCache/Tests.antt =====
-- A cache of 64 buckets; the stand-in for the hash of a key and a seed takes the seed's last digits.
use hybrid_heterogeneous_mem.Prelude.{ℕ, ◌+◌, ◌≡◌, refl, [], ◌∷◌, Option, some, none, arith}
use hybrid_heterogeneous_mem.Key.{Key}
use hybrid_heterogeneous_mem.LocalCache.{
  LocalCache, new, extract, salt, get_hashcode, insert, query,
}
use hybrid_heterogeneous_mem.LocalCache.Counts.{IsValid, new-IsValid, insert-IsValid}
use hybrid_heterogeneous_mem.LocalCache.Lookup.{query-insert, insert_twice}

abbrev key : Key
key = 0 ∷ 0 ∷ 0 ∷ 0 ∷ 0 ∷ 0 ∷ 1 ∷ 2 ∷ []

abbrev first_byte_hash : Key → ℕ → ℕ
first_byte_hash [] seed = seed
first_byte_hash (x ∷ xs) seed = x + seed

insert-IsValid_example :
    (s' : LocalCache) × (out : Option (Key × ℕ)) × ((insert first_byte_hash 64 5 key 7 new
        ≡ some (s', out))
      × IsValid 64 s')
insert-IsValid_example =
    insert-IsValid first_byte_hash 64 5 key new (omega arith) (new-IsValid 64) 7

query-insert_example :
    (s' : LocalCache) × (out : Option (Key × ℕ)) × ((insert first_byte_hash 64 5 key 7 new
        ≡ some (s', out))
      × ((query first_byte_hash 64 6 key s').1 ≡ some 7))
unfolding new extract
query-insert_example =
    query-insert first_byte_hash 64 5 6 key 7 new (new-IsValid 64) (omega arith) (λ c. refl)

insert_twice_example :
    (s s' : LocalCache) × ((insert first_byte_hash 64 1 key 7 new ≡ some (s, none))
      × ((insert first_byte_hash 64 2 key 8 s ≡ some (s', none))
          × ((s'.buckets (get_hashcode first_byte_hash 64 key (salt 0))
                ≡ record { key = key; value = 7; access_times = [] } ∷ [])
              × (s'.buckets (get_hashcode first_byte_hash 64 key (salt 1))
                  ≡ record { key = key; value = 8; access_times = [] } ∷ [])
              × (s'.cur_size ≡ 2)
              × ((query first_byte_hash 64 3 key s').1 ≡ some 7))))
unfolding get_hashcode salt
insert_twice_example = insert_twice first_byte_hash 64 1 2 3 key 7 8 (omega arith) (omega arith)
