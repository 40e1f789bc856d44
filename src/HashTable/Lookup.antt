-- ===== src/HashTable/Lookup.antt =====
-- The table as a map from keys to values.
use hybrid_heterogeneous_mem.Prelude.{
  ℕ, zero, suc, ◌*◌, ◌<◌, ◌≤◌, ◌≡◌, ◌≢◌, refl, ap, sym, ◌∙◌, Bool, true, false, Option, none, some,
  List, [], ◌∷◌, ◌++◌, if◌then◌else◌, Bool-cases, Option-cases, inl, inr, arith, ℕ_discrete,
}
use hybrid_heterogeneous_mem.Prelude.Threads.{replace}
use hybrid_heterogeneous_mem.Key.{Key}
use hybrid_heterogeneous_mem.LockTable.Slot.{eq_key, eq_key_refl, eq_key→eq}
use hybrid_heterogeneous_mem.HashTable.{
  HashNode, HashTable, hashcode, find, assign, move_nodes, move_buckets, rehash, lookup, put,
  insert_node,
}

-- The first value if there is one, the second one otherwise.
abbrev pub or_else : Option ℕ → Option ℕ → Option ℕ
or_else (some v) o = some v
or_else none o = o

or_else_assoc : (a b c : Option ℕ) → or_else (or_else a b) c ≡ or_else a (or_else b c)
or_else_assoc none b c = refl
or_else_assoc (some v) b c = refl

find-append :
    (k : Key) (xs ys : List HashNode) → find k (xs ++ ys) ≡ or_else (find k xs) (find k ys)
unfolding find
find-append k [] ys = refl
find-append k (x ∷ xs) ys = elim (Bool-cases (eq_key x.0 k)) [
  | inl same ↦ rw same refl
  | inr other ↦ rw other (find-append k xs ys)
]

or_else-none : (a : Option ℕ) → or_else a none ≡ a
or_else-none none = refl
or_else-none (some v) = refl

replace_at : (b : ℕ → List HashNode) (i j : ℕ) (a : List HashNode) → j ≡ i → replace b i a j ≡ a
replace_at b i j a e = ground arith

replace_ne : (b : ℕ → List HashNode) (i j : ℕ) (a : List HashNode) → j ≢ i → replace b i a j ≡ b j
replace_ne b i j a e = ground arith

-- A node in another bucket is of another key.
eq_key_apart : (k j : Key) (size : ℕ) → hashcode k size ≢ hashcode j size → eq_key j k ≡ false
eq_key_apart k j size ne = elim (Bool-cases (eq_key j k)) [
  | inl same ↦ absurd (ne (ap (λ q. hashcode q size) (sym (eq_key→eq j k same))))
  | inr other ↦ other
]

-- A node that moves is found behind what is there already.
find-moved :
    (k : Key) (size : ℕ) (x : HashNode) (b : ℕ → List HashNode)
    → find k (replace b (hashcode x.0 size) (b (hashcode x.0 size) ++ x ∷ []) (hashcode k size))
      ≡ or_else (find k (b (hashcode k size))) (find k (x ∷ []))
unfolding find
find-moved k size x b = elim (ℕ_discrete (hashcode k size) (hashcode x.0 size)) [
  | yes here ↦
      ap (find k)
        (replace_at b (hashcode x.0 size) (hashcode k size) (b (hashcode x.0 size) ++ x ∷ []) here)
      ∙ find-append k (b (hashcode x.0 size)) (x ∷ [])
      ∙ ap (λ i. or_else (find k (b i)) (find k (x ∷ []))) (sym here)
  | no there ↦
      ap (find k)
        (replace_ne b (hashcode x.0 size) (hashcode k size) (b (hashcode x.0 size) ++ x ∷ []) there)
      ∙ rw (eq_key_apart k x.0 size there) (sym (or_else-none (find k (b (hashcode k size)))))
]

find-move_nodes :
    (k : Key) (size : ℕ) (xs : List HashNode) (b : ℕ → List HashNode)
    → find k (move_nodes size xs b (hashcode k size))
      ≡ or_else (find k (b (hashcode k size))) (find k xs)
unfolding move_nodes find
find-move_nodes k size [] b = sym (or_else-none (find k (b (hashcode k size))))
find-move_nodes k size (x ∷ xs) b =
    let index = hashcode x.0 size in
    find-move_nodes k size xs (replace b index (b index ++ x ∷ []))
    ∙ ap (λ o. or_else o (find k xs)) (find-moved k size x b)
    ∙ or_else_assoc (find k (b (hashcode k size))) (find k (x ∷ [])) (find k xs)
    ∙ ap (or_else (find k (b (hashcode k size)))) (sym (find-append k (x ∷ []) xs))

-- Each bucket has keys of its own hash code only.
abbrev pub IsSorted : HashTable → Type 0
IsSorted t = (k : Key) (i : ℕ) → i ≢ hashcode k t.capacity → find k (t.buckets i) ≡ none

-- The first `n` buckets, when only the one of the key may have it.
find-move_buckets :
    (k : Key) (size : ℕ) (t : HashTable)
    → IsSorted t
    → (n : ℕ)
    → (hashcode k t.capacity < n
        → find k (move_buckets size t.buckets n (hashcode k size)) ≡ lookup k t)
      × (n ≤ hashcode k t.capacity
          → find k (move_buckets size t.buckets n (hashcode k size)) ≡ none)
unfolding move_buckets lookup find
find-move_buckets k size t h zero = ((λ lt. absurd (omega arith)), λ le. refl)
find-move_buckets k size t h (suc n) =
    let (before, behind) = find-move_buckets k size t h n in
    let step = find-move_nodes k size (t.buckets n) (move_buckets size t.buckets n) in
    elim (ℕ_discrete n (hashcode k t.capacity)) [
      | yes here ↦ (
        (λ lt. step ∙ rw (behind (omega arith)) (ap (λ i. find k (t.buckets i)) here)),
        λ le. absurd (omega arith),
      )
      | no there ↦ (
        (λ lt. step ∙ rw (before (omega arith), h k n there) (or_else-none (lookup k t))),
        λ le. step ∙ rw (behind (omega arith), h k n there) refl,
      )
    ]

-- A table with buckets, in which every node is in the bucket of its key: a rehash to any positive number
-- of buckets changes the value of no key.
pub lookup-rehash :
    (k : Key) (size : ℕ) (t : HashTable)
    → IsSorted t
    → 0 < t.capacity
    → 0 < size
    → lookup k (rehash size t) ≡ lookup k t
unfolding rehash lookup hashcode
lookup-rehash k size t h pos pos' = (find-move_buckets k size t h t.capacity).0 (omega arith)

clash : {x k j : Key} → x ≡ j → k ≡ j → eq_key x k ≡ false → ⊥
clash {x} {k} {j} e e' f =
    true≢false (sym (eq_key_refl j) ∙ ap (λ q. eq_key q j) (sym e) ∙ ap (eq_key x) (sym e') ∙ f)
  where
    true≢false : true ≡ false → ⊥
    true≢false g = cc

find-skip :
    (k : Key) (x : HashNode) (xs : List HashNode)
    → eq_key x.0 k ≡ false
    → find k (x ∷ xs) ≡ find k xs
unfolding find
find-skip k x xs other = rw other refl

find-assign :
    (k j : Key) (v : ℕ) (xs : List HashNode) {old : ℕ}
    → find k xs ≡ some old
    → find j (assign k v xs) ≡ (if eq_key k j then some v else find j xs)
unfolding find assign
find-assign k j v [] g = cc
find-assign k j v (x ∷ xs) g = elim (Bool-cases (eq_key x.0 k)) [
  | inl same ↦ elim (Bool-cases (eq_key k j)) [
    | inl at_j ↦ rw (same, eq_key→eq x.0 k same, at_j) refl
    | inr not_j ↦ rw (same, eq_key→eq x.0 k same, not_j) refl
  ]
  | inr other ↦
      let rest = find-assign k j v xs (sym (find-skip k x xs other) ∙ g) in
      elim (Bool-cases (eq_key x.0 j)) [
        | inl here ↦ elim (Bool-cases (eq_key k j)) [
          | inl same ↦ absurd (clash (eq_key→eq x.0 j here) (eq_key→eq k j same) other)
          | inr not_j ↦ rw (other, here, not_j) refl
        ]
        | inr there ↦ rw (other, there) rest
      ]
]

find-new :
    (k j : Key) (v : ℕ) (xs : List HashNode)
    → find k xs ≡ none
    → find j (xs ++ (k, v) ∷ []) ≡ (if eq_key k j then some v else find j xs)
unfolding find
find-new k j v xs g = find-append j xs ((k, v) ∷ []) ∙ elim (Bool-cases (eq_key k j)) [
  | inl same ↦ rw (same, sym (eq_key→eq k j same), g) refl
  | inr other ↦ rw other (or_else-none (find j xs))
]

-- A bucket that gives the key its value, and the other keys theirs, in place of the key's bucket.
find-replaced :
    (k j : Key) (v : ℕ) (t : HashTable) (b : List HashNode)
    → find j b ≡ (if eq_key k j then some v else find j (t.buckets (hashcode k t.capacity)))
    → find j (replace t.buckets (hashcode k t.capacity) b (hashcode j t.capacity))
      ≡ (if eq_key k j then some v else find j (t.buckets (hashcode j t.capacity)))
find-replaced k j v t b e = elim (ℕ_discrete (hashcode j t.capacity) (hashcode k t.capacity)) [
  | yes here ↦
      ap (find j) (replace_at t.buckets (hashcode k t.capacity) (hashcode j t.capacity) b here)
      ∙ e
      ∙ ap (λ i. if eq_key k j then some v else find j (t.buckets i)) (sym here)
  | no there ↦
      ap (find j) (replace_ne t.buckets (hashcode k t.capacity) (hashcode j t.capacity) b there)
      ∙ rw (eq_key_apart j k t.capacity there) refl
]

-- `put` gives the key its value, and no other key another one.
lookup-put :
    (k j : Key) (v : ℕ) (t : HashTable)
    → lookup j (put k v t).1 ≡ (if eq_key k j then some v else lookup j t)
unfolding put lookup
lookup-put k j v t =
    let bucket = t.buckets (hashcode k t.capacity) in
    elim (Option-cases (find k bucket)) [
      | inl absent ↦
          rw (absent, put)
            (find-replaced k j v t (bucket ++ (k, v) ∷ []) (find-new k j v bucket absent))
      | inr (old, there) ↦
          rw (there, put)
            (find-replaced k j v t (assign k v bucket) (find-assign k j v bucket there))
    ]

-- A table with buckets, in which every node is in the bucket of its key: after `insert` the key has the
-- value, and every other key the value that it had, whether or not the load makes the table rehash.
pub lookup-insert_node :
    (crowded : ℕ → ℕ → Bool) (k j : Key) (v : ℕ) (t : HashTable)
    → IsSorted t
    → 0 < t.capacity
    → lookup j (insert_node crowded k v t).1 ≡ (if eq_key k j then some v else lookup j t)
unfolding insert_node
lookup-insert_node crowded k j v t h pos = elim (Bool-cases (crowded t.count t.capacity)) [
  | inl full ↦ rw full (
      lookup-put k j v (rehash (t.capacity * 2) t)
      ∙ ap (λ o. if eq_key k j then some v else o)
          (lookup-rehash j (t.capacity * 2) t h pos (omega arith)))
  | inr room ↦ rw room (lookup-put k j v t)
]
