-- ===== src/Leaf/Update.antt =====
-- Any clients that update one leaf in place, in any order.
use hybrid_heterogeneous_mem.Prelude.{
  ℕ, ◌+◌, ◌<◌, ◌≤◌, ◌≡◌, ◌≢◌, refl, sym, ◌∙◌, ap, true, ◌==◌, inl, inr, ◌⊎◌, arith, ℕ_discrete,
  Bool-cases, ==_iff,
}
use mathlib.Core.Logic.{ite}
use hybrid_heterogeneous_mem.Prelude.Threads.{
  replace, sum_over, sum_over-replace, le-sum_over, le-sum_over_two, sum_over-zero, sum_over_mono,
}
use hybrid_heterogeneous_mem.Key.{Key}
use hybrid_heterogeneous_mem.Leaf.{
  Leaf, is_consistent, set_consistent, set_value, lock, unlock, acquire_lock, written_leaf, Pc,
  away, acquiring, holding, writing, Move, called, acquired, failed, began, went_on, wrote,
}

pub record System : Type 0 where
  pub remote : Leaf
  pub pc : ℕ → Pc

-- One of `n` clients takes a step.
pub data Step (crc : Key → ℕ → ℕ) (k : Key) (n : ℕ) (s : System) : System → Type 0 where
  turn :
      (i : ℕ) {l : Leaf} {p : Pc}
      → i < n
      → Move crc k s.remote (s.pc i) l p
      → Step crc k n s (record { remote = l; pc = replace s.pc i p })

-- The runs from a leaf that no one has locked.
pub data Reach (crc : Key → ℕ → ℕ) (k : Key) (n : ℕ) (leaf : Leaf) : System → Type 0 where
  start : Reach crc k n leaf (record { remote = leaf; pc = λ _. away })
  later : {s t : System} → Reach crc k n leaf s → Step crc k n s t → Reach crc k n leaf t

-- Whether a client has the lock, and whether it is in the middle of its write.
abbrev pub holds : Pc → ℕ
holds (holding v leaf) = 1
holds (writing v leaf) = 1
holds _ = 0

abbrev pub writes : Pc → ℕ
writes (writing v leaf) = 1
writes _ = 0

writes_le : (p : Pc) → writes p ≤ holds p
writes_le away = omega arith
writes_le (acquiring v leaf) = omega arith
writes_le (holding v leaf) = omega arith
writes_le (writing v leaf) = omega arith

-- The copy of the leaf that a client has is of the key.
abbrev pub IsOf : Key → Pc → Type 0
IsOf k (acquiring v leaf) = leaf.key ≡ k
IsOf k (holding v leaf) = leaf.key ≡ k
IsOf k (writing v leaf) = leaf.key ≡ k
IsOf k away = Unit

-- The leaf has its checksum, or `w` clients write it, one at least.
abbrev Whole : (Key → ℕ → ℕ) → Key → Leaf → ℕ → Type 0
Whole crc k r w = (r.checksum ≡ crc k r.value) ⊎ (1 ≤ w)

record Inv (crc : Key → ℕ → ℕ) (k : Key) (n : ℕ) (s : System) : Type 0 where
  locked : s.remote.w_lock ≡ sum_over holds n s.pc
  one : sum_over holds n s.pc ≤ 1
  key : s.remote.key ≡ k
  whole : Whole crc k s.remote (sum_over writes n s.pc)
  copies : (i : ℕ) → IsOf k (s.pc i)

-- As many clients write as before.
same_writers :
    (crc : Key → ℕ → ℕ) (k : Key) (r : Leaf) {w w' : ℕ}
    → Whole crc k r w
    → w' ≡ w
    → Whole crc k r w'
same_writers crc k r (inl same) e = inl same
same_writers crc k r (inr writer) e = inr (omega arith)

-- What a move does to the leaf, and to the numbers of clients that hold it and that write it.
Move-leaf :
    {crc : Key → ℕ → ℕ} {k : Key} {r r' : Leaf} {p p' : Pc} (h h' w w' : ℕ)
    → Move crc k r p r' p'
    → r.w_lock ≡ h
    → h ≤ 1
    → r.key ≡ k
    → Whole crc k r w
    → IsOf k p
    → h' + holds p ≡ h + holds p'
    → w' + writes p ≡ w + writes p'
    → holds p ≤ h
    → writes p ≤ w
    → ((r'.w_lock ≡ h') × (h' ≤ 1)) × ((r'.key ≡ k) × Whole crc k r' w') × IsOf k p'
unfolding acquire_lock written_leaf lock unlock set_consistent set_value
Move-leaf {crc} {k} {r} h h' w w' (called v leaf g) e le ek ec o d d' few few' =
    ((omega arith, omega arith), (ek, same_writers crc k r ec (omega arith)), g)
Move-leaf {crc} {k} {r} h h' w w' (acquired g) e le ek ec o d d' few few' =
    elim (Bool-cases (r.w_lock == 0)) [
      | inl free ↦ (
        (rw free (ground arith), ground arith),
        (rw free ek, rw free (same_writers crc k r ec (omega arith))),
        o,
      )
      | inr taken ↦ absurd (ground arith)
    ]
Move-leaf {crc} {k} {r} h h' w w' (failed g) e le ek ec o d d' few few' =
    elim (Bool-cases (r.w_lock == 0)) [
      | inl free ↦ absurd (ground arith)
      | inr taken ↦ (
        (rw taken (omega arith), omega arith),
        (rw taken ek, rw taken (same_writers crc k r ec (omega arith))),
        o,
      )
    ]
Move-leaf h h' w w' (began same_key same_lock) e le ek ec o d d' few few' =
    ((same_lock ∙ omega arith, omega arith), (same_key ∙ ek, inr (omega arith)), o)
Move-leaf h h' w w' (went_on same_key same_lock) e le ek ec o d d' few few' =
    ((same_lock ∙ omega arith, omega arith), (same_key ∙ ek, inr (omega arith)), o)
Move-leaf {crc} h h' w w' (wrote {v} {leaf}) e le ek ec o d d' few few' =
    ((omega arith, omega arith), (o, inl (ap (λ x. crc x v) o)), tt)

Step-Inv :
    {crc : Key → ℕ → ℕ} {k : Key} {n : ℕ} {s t : System}
    → Step crc k n s t
    → Inv crc k n s
    → Inv crc k n t
Step-Inv {k} {n} {s} (turn i {l} {p} lt mv) v =
    let count = sum_over-replace holds n s.pc i p lt in
    let count' = sum_over-replace writes n s.pc i p lt in
    let ((a, b), (c, d), e) =
      Move-leaf (sum_over holds n s.pc) (sum_over holds n (replace s.pc i p))
        (sum_over writes n s.pc) (sum_over writes n (replace s.pc i p)) mv v.locked v.one v.key
        v.whole (v.copies i) count count' (le-sum_over holds n s.pc i lt)
        (le-sum_over writes n s.pc i lt) in
    record {
      locked = a;
      one = b;
      key = c;
      whole = d;
      copies = λ j. elim (ℕ_discrete j i) as (λ q. IsOf k (ite q p (s.pc j))) [
        | yes _ ↦ e
        | no _ ↦ v.copies j
      ];
    }

Reach-Inv :
    {crc : Key → ℕ → ℕ} {k : Key} {n : ℕ} {leaf : Leaf} {s : System}
    → leaf.w_lock ≡ 0
    → leaf.key ≡ k
    → leaf.checksum ≡ crc k leaf.value
    → Reach crc k n leaf s
    → Inv crc k n s
Reach-Inv {n} free ek ec start =
    let zero_sum = sum_over-zero holds n away refl in
    record {
      locked = free ∙ sym zero_sum;
      one = omega arith;
      key = ek;
      whole = inl ec;
      copies = λ _. tt;
    }
Reach-Inv free ek ec (later r st) = Step-Inv st (Reach-Inv free ek ec r)

-- A leaf of a key that is consistent and not locked, and any clients that update it in place, with
-- their steps in any order, where a write of the leaf may be met half done: no two of them hold the lock, the
-- lock bit is set while one of the two does, the key stays the same, and the leaf in remote memory is
-- consistent, or its lock bit is set and a client is in the middle of its write.
pub in_place_updates :
    (crc : Key → ℕ → ℕ) {n : ℕ} {leaf : Leaf} {s : System} {i j : ℕ}
    → leaf.w_lock ≡ 0
    → is_consistent crc leaf ≡ true
    → Reach crc leaf.key n leaf s
    → i < n
    → j < n
    → i ≢ j
    → (holds (s.pc i) + holds (s.pc j) ≤ s.remote.w_lock)
      × (s.remote.w_lock ≤ 1)
      × (s.remote.key ≡ leaf.key)
      × ((is_consistent crc s.remote ≡ true)
          ⊎ ((s.remote.w_lock ≡ 1) × (1 ≤ sum_over writes n s.pc)))
unfolding is_consistent
in_place_updates crc {n} {leaf} {s} {i} {j} free ok r lt lt' ne =
    let v = Reach-Inv free refl (sym (ground arith)) r in
    let two = le-sum_over_two holds n s.pc i j lt lt' ne in
    (
      omega (arith, v.locked),
      omega (arith, v.locked, v.one),
      v.key,
      elim v.whole [
        | inl same ↦ inl (
            (==_iff (crc s.remote.key s.remote.value) s.remote.checksum).1
              (ap (λ x. crc x s.remote.value) v.key ∙ sym same))
        | inr some_writer ↦ inr (
          omega (arith, v.locked, v.one, sum_over_mono writes holds writes_le n s.pc),
          some_writer,
        )
      ],
    )
