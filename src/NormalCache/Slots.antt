-- ===== src/NormalCache/Slots.antt =====
-- The map of src/NormalCache.cpp: one slot for a byte array.
use hybrid_heterogeneous_mem.Prelude.{
  ℕ, ◌≡◌, refl, sym, ap, ◌∙◌, subst, true, false, Option, none, List, [], ◌∷◌, if◌then◌else◌, arith,
  Bool-cases, inl, inr,
}
use hybrid_heterogeneous_mem.LockTable.Slot.{eq_key, eq_key→eq, eq_key_refl}
use hybrid_heterogeneous_mem.RadixCache.Entry.{CacheEntry}
use hybrid_heterogeneous_mem.NormalCache.{Slots, held, set_slot}
use hybrid_heterogeneous_mem.NormalCache.Accounts.{weight, cost}

eq_key_comm : (a b : List ℕ) → eq_key a b ≡ eq_key b a
unfolding eq_key
eq_key_comm [] [] = refl
eq_key_comm [] (y ∷ ys) = refl
eq_key_comm (x ∷ xs) [] = refl
eq_key_comm (x ∷ xs) (y ∷ ys) = ground (arith, eq_key_comm xs ys)

pub held-set_slot :
    (slot : List ℕ) (v : Option CacheEntry) (b : List ℕ) (m : Slots)
    → held b (set_slot slot v m) ≡ (if eq_key slot b then v else held b m)
unfolding held set_slot
held-set_slot slot v b [] = refl
held-set_slot slot v b ((a, o) ∷ m) = elim (Bool-cases (eq_key a slot)) [
  | inl same ↦
      let e : a ≡ slot = eq_key→eq a slot same in
      elim (Bool-cases (eq_key slot b)) [
        | inl here ↦ let here' : eq_key a b ≡ true = cc in rw (same, here, here') refl
        | inr other ↦ let other' : eq_key a b ≡ false = cc in rw (same, other, other') refl
      ]
  | inr other ↦ elim (Bool-cases (eq_key a b)) [
    | inl here ↦
        let e : a ≡ b = eq_key→eq a b here in
        let away : eq_key slot b ≡ false =
          eq_key_comm slot b ∙ (ap (λ x. eq_key x slot) (sym e) ∙ other) in
        rw (other, here, away) refl
    | inr there ↦ rw (other, there) (held-set_slot slot v b m)
  ]
]

-- No slot of the map is of the byte array.
unfoldable IsFresh : List ℕ → Slots → Type 0
IsFresh bytes [] = Unit
IsFresh bytes ((b, o) ∷ m) = (eq_key b bytes ≡ false) × IsFresh bytes m

-- A byte array has one slot at most.
unfoldable pub IsMap : Slots → Type 0
unfolding IsFresh
IsMap [] = Unit
IsMap ((b, o) ∷ m) = IsFresh b m × IsMap m

set_slot-IsFresh :
    (slot : List ℕ) (v : Option CacheEntry) (b : List ℕ) (m : Slots)
    → eq_key slot b ≡ false
    → IsFresh b m
    → IsFresh b (set_slot slot v m)
unfolding IsFresh set_slot
set_slot-IsFresh slot v b [] away h = (away, tt)
set_slot-IsFresh slot v b ((a, o) ∷ m) away (fresh, h) = elim (Bool-cases (eq_key a slot)) [
  | inl same ↦ rw same (fresh, h)
  | inr other ↦ rw other (fresh, set_slot-IsFresh slot v b m away h)
]

pub set_slot-IsMap :
    (slot : List ℕ) (v : Option CacheEntry) (m : Slots) → IsMap m → IsMap (set_slot slot v m)
unfolding IsMap IsFresh set_slot
set_slot-IsMap slot v [] h = (tt, tt)
set_slot-IsMap slot v ((a, o) ∷ m) (fresh, h) = elim (Bool-cases (eq_key a slot)) [
  | inl same ↦ rw same (fresh, h)
  | inr other ↦
      rw other
        (set_slot-IsFresh slot v a m (eq_key_comm slot a ∙ other) fresh, set_slot-IsMap slot v m h)
]

held-IsFresh : (b : List ℕ) (m : Slots) → IsFresh b m → held b m ≡ none
unfolding held IsFresh
held-IsFresh b [] h = refl
held-IsFresh b ((a, o) ∷ m) (away, h) = rw away (held-IsFresh b m h)

pub weight-none : (m : Slots) → IsMap m → ((b : List ℕ) → held b m ≡ none) → weight m ≡ 0
unfolding IsMap held weight cost
weight-none [] h empty = refl
weight-none ((a, o) ∷ m) (fresh, h) empty =
    let here = empty a in
    let null : o ≡ none = rw (eq_key_refl a) at here in
    let rest : (b : List ℕ) → held b m ≡ none = λ b. elim (Bool-cases (eq_key a b)) [
      | inl same ↦ subst (λ x. held x m ≡ none) (eq_key→eq a b same) (held-IsFresh a m fresh)
      | inr other ↦ let there = empty b in rw other at there
    ] in
    rw null (omega (arith, weight-none m h rest))
