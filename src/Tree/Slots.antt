-- ===== src/Tree/Slots.antt =====
-- What the loop over the records of a node finds, in src/Tree.cpp and in the caches.
use hybrid_heterogeneous_mem.Prelude.{
  ℕ, zero, suc, ◌+◌, ◌≤◌, ◌<◌, ◌≡◌, refl, sym, ◌∙◌, true, false, not, ◌&&◌, some, List, ◌==◌,
  ==_iff, get_or, arith, Bool-cases, inl, inr, ℕ_discrete, subst,
}
use hybrid_heterogeneous_mem.Node.Entry.{InternalEntry, eq_entry}
use hybrid_heterogeneous_mem.Node.Entry
use hybrid_heterogeneous_mem.Tree.Client.{find_slot}
use hybrid_heterogeneous_mem.Tree.Quiet.{find_slot-skip, find_slot-here}

-- The record at `i` is an entry of the byte.
pub record IsOf (records : List InternalEntry) (byte i : ℕ) : Type 0 where
  pub present : eq_entry (get_or records i Entry.null) Entry.null ≡ false
  pub partial : (get_or records i Entry.null).partial ≡ byte

IsOf-fits :
    (records : List InternalEntry) (byte i : ℕ)
    → IsOf records byte i
    → (not (eq_entry (get_or records i Entry.null) Entry.null)
        && (get_or records i Entry.null).partial == byte)
      ≡ true
IsOf-fits records byte i h = rw (h.present, h.partial) ((==_iff byte byte).1 refl)

fits-IsOf :
    (records : List InternalEntry) (byte i : ℕ)
    → (not (eq_entry (get_or records i Entry.null) Entry.null)
        && (get_or records i Entry.null).partial == byte)
      ≡ true
    → IsOf records byte i
fits-IsOf records byte i h = elim (Bool-cases (eq_entry (get_or records i Entry.null) Entry.null)) [
  | inl null ↦ absurd (let gone = rw null at h in cc)
  | inr there ↦
      let same : ((get_or records i Entry.null).partial == byte) ≡ true = rw there at h in
      record {
        present = there;
        partial = (==_iff (get_or records i Entry.null).partial byte).0 same;
      }
]

some-injective : {a b : ℕ} → some a ≡ some b → a ≡ b
some-injective e = cc

-- It finds an entry of the byte, among those that it looks at.
pub find_slot-IsOf :
    (records : List InternalEntry) (byte i n : ℕ) {j : ℕ}
    → find_slot records byte i n ≡ some j
    → (i ≤ j) × (j < i + n) × IsOf records byte j
unfolding find_slot
find_slot-IsOf records byte i zero e = absurd cc
find_slot-IsOf records byte i (suc n) {j} e =
    elim (Bool-cases (
      not (eq_entry (get_or records i Entry.null) Entry.null)
      && (get_or records i Entry.null).partial == byte)) [
        | inl here ↦
            let same : i ≡ j = some-injective (sym (find_slot-here records byte i n here) ∙ e) in
            (
              omega arith,
              omega arith,
              subst (IsOf records byte) same (fits-IsOf records byte i here),
            )
        | inr there ↦
            let (le, lt, h) =
              find_slot-IsOf records byte (i + 1) n
                (sym (find_slot-skip records byte i n there) ∙ e) in
            (omega (arith, le), omega (arith, lt), h)
      ]

-- It finds one if there is one.
pub find_slot-finds :
    (records : List InternalEntry) (byte i n k : ℕ)
    → i ≤ k
    → k < i + n
    → IsOf records byte k
    → (j : ℕ) × (find_slot records byte i n ≡ some j)
unfolding find_slot
find_slot-finds records byte i zero k le lt h = absurd (omega arith)
find_slot-finds records byte i (suc n) k le lt h =
    elim (Bool-cases (
      not (eq_entry (get_or records i Entry.null) Entry.null)
      && (get_or records i Entry.null).partial == byte)) [
        | inl here ↦ (i, find_slot-here records byte i n here)
        | inr there ↦ elim (ℕ_discrete i k) [
          | yes same ↦
              let fits = IsOf-fits records byte i (subst (IsOf records byte) (sym same) h) in
              absurd cc
          | no other ↦
              let (j, run) =
                find_slot-finds records byte (i + 1) n k (omega arith) (omega arith) h in
              (j, find_slot-skip records byte i n there ∙ run)
        ]
      ]
