-- ===== src/Tree/Written.antt =====
-- A memory before and after the leaves of one key were written.
use hybrid_heterogeneous_mem.Prelude.{
  ℕ, zero, suc, ◌+◌, ◌≡◌, refl, sym, ap, ◌∙◌, subst, ap₂, true, false, none, some, ltb, ==_iff,
  if◌then◌else◌, get_or, arith, Bool-cases, Option-cases, inl, inr,
}
use hybrid_heterogeneous_mem.Address.{GlobalAddress, eq_address}
use hybrid_heterogeneous_mem.Key.{Key, get_partial}
use hybrid_heterogeneous_mem.LockTable.Slot.{eq_key}
use hybrid_heterogeneous_mem.Node.Types.{node_type_to_num}
use hybrid_heterogeneous_mem.Node.Header.{mismatch}
use hybrid_heterogeneous_mem.Node.Entry.{InternalEntry, eq_entry, addr_of, type_of}
use hybrid_heterogeneous_mem.Node.Entry
use hybrid_heterogeneous_mem.Node.Page.{InternalPage}
use hybrid_heterogeneous_mem.Leaf.{
  Leaf, is_consistent, unlock, set_consistent, set_value, written_leaf,
}
use hybrid_heterogeneous_mem.Tree.Memory.{Place, root, slot, place_addr, Memory, put_leaf}
use hybrid_heterogeneous_mem.Tree.Client.{Setting, find_slot}
use hybrid_heterogeneous_mem.Tree.Shape.{value_at, IsTree, nothing, leaf, node}
use hybrid_heterogeneous_mem.Tree.Quiet.{value_in, value_at-node, value_at-leaf}

eq_address→eq : (a b : GlobalAddress) → eq_address a b ≡ true → a ≡ b
unfolding eq_address
eq_address→eq a b e = ground arith

pub none-some : {A : Type 0} {u : ℕ} → none ≡ some u → A
none-some e = absurd cc

-- A leaf after an update of the key `k`: as it was, or of the key `k` and written with the value.
pub data IsWritten (c : Setting) (k : Key) (v : ℕ) (old new : Leaf) : Type 0 where
  kept : new ≡ old → IsWritten c k v old new
  written : old.key ≡ k → new ≡ written_leaf c.crc v old → IsWritten c k v old new

-- A memory after an update of the key `k`.
pub record IsUpdate (c : Setting) (k : Key) (v : ℕ) (m m' : Memory) : Type 0 where
  pub pages_eq : m'.pages ≡ m.pages
  pub root_eq : m'.root_entry ≡ m.root_entry
  pub leaves_eq : (a : GlobalAddress) → IsWritten c k v (m.leaves a) (m'.leaves a)

pub value_at-null :
    (n : ℕ) (m : Memory) (k : Key) (p : InternalEntry)
    → eq_entry p Entry.null ≡ true
    → value_at (suc n) m k p ≡ none
unfolding value_at
value_at-null n m k p e = rw (value_at, e) refl

-- The write of a leaf of the key, after any other write of it.
pub put_leaf-IsUpdate :
    (c : Setting) (k : Key) (v : ℕ) (m : Memory) (a : GlobalAddress) (l : Leaf)
    → (m.leaves a).key ≡ k
    → IsUpdate c k v m (put_leaf (put_leaf m a l) a (written_leaf c.crc v (m.leaves a)))
put_leaf-IsUpdate c k v m a l own = record {
  pages_eq = refl;
  root_eq = refl;
  leaves_eq = λ b. elim (Bool-cases (eq_address b a)) [
    | inl here ↦
        let same : b ≡ a = eq_address→eq b a here in
        written (ap (λ x. (m.leaves x).key) same ∙ own)
          (rw here (ap (λ x. written_leaf c.crc v (m.leaves x)) (sym same)))
    | inr there ↦ kept (rw there refl)
  ];
}

leaf_value :
    {c : Setting} {k : Key} {v : ℕ} (j : Key) {old new : Leaf}
    → IsWritten c k v old new
    → eq_key k j ≡ false
    → (if eq_key new.key j then some new.value else none)
      ≡ (if eq_key old.key j then some old.value else none)
unfolding written_leaf unlock set_consistent set_value
leaf_value j (kept e) other = ap (λ l. if eq_key l.key j then some l.value else none) e
leaf_value j {old = old} (written own e) other =
    let off : eq_key old.key j ≡ false = rw own other in
    ap (λ l. if eq_key l.key j then some l.value else none) e ∙ rw off refl

-- What the values below a node rest on.
value_in-ext :
    (n : ℕ) (m m' : Memory) (j : Key) (p : InternalEntry) (page : InternalPage)
    → ((q : InternalEntry) → value_at n m' j q ≡ value_at n m j q)
    → value_in n m' j p page ≡ value_in n m j p page
value_in-ext n m m' j p page same = elim (Option-cases (mismatch j page.hdr)) [
  | inl e ↦ rw (value_in, e) refl
  | inr (r, e) ↦ elim (Bool-cases (ltb r page.hdr.partial_len)) [
    | inl off ↦ rw (value_in, e, off) refl
    | inr on ↦ elim (Option-cases (get_partial j (page.hdr.depth + page.hdr.partial_len))) [
      | inl out ↦ rw (value_in, e, on, out) refl
      | inr (byte, at) ↦
          elim (Option-cases (find_slot page.records byte 0 (node_type_to_num (type_of p)))) [
            | inl missing ↦ rw (value_in, e, on, at, missing) refl
            | inr (i, hit) ↦ rw (value_in, e, on, at, hit) (same (get_or page.records i Entry.null))
          ]
    ]
  ]
]

-- The values of the other keys, below any entry, are as they were.
pub value_at-others :
    (c : Setting) (k : Key) (v : ℕ) (m m' : Memory) (j : Key) (n : ℕ) (p : InternalEntry)
    → IsUpdate c k v m m'
    → eq_key k j ≡ false
    → value_at n m' j p ≡ value_at n m j p
unfolding value_at
value_at-others c k v m m' j zero p upd other = refl
value_at-others c k v m m' j (suc n) p upd other = elim (Bool-cases (eq_entry p Entry.null)) [
  | inl e ↦ value_at-null n m' j p e ∙ sym (value_at-null n m j p e)
  | inr e ↦ elim (Bool-cases p.is_leaf) [
    | inl l ↦
        value_at-leaf n m' j p e l
        ∙ (leaf_value j (upd.leaves_eq (addr_of p)) other ∙ sym (value_at-leaf n m j p e l))
    | inr l ↦
        let page = m.pages (addr_of p) in
        value_at-node n m' j p e l
        ∙ (ap (λ f. value_in n m' j p (f (addr_of p))) upd.pages_eq
            ∙ (value_in-ext n m m' j p page (λ q. value_at-others c k v m m' j n q upd other)
                ∙ sym (value_at-node n m j p e l)))
  ]
]

-- What a written leaf keeps.
written-keeps :
    {c : Setting} {k : Key} {v : ℕ} (a : GlobalAddress) {old new : Leaf}
    → IsWritten c k v old new
    → old.rev_ptr ≡ a
    → old.valid ≡ true
    → is_consistent c.crc old ≡ true
    → old.w_lock ≡ 0
    → (new.rev_ptr ≡ a) × (new.valid ≡ true) × (is_consistent c.crc new ≡ true) × (new.w_lock ≡ 0)
unfolding written_leaf unlock set_consistent set_value is_consistent
written-keeps {c = c} a (kept e) rev valid whole free = (
  ap (λ l. l.rev_ptr) e ∙ rev,
  ap (λ l. l.valid) e ∙ valid,
  ap (λ l. is_consistent c.crc l) e ∙ whole,
  ap (λ l. l.w_lock) e ∙ free,
)
written-keeps {c = c} {v = v} a {old = old} (written own e) rev valid whole free = (
  ap (λ l. l.rev_ptr) e ∙ rev,
  ap (λ l. l.valid) e ∙ valid,
  ap (λ l. is_consistent c.crc l) e ∙ (==_iff (c.crc old.key v) (c.crc old.key v)).1 refl,
  ap (λ l. l.w_lock) e,
)

-- A tree after the leaves of a key were written.
leaves-IsTree :
    (c : Setting) (k : Key) (v : ℕ) (m : Memory) (leaves : GlobalAddress → Leaf) (place : Place)
    (depth : ℕ) (p : InternalEntry)
    → ((a : GlobalAddress) → IsWritten c k v (m.leaves a) (leaves a))
    → IsTree c m place depth p
    → IsTree c (record m { leaves = leaves }) place depth p
leaves-IsTree c k v m leaves place depth p upd (nothing e) = nothing e
leaves-IsTree c k v m leaves place depth p upd (leaf e l h) =
    let (rev, valid, whole, free) =
      written-keeps (place_addr c.root_ptr_ptr place) (upd (addr_of p)) h.rev_ptr h.valid
        h.consistent h.free in
    leaf e l (record { rev_ptr = rev; valid = valid; consistent = whole; free = free })
leaves-IsTree c k v m leaves place depth p upd (node e l h below) =
    node e l
      (record {
        rev_ptr = h.rev_ptr;
        depth_eq = h.depth_eq;
        type_eq = h.type_eq;
        type_pos = h.type_pos;
        type_le = h.type_le;
        path_le = h.path_le;
        path_size = h.path_size;
        end_le = h.end_le;
        slots = h.slots;
      })
      (λ i lt.
        leaves-IsTree c k v m leaves (slot (addr_of p) i)
          (depth + (m.pages (addr_of p)).hdr.partial_len + 1)
          (get_or (m.pages (addr_of p)).records i Entry.null) upd (below i lt))

pub update-IsTree :
    (c : Setting) (k : Key) (v : ℕ) (m m' : Memory)
    → IsUpdate c k v m m'
    → IsTree c m root 1 m.root_entry
    → IsTree c m' root 1 m'.root_entry
update-IsTree c k v m m' upd t =
    subst (λ x. IsTree c x root 1 x.root_entry)
      (ap₂ (λ r f. record { root_entry = r; pages = f; leaves = m'.leaves }) (sym upd.root_eq)
        (sym upd.pages_eq))
      (leaves-IsTree c k v m m'.leaves root 1 m.root_entry upd.leaves_eq t)
