-- ===== src/Tree/Tests.antt =====
-- A tree of one node and two leaves, in a memory that no one else works on.
use hybrid_heterogeneous_mem.Prelude.{
  ℕ, zero, suc, sym, ap, ◌∙◌, subst, none, ◌⊎◌, ◌↔◌, inl, inr, ◌+◌, ◌*◌, ◌<◌, ◌≡◌, refl, false,
  Option, some, [], ◌∷◌, replicate, arith, if◌then◌else◌, get_or,
}
use hybrid_heterogeneous_mem.Address.{GlobalAddress, gadd, eq_address}
use hybrid_heterogeneous_mem.Key.{Key, IsKey, get_partial}
use hybrid_heterogeneous_mem.LockTable.Slot.{eq_key, new}
use hybrid_heterogeneous_mem.LockTable.Write.{get_combining_value}
use hybrid_heterogeneous_mem.Node.Types.{node_type_to_num}
use hybrid_heterogeneous_mem.Node.Header.{mismatch}
use hybrid_heterogeneous_mem.Node.Entry.{
  InternalEntry, eq_entry, val, leaf_entry, node_entry, addr_of, type_of,
}
use hybrid_heterogeneous_mem.Node.Entry
use hybrid_heterogeneous_mem.Node.Page.{InternalPage}
use hybrid_heterogeneous_mem.Leaf.{Leaf, make_leaf, is_consistent}
use hybrid_heterogeneous_mem.Tree.Memory.{Place, root, slot, place_addr, Memory}
use hybrid_heterogeneous_mem.Tree.Client.{World, Setting, find_slot}
use hybrid_heterogeneous_mem.Key.Prefix.{partial}
use hybrid_heterogeneous_mem.Node.Header.Match.{Follows}
use hybrid_heterogeneous_mem.Tree.Slots.{IsOf}
use hybrid_heterogeneous_mem.Tree.Holds.{
  Below, here, down, Below-there, Below-leaf, Holds, IsSorted, IsRadix,
}
use hybrid_heterogeneous_mem.Tree.Search.{search}
use hybrid_heterogeneous_mem.Tree.Insert.{insert_key}
use hybrid_heterogeneous_mem.Tree.Shape.{value_at, IsTree, nothing, leaf, node}
use hybrid_heterogeneous_mem.Tree.Lookup.{search_lem}
use hybrid_heterogeneous_mem.Tree.Update.{insert_key-search}

abbrev pub key : Key
key = 7 ∷ 1 ∷ 2 ∷ 3 ∷ 4 ∷ 5 ∷ 6 ∷ 8 ∷ []

abbrev pub other : Key
other = 7 ∷ 1 ∷ 9 ∷ 3 ∷ 4 ∷ 5 ∷ 6 ∷ 8 ∷ []

abbrev pub at_unit : ℕ → GlobalAddress
at_unit n = record { node_id = 1; offset = n * 256 }

abbrev pub crc : Key → ℕ → ℕ
crc k v = v

abbrev pub setting : Setting
setting = record {
  env = λ n m. m;
  fresh = λ n. at_unit (n + 9);
  lock_node = λ n. new false 0 0;
  crc = crc;
  stale = λ n. replicate 6 0;
  root_ptr_ptr = at_unit 0;
}

abbrev pub page : InternalPage
page = record {
  rev_ptr = at_unit 0;
  hdr = record { depth = 1; node_type = 1; partial_len = 2; partial = 7 ∷ 1 ∷ 0 ∷ 0 ∷ 0 ∷ 0 ∷ [] };
  records = leaf_entry 2 34 (at_unit 2) ∷ leaf_entry 9 34 (at_unit 3) ∷ replicate 254 Entry.null;
}

abbrev pub first_leaf : Leaf
first_leaf = make_leaf crc key 50 (gadd (at_unit 1) 16)

abbrev pub second_leaf : Leaf
second_leaf = make_leaf crc other 60 (gadd (at_unit 1) 24)

abbrev pub memory : Memory
memory = record {
  root_entry = node_entry 0 1 (at_unit 1);
  pages = λ a. page;
  leaves = λ a. if eq_address a (at_unit 2) then first_leaf else second_leaf;
}

abbrev pub world : World
world = record { memory = memory; clock = 0; allocated = 0 }

pub key-IsKey : IsKey key
key-IsKey = record { size = refl; bytes = omega arith }

pub other-IsKey : IsKey other
other-IsKey = record { size = refl; bytes = omega arith }

first-IsTree : IsTree setting memory (slot (at_unit 1) 0) 4 (leaf_entry 2 34 (at_unit 2))
unfolding leaf_entry eq_entry Entry.null make_leaf addr_of place_addr gadd is_consistent eq_address
first-IsTree =
    leaf refl refl (record { rev_ptr = refl; valid = refl; consistent = refl; free = refl })

second-IsTree : IsTree setting memory (slot (at_unit 1) 1) 4 (leaf_entry 9 34 (at_unit 3))
unfolding leaf_entry eq_entry Entry.null make_leaf addr_of place_addr gadd is_consistent eq_address
second-IsTree =
    leaf refl refl (record { rev_ptr = refl; valid = refl; consistent = refl; free = refl })

null-IsTree : {place : Place} {depth : ℕ} → IsTree setting memory place depth Entry.null
unfolding eq_entry Entry.null
null-IsTree = nothing refl

slots-IsTree :
    (i : ℕ)
    → i < 4
    → IsTree setting memory (slot (at_unit 1) i) 4 (get_or page.records i Entry.null)
slots-IsTree zero lt = first-IsTree
slots-IsTree (suc zero) lt = second-IsTree
slots-IsTree (suc (suc zero)) lt = null-IsTree
slots-IsTree (suc (suc (suc zero))) lt = null-IsTree
slots-IsTree (suc (suc (suc (suc i)))) lt = absurd (omega arith)

memory-IsTree : IsTree setting memory root 1 memory.root_entry
unfolding node_entry eq_entry Entry.null addr_of type_of place_addr node_type_to_num
memory-IsTree =
    node refl refl
      (record {
        rev_ptr = refl;
        depth_eq = refl;
        type_eq = refl;
        type_pos = omega arith;
        type_le = omega arith;
        path_le = omega arith;
        path_size = refl;
        end_le = omega arith;
        slots = refl;
      })
      slots-IsTree

-- Before the insertion the key has a value.
key-value_at : value_at 10 memory key memory.root_entry ≡ some 50
unfolding value_at eq_entry node_entry Entry.null mismatch get_partial find_slot node_type_to_num
    type_of leaf_entry eq_key eq_address addr_of make_leaf
key-value_at = refl

memory-some : eq_entry memory.root_entry Entry.null ≡ false
unfolding eq_entry node_entry Entry.null
memory-some = refl

nothing_combined : (n : ℕ) → get_combining_value key 70 (setting.lock_node n) ≡ (false, 70)
unfolding get_combining_value new
nothing_combined n = refl

page_path : Follows key page.hdr 0 2
unfolding partial
page_path zero low lt = refl
page_path (suc zero) low lt = refl
page_path (suc (suc j)) low lt = absurd (omega arith)

other_path : Follows other page.hdr 0 2
unfolding partial
other_path zero low lt = refl
other_path (suc zero) low lt = refl
other_path (suc (suc j)) low lt = absurd (omega arith)

-- The bytes of the two slots that are in use.
used_slots :
    (i byte : ℕ)
    → i < 4
    → IsOf page.records byte i
    → ((i ≡ 0) × (byte ≡ 2)) ⊎ ((i ≡ 1) × (byte ≡ 9))
unfolding leaf_entry eq_entry Entry.null
used_slots zero byte lt h = inl (refl, sym h.partial)
used_slots (suc zero) byte lt h = inr (refl, sym h.partial)
used_slots (suc (suc zero)) byte lt h = absurd (let p = h.present in cc)
used_slots (suc (suc (suc zero))) byte lt h = absurd (let p = h.present in cc)
used_slots (suc (suc (suc (suc i)))) byte lt h = absurd (omega arith)

slot_keys :
    (i : ℕ) (k : Key) (v : ℕ)
    → i < 4
    → Holds memory (get_or page.records i Entry.null) k v
    → Follows k page.hdr 0 2 × (partial k 3 ≡ (get_or page.records i Entry.null).partial)
unfolding leaf_entry eq_entry Entry.null make_leaf partial addr_of eq_address
slot_keys zero k v lt (q, b, stored) =
    let same = Below-leaf b refl in
    let is_key : key ≡ k = ap (λ x. (memory.leaves (addr_of x)).key) same ∙ stored.key in
    subst (λ x. Follows x page.hdr 0 2 × (partial x 3 ≡ 2)) is_key (page_path, refl)
slot_keys (suc zero) k v lt (q, b, stored) =
    let same = Below-leaf b refl in
    let is_other : other ≡ k = ap (λ x. (memory.leaves (addr_of x)).key) same ∙ stored.key in
    subst (λ x. Follows x page.hdr 0 2 × (partial x 3 ≡ 9)) is_other (other_path, refl)
slot_keys (suc (suc zero)) k v lt (q, b, stored) = absurd (let p = Below-there b stored.there in cc)
slot_keys (suc (suc (suc zero))) k v lt (q, b, stored) =
    absurd (let p = Below-there b stored.there in cc)
slot_keys (suc (suc (suc (suc i)))) k v lt held = absurd (omega arith)

root-IsSorted : IsSorted memory memory.root_entry
unfolding node_type_to_num type_of node_entry
root-IsSorted = record {
  distinct = λ i j byte lt lt' h h'. elim (used_slots i byte lt h) [
    | inl (first, two) ↦ elim (used_slots j byte lt' h') [
      | inl (first', two') ↦ first ∙ sym first'
      | inr (second', nine') ↦ absurd (omega (arith, two, nine'))
    ]
    | inr (second, nine) ↦ elim (used_slots j byte lt' h') [
      | inl (first', two') ↦ absurd (omega (arith, two', nine))
      | inr (second', nine') ↦ second ∙ sym second'
    ]
  ];
  keys = slot_keys;
}

-- No node is below a slot of the root.
slots_have_no_node :
    (q : InternalEntry) (i : ℕ)
    → i < 4
    → eq_entry q Entry.null ≡ false
    → q.is_leaf ≡ false
    → Below memory q (get_or page.records i Entry.null)
    → IsSorted memory q
unfolding leaf_entry eq_entry Entry.null
slots_have_no_node q zero lt there not_leaf b =
    absurd (let l = ap (λ x. x.is_leaf) (Below-leaf b refl) in cc)
slots_have_no_node q (suc zero) lt there not_leaf b =
    absurd (let l = ap (λ x. x.is_leaf) (Below-leaf b refl) in cc)
slots_have_no_node q (suc (suc zero)) lt there not_leaf b =
    absurd (let p = Below-there b there in cc)
slots_have_no_node q (suc (suc (suc zero))) lt there not_leaf b =
    absurd (let p = Below-there b there in cc)
slots_have_no_node q (suc (suc (suc (suc i)))) lt there not_leaf b = absurd (omega arith)

memory-IsRadix : IsRadix memory memory.root_entry
unfolding node_type_to_num type_of node_entry
memory-IsRadix q (here same) there not_leaf = subst (IsSorted memory) same root-IsSorted
memory-IsRadix q (down i some_node root_node lt b) there not_leaf =
    slots_have_no_node q i lt there not_leaf b

search_lem_example :
    (r : Option ℕ) × (w' : World) × ((search setting 10 other world ≡ some (r, w'))
      × (w'.memory ≡ world.memory)
      × ((v : ℕ) → (r ≡ some v) ↔ Holds world.memory world.memory.root_entry other v)
      × ((r ≡ none) ↔ ((v : ℕ) → ¬ Holds world.memory world.memory.root_entry other v)))
search_lem_example =
    search_lem setting (λ n m. refl) other 10 world other-IsKey memory-IsTree memory-IsRadix
      memory-some (omega arith)

insert_key-search_example :
    (before : Option ℕ) × (w0 : World) × (w1 : World) × (w2 : World) × ((search setting 10 other
          world
        ≡ some (before, w0))
      × ((insert_key setting key 10 false 70 world ≡ some w1)
          × (search setting 10 other w1
              ≡ some ((if eq_key key other then some 70 else before), w2))))
insert_key-search_example =
    insert_key-search setting (λ n m. refl) key 70 nothing_combined 10 world other {u = 50}
      key-IsKey other-IsKey memory-IsTree (omega arith) key-value_at
