-- ===== src/Tree/Memory.antt =====
-- The remote memory that src/Tree.cpp works on, as the operations of include/DSM.h show it: the entry of
-- the root, the pages of the nodes and the leaves, by the addresses that `DSM::alloc` gives.
use hybrid_heterogeneous_mem.Prelude.{
  ℕ, ◌+◌, ◌*◌, Bool, true, false, ◌&&◌, ◌++◌, ◌==◌, if◌then◌else◌, get_or, set, take, drop,
}
use hybrid_heterogeneous_mem.Address.{GlobalAddress, gadd, eq_address}
use hybrid_heterogeneous_mem.LockTable.Slot.{eq_key}
use hybrid_heterogeneous_mem.Node.Header.{Header}
use hybrid_heterogeneous_mem.Node.Entry.{InternalEntry, eq_entry}
use hybrid_heterogeneous_mem.Node.Entry
use hybrid_heterogeneous_mem.Node.Page.{InternalPage}
use hybrid_heterogeneous_mem.Leaf.{Leaf}

-- Where an entry is: at the root pointer, or in a slot of the page at an address.
pub data Place : Type 0 where
  root : Place
  slot : GlobalAddress → ℕ → Place

-- The address of a place: behind the reverse pointer and the header of a page stand its entries.
unfoldable pub place_addr : GlobalAddress → Place → GlobalAddress
place_addr root_ptr_ptr root = root_ptr_ptr
place_addr root_ptr_ptr (slot a i) = gadd a (8 + 8 + i * 8)

pub record Memory : Type 0 where
  pub root_entry : InternalEntry
  pub pages : GlobalAddress → InternalPage
  pub leaves : GlobalAddress → Leaf

unfoldable pub entry_at : Memory → Place → InternalEntry
entry_at m root = m.root_entry
entry_at m (slot a i) = get_or (m.pages a).records i Entry.null

abbrev pub put_page : Memory → GlobalAddress → InternalPage → Memory
put_page m a page = record m { pages = λ b. if eq_address b a then page else m.pages b }

abbrev pub put_leaf : Memory → GlobalAddress → Leaf → Memory
put_leaf m a leaf = record m { leaves = λ b. if eq_address b a then leaf else m.leaves b }

unfoldable pub put_entry : Memory → Place → InternalEntry → Memory
put_entry m root e = record m { root_entry = e }
put_entry m (slot a i) e =
    put_page m a (record (m.pages a) { records = set (m.pages a).records i e })

-- The write of the first `n` entries of a page, with its header and its reverse pointer.
unfoldable pub overlay : ℕ → InternalPage → InternalPage → InternalPage
overlay n page old = record page { records = take n page.records ++ drop n old.records }

-- `cas` of an entry: its result, the entry that it met, and the memory.
unfoldable pub swap_entry :
    Place → InternalEntry → InternalEntry → Memory → Bool × InternalEntry × Memory
unfolding entry_at put_entry
swap_entry place old new m =
    let met = entry_at m place in
    if eq_entry met old then (true, met, put_entry m place new) else (false, met, m)

-- `cas` of the reverse pointer of the node or of the leaf that an entry points to.
unfoldable pub swap_rev_ptr : Bool → GlobalAddress → GlobalAddress → GlobalAddress → Memory → Memory
swap_rev_ptr true a old new m =
    if eq_address (m.leaves a).rev_ptr old
    then put_leaf m a (record (m.leaves a) { rev_ptr = new })
    else m
swap_rev_ptr false a old new m =
    if eq_address (m.pages a).rev_ptr old
    then put_page m a (record (m.pages a) { rev_ptr = new })
    else m

unfoldable pub eq_path : Header → Header → Bool
eq_path h g = h.depth == g.depth && (h.partial_len == g.partial_len && eq_key h.partial g.partial)

-- `cas_mask` of a header with the mask `~node_type_mask`: all of it but the type.
unfoldable pub swap_path : GlobalAddress → Header → Header → Memory → Memory
unfolding eq_path
swap_path a old new m =
    let page = m.pages a in
    if eq_path page.hdr old
    then put_page m a (record page { hdr = record new { node_type = page.hdr.node_type } })
    else m

-- `cas_mask` of a header with the mask `node_type_mask`: its result, the header that it met, the memory.
unfoldable pub swap_type : GlobalAddress → ℕ → ℕ → Memory → Bool × Header × Memory
swap_type a old new m =
    let page = m.pages a in
    if page.hdr.node_type == old
    then (true, page.hdr, put_page m a (record page { hdr = record page.hdr { node_type = new } }))
    else (false, page.hdr, m)
