-- ===== src/Node/Page.antt =====
-- `InternalPage` of include/Node.h.
use hybrid_heterogeneous_mem.Prelude.{
  ℕ, Bool, not, ◌&&◌, ◌||◌, ◌==◌, leb, Option, none, some, List, replicate,
}
use hybrid_heterogeneous_mem.Address.{GlobalAddress, eq_address}
use hybrid_heterogeneous_mem.Key.{Key}
use hybrid_heterogeneous_mem.Node.Types.{NodeType, node_deleted}
use hybrid_heterogeneous_mem.Node.Header.{Header, of_key}
use hybrid_heterogeneous_mem.Node.Entry.{InternalEntry}
use hybrid_heterogeneous_mem.Node.Entry

pub record InternalPage : Type 0 where
  pub rev_ptr : GlobalAddress
  pub hdr : Header
  pub records : List InternalEntry

-- The constructor from a key; it fails as the constructor of the header does.
unfoldable pub make_page : List ℕ → Key → ℕ → ℕ → NodeType → GlobalAddress → Option InternalPage
make_page memory k partial_len depth t rev_ptr = elim (of_key memory k partial_len depth t) [
  | none ↦ none
  | some h ↦ some (record { rev_ptr = rev_ptr; hdr = h; records = replicate 256 Entry.null })
]

-- `is_valid(p_ptr, depth, from_cache)`
unfoldable pub is_valid_page : GlobalAddress → ℕ → Bool → InternalPage → Bool
is_valid_page p_ptr depth from_cache page =
    not (page.hdr.node_type == node_deleted)
    && (leb page.hdr.depth depth && (not from_cache || eq_address p_ptr page.rev_ptr))
