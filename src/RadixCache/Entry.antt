-- ===== src/RadixCache/Entry.antt =====
-- `CacheEntry` of include/NormalCache.h: a copy of the entries of a node, with the time when it expires.
use hybrid_heterogeneous_mem.Prelude.{ℕ, ◌+◌, ◌*◌, Bool, List, length, take, ltb}
use hybrid_heterogeneous_mem.Address.{GlobalAddress}
use hybrid_heterogeneous_mem.Node.Types.{node_type_to_num}
use hybrid_heterogeneous_mem.Node.Entry.{InternalEntry}
use hybrid_heterogeneous_mem.Node.Page.{InternalPage}

-- `id` stands for the address of the entry, by which pointers to entries are compared.
pub record CacheEntry : Type 0 where
  pub id : ℕ
  pub depth : ℕ
  pub addr : GlobalAddress
  pub records : List InternalEntry
  pub expire_at_ns : ℕ

-- `define::kIndexCacheTtlNs`
abbrev pub index_cache_ttl_ns : ℕ
index_cache_ttl_ns = 1000 * 1000 * 1000

-- The constructor from a page, at the time `now`. The depth is a `uint8_t` of at most 8.
unfoldable pub make_entry : ℕ → ℕ → InternalPage → GlobalAddress → CacheEntry
make_entry id now page addr = record {
  id = id;
  depth = page.hdr.depth + page.hdr.partial_len;
  addr = addr;
  records = take (node_type_to_num page.hdr.node_type) page.records;
  expire_at_ns = now + index_cache_ttl_ns;
}

-- `content_size` of an entry.
unfoldable pub entry_size : CacheEntry → ℕ
entry_size e = 1 + 8 + 8 * length e.records + 8

unfoldable pub is_expired : ℕ → CacheEntry → Bool
is_expired now e = ltb e.expire_at_ns now
