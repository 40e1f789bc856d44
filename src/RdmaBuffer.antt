-- ===== src/RdmaBuffer.antt =====
-- include/RdmaBuffer.h: the registered memory of a coroutine, cut into rings of small buffers. A
-- pointer is its address.
pub mod Layout
pub mod Tests
use hybrid_heterogeneous_mem.Prelude.{ℕ, ◌+◌, ◌*◌, ◌/◌, ◌%◌}
use hybrid_heterogeneous_mem.Common.{key_len, alloc_allign_bit, round_up}

abbrev pub k_cas_buffer_cnt : ℕ
k_cas_buffer_cnt = 256

abbrev pub k_page_buffer_cnt : ℕ
k_page_buffer_cnt = 256

abbrev pub k_leaf_buffer_cnt : ℕ
k_leaf_buffer_cnt = 32

abbrev pub k_header_buffer_cnt : ℕ
k_header_buffer_cnt = 32

abbrev pub k_entry_buffer_cnt : ℕ
k_entry_buffer_cnt = 32

-- `allocationPageSize`, `allocAlignLeafSize` and `kPerCoroRdmaBuf` of include/Common.h.
abbrev pub allocation_page_size : ℕ
allocation_page_size = 8 + 8 + 256 * 8

abbrev pub alloc_align_leaf_size : ℕ
alloc_align_leaf_size = 256

abbrev pub k_per_coro_rdma_buf : ℕ
k_per_coro_rdma_buf = 4 * (1024 * (1024 * 1024)) / 65 / 8

pub record RdmaBuffer : Type 0 where
  pub buffer : ℕ
  pub cas_buffer : ℕ
  pub page_buffer : ℕ
  pub leaf_buffer : ℕ
  pub header_buffer : ℕ
  pub entry_buffer : ℕ
  pub range_buffer : ℕ
  pub zero_byte : ℕ
  pub cas_buffer_cur : ℕ
  pub page_buffer_cur : ℕ
  pub leaf_buffer_cur : ℕ
  pub header_buffer_cur : ℕ
  pub entry_buffer_cur : ℕ

-- The pointers; the byte at `zero_byte` is set to 0 in memory.
unfoldable pub set_buffer : ℕ → RdmaBuffer → RdmaBuffer
set_buffer buffer b =
    let page = buffer + 8 * k_cas_buffer_cnt in
    let leaf = page + allocation_page_size * k_page_buffer_cnt in
    let header = leaf + alloc_align_leaf_size * k_leaf_buffer_cnt in
    let entry = header + 8 * k_header_buffer_cnt in
    let zero = entry + 8 * k_entry_buffer_cnt in
    record b {
      buffer = buffer;
      cas_buffer = buffer;
      page_buffer = page;
      leaf_buffer = leaf;
      header_buffer = header;
      entry_buffer = entry;
      zero_byte = zero;
      range_buffer = zero + 1;
    }

-- The constructor.
unfoldable pub new : ℕ → RdmaBuffer
new buffer = set_buffer buffer (record {
  buffer = 0;
  cas_buffer = 0;
  page_buffer = 0;
  leaf_buffer = 0;
  header_buffer = 0;
  entry_buffer = 0;
  range_buffer = 0;
  zero_byte = 0;
  cas_buffer_cur = 0;
  page_buffer_cur = 0;
  leaf_buffer_cur = 0;
  header_buffer_cur = 0;
  entry_buffer_cur = 0;
})

unfoldable pub get_cas_buffer : RdmaBuffer → ℕ × RdmaBuffer
get_cas_buffer b =
    let cur = (b.cas_buffer_cur + 1) % k_cas_buffer_cnt in
    (b.cas_buffer + cur * 8, record b { cas_buffer_cur = cur })

unfoldable pub get_page_buffer : RdmaBuffer → ℕ × RdmaBuffer
get_page_buffer b =
    let cur = (b.page_buffer_cur + 1) % k_page_buffer_cnt in
    (b.page_buffer + cur * allocation_page_size, record b { page_buffer_cur = cur })

unfoldable pub get_leaf_buffer : RdmaBuffer → ℕ × RdmaBuffer
get_leaf_buffer b =
    let cur = (b.leaf_buffer_cur + 1) % k_leaf_buffer_cnt in
    (b.leaf_buffer + cur * alloc_align_leaf_size, record b { leaf_buffer_cur = cur })

unfoldable pub get_header_buffer : RdmaBuffer → ℕ × RdmaBuffer
get_header_buffer b =
    let cur = (b.header_buffer_cur + 1) % k_header_buffer_cnt in
    (b.header_buffer + cur * 8, record b { header_buffer_cur = cur })

unfoldable pub get_entry_buffer : RdmaBuffer → ℕ × RdmaBuffer
get_entry_buffer b =
    let cur = (b.entry_buffer_cur + 1) % k_entry_buffer_cnt in
    (b.entry_buffer + cur * 8, record b { entry_buffer_cur = cur })

abbrev pub get_range_buffer : RdmaBuffer → ℕ
get_range_buffer b = b.range_buffer

abbrev pub get_zero_byte : RdmaBuffer → ℕ
get_zero_byte b = b.zero_byte
