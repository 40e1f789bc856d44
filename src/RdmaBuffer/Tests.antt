-- ===== src/RdmaBuffer/Tests.antt =====
-- The buffers of a coroutine whose memory starts at 4096.
use hybrid_heterogeneous_mem.Prelude.{◌+◌, ◌≤◌, ◌<◌, ◌≡◌, ◌≢◌, ◌⊎◌}
use hybrid_heterogeneous_mem.RdmaBuffer.{
  RdmaBuffer, new, k_per_coro_rdma_buf, get_range_buffer, get_zero_byte,
}
use hybrid_heterogeneous_mem.RdmaBuffer.Layout.{page, leaf, get, size, made, got, buffers_apart}

abbrev after_page : RdmaBuffer
after_page = (get page (new 4096)).1

page_ne_leaf : page ≢ leaf
page_ne_leaf e = cc

buffers_apart_example :
    (((get page (new 4096)).0 + size page ≤ (get leaf after_page).0)
      ⊎ ((get leaf after_page).0 + size leaf ≤ (get page (new 4096)).0))
    × ((4096 ≤ (get page (new 4096)).0)
        × (((get page (new 4096)).0 + size page ≤ get_zero_byte after_page)
            × ((get_zero_byte after_page + 1 ≡ get_range_buffer after_page)
                × (get_range_buffer after_page < 4096 + k_per_coro_rdma_buf))))
buffers_apart_example = buffers_apart 4096 page leaf made (got page made) page_ne_leaf
