-- ===== src/PageHeap.antt =====
-- kernel/kheap.c, the page heap: pages handed out by a table that stands in the heap's first page.
-- `lock` is taken and given back inside each call.
pub mod Pages
mod Tests
use now_os.Base.{
  ℕ, ◌+◌, ◌-◌, ◌*◌, ◌/◌, ◌^◌, Run, ok, panic, ◌>>=◌, u32, ◌==◌, if◌then◌else◌, page_size, align_up,
  sub32, is_aligned,
}
use now_os.ByteIndexList.{
  ByteIndexList, init_byte_index_list, byte_index_release_tbl, byte_index_get_free_slot,
}

pub record PageHeap : Type 0 where
  pub page_list : ByteIndexList
  pub page_ptr : ℕ

-- `bottom` and `top` are the linker's page_heap_bottom and page_heap_top, `memory` the bytes from
-- `bottom` on.
pub init_page_heap : (bottom top : ℕ) → (memory : ℕ → ℕ) → PageHeap
init_page_heap bottom top memory =
    let page_num = sub32 (sub32 top bottom / page_size) 1 in
    record {
      page_list = init_byte_index_list memory page_num;
      page_ptr = align_up (u32 (bottom + page_size)) page_size;
    }

-- The null pointer is 0.
pub kmalloc_page : PageHeap → Run (ℕ × PageHeap)
kmalloc_page h = do
  (index, page_list) ← byte_index_get_free_slot h.page_list
  ok (
    if index == 2 ^ 32 - 1 then 0 else u32 (h.page_ptr + index * page_size),
    record h { page_list = page_list },
  )

pub kfree_page : (ptr : ℕ) → PageHeap → Run PageHeap
kfree_page ptr h =
    if is_aligned ptr page_size
    then ok (record h {
      page_list = byte_index_release_tbl (u32 (ptr + 2 ^ 32 - h.page_ptr) / page_size) h.page_list;
    })
    else panic
