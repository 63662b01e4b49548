-- ===== src/Paging/Tests.antt =====
-- Paging from an early heap that goes on at page 768 of memory.
use now_os.Base.{
  ℕ, ◌+◌, ◌-◌, ◌*◌, ◌^◌, ◌<◌, ◌≡◌, refl, ◌&&◌, arith, ltb, leb, if◌then◌else◌, page_size,
  kern_virtual_addr, some, none, Returns,
}
use now_os.Paging.{
  Paging, early_kmalloc_sectors, early_kmalloc_pages, tbl_flags, page_dir_entry, page_tbl_entry,
  new_table, map_page, map_kern_page_flags, get_tbl_entry, init_kern_paging,
}
use now_os.Paging.Tables.{walk, IsPaged}
use now_os.Paging.Maps.{Mapped, map_page-Mapped}
use now_os.Paging.Start.{empty, empty-IsPaged, init-maps}

abbrev fresh : Paging
fresh = record {
  memory = λ a. 0;
  kernel_dir = 0;
  early_heap_ptr = kern_virtual_addr + 768 * page_size;
}

abbrev started : Paging
started = empty fresh 768

map_page-Mapped_example :
    Returns
      (map_page 0xFEE0_0000 0xFEE0_0000 1 0 0 1 started)
      (Mapped started 768 769 0xFEE0_0000 0xFEE0_0000)
map_page-Mapped_example =
    map_page-Mapped started 768 769 0xFEE0_0000 0xFEE0_0000 1 0 0 1 (empty-IsPaged fresh 768)
      (omega arith) (omega arith) refl (omega arith) (omega arith) (omega arith) (omega arith)

-- Its entry, with the cache disabled, stands in the first table.
mapped_entry : Returns (map_kern_page_flags 0xFEE0_0000 0xFEE0_0000 9 started) (λ s.
    (s.memory (get_tbl_entry 0xFEE0_0000 s) ≡ 0xFEE0_0013)
    × (get_tbl_entry 0xFEE0_0000 s ≡ 769 * page_size + 512 * 4))
unfolding map_kern_page_flags map_page new_table early_kmalloc_pages tbl_flags page_dir_entry
    page_tbl_entry get_tbl_entry
mapped_entry = (refl, refl)

sectors : early_kmalloc_sectors 3 0xC030_0000 ≡ (0xC030_0000, 0xC030_0600)
unfolding early_kmalloc_sectors
sectors = refl

init-maps_example : Returns (init_kern_paging fresh) (λ s'.
    (last : ℕ) × IsPaged s' 768 last
    × ((u : ℕ)
        → u < 2 ^ 32
        → walk u s' ≡ (
            if ltb u 0x20_0000
            then some u
            else if leb kern_virtual_addr u && ltb u (kern_virtual_addr + 0x60_0000)
            then some (u - kern_virtual_addr)
            else none)))
init-maps_example = init-maps fresh 768 refl (omega arith)
