-- ===== src/PhysMem.antt =====
-- kernel/mm.c: the table of physical pages, a bit for each page. `mem_alloc_region`, which also maps
-- pages, is in PhysMem/Region.antt.
pub mod Pages
pub mod Region
mod Tests
use now_os.Base.{
  ℕ, ◌+◌, ◌-◌, ◌*◌, ◌/◌, ◌^◌, Bool, Run, ok, ◌>>=◌, u32, ltb, ◌==◌, if◌then◌else◌, page_size,
  kern_virtual_addr, align_down, page_index,
}
use now_os.ByteIndexList.{
  ByteIndexList, init_byte_index_list, byte_index_set_tbl, byte_index_release_tbl,
  byte_index_check_tbl, byte_index_get_free_slot,
}

pub record PhysMem : Type 0 where
  pub table : ByteIndexList
  pub page_num : ℕ
  pub early_heap_ptr : ℕ

-- `memory` is what stands from `early_heap_ptr` on; the `memset` clears the table's bytes.
pub init_mem_manager : (phys_size early_heap_ptr : ℕ) → (memory : ℕ → ℕ) → PhysMem
init_mem_manager phys_size early_heap_ptr memory =
    let page_num = align_down phys_size page_size / page_size in
    let tbl_size = page_num / 8 in
    record {
      table = init_byte_index_list (λ i. if ltb i tbl_size then 0 else memory i) tbl_size;
      page_num = page_num;
      early_heap_ptr = u32 (early_heap_ptr + tbl_size);
    }

pub mem_set_tbl : (phys_addr : ℕ) → PhysMem → PhysMem
mem_set_tbl phys_addr m = record m { table = byte_index_set_tbl (page_index phys_addr) m.table }

pub mem_free_tbl : (phys_addr : ℕ) → PhysMem → PhysMem
mem_free_tbl phys_addr m = record m {
  table = byte_index_release_tbl (page_index phys_addr) m.table;
}

pub mem_check_tbl : (phys_addr : ℕ) → PhysMem → ℕ
mem_check_tbl phys_addr m = byte_index_check_tbl (page_index phys_addr) m.table

pub mem_get_free_page_phys : PhysMem → Run (ℕ × PhysMem)
mem_get_free_page_phys m = do
  (index, table) ← byte_index_get_free_slot m.table
  ok (
    if index == 2 ^ 32 - 1 then 2 ^ 32 - 1 else u32 (index * page_size),
    record m { table = table },
  )

pub mem_release_page_phys : (phys_addr : ℕ) → PhysMem → PhysMem
unfolding mem_free_tbl
mem_release_page_phys phys_addr m = mem_free_tbl phys_addr m

pub mem_get_free_page_virt : PhysMem → Run (ℕ × PhysMem)
mem_get_free_page_virt m = do
  (addr, m') ← mem_get_free_page_phys m
  ok (u32 (addr + kern_virtual_addr), m')

pub mem_release_page_virt : (virt_addr : ℕ) → PhysMem → PhysMem
unfolding mem_free_tbl
mem_release_page_virt virt_addr m = mem_free_tbl (u32 (virt_addr + 2 ^ 32 - kern_virtual_addr)) m
