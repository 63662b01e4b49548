-- ===== src/PhysMem/Pages.antt =====
-- Handing out and taking back physical pages.
use now_os.Base.{
  ℕ, ◌+◌, ◌-◌, ◌*◌, ◌/◌, ◌%◌, ◌^◌, ◌≤◌, ◌<◌, ◌≡◌, ◌≢◌, false, Run, ok, panic, u32, ◌==◌, page_size,
  page_index, arith,
}
use now_os.ByteIndexList.{byte_index_get_free_slot, init_byte_index_list}
use now_os.ByteIndexList.Slots.{IsValid, check-release}
use now_os.ByteIndexList.FreeSlot.{GotSlot, got, none_left, get_free_slot-GotSlot}
use now_os.PhysMem.{
  PhysMem, init_mem_manager, mem_check_tbl, mem_get_free_page_phys, mem_release_page_phys,
}

-- The bytes of memory that the table covers.
abbrev pub covered : PhysMem → ℕ
covered m = m.table.size * 8 * page_size

-- A page was found, or all covered pages are used and the kernel halts.
pub data GotPage (m : PhysMem) (r : Run (ℕ × PhysMem)) : Type 0 where
  page :
      (addr : ℕ) (m' : PhysMem)
      → r ≡ ok (addr, m')
      → addr % page_size ≡ 0
      → addr < covered m
      → mem_check_tbl addr m ≡ 0
      → mem_check_tbl addr m' ≡ 1
      → ((p : ℕ) → p < 2 ^ 32 → mem_check_tbl p (mem_release_page_phys addr m') ≡ mem_check_tbl p m)
      → GotPage m r
  no_page : r ≡ panic → ((p : ℕ) → p < covered m → mem_check_tbl p m ≡ 1) → GotPage m r

-- `mem_get_free_page_phys` hands out a free page of the covered memory and marks it used, and
-- releasing that page gives the table of before; it halts only when no covered page is free.
pub get_free_page-GotPage :
    (m : PhysMem) → IsValid m.table → covered m ≤ 2 ^ 32 → GotPage m (mem_get_free_page_phys m)
unfolding mem_get_free_page_phys mem_check_tbl mem_release_page_phys
get_free_page-GotPage m v small = go (get_free_slot-GotSlot m.table v (omega arith))
  where
    go : GotSlot m.table (byte_index_get_free_slot m.table) → GotPage m (mem_get_free_page_phys m)
    go (got slot table e lt free low marked w) =
        let t : (slot == 2 ^ 32 - 1) ≡ false = ground arith in
        let z : u32 (slot * page_size) ≡ slot * page_size = omega arith in
        let i : page_index (slot * page_size) ≡ slot = omega arith in
        page (slot * page_size) (record m { table = table }) (rw (e, t, z)) (omega arith)
          (omega arith) (rw i free) (rw i (ground (arith, marked slot)))
          (λ p h.
            rw i (ground (arith, check-release table w slot (page_index p), marked (page_index p))))
    go (none_left e used) = no_page (rw e) (λ p h. used (page_index p) (omega arith))

-- `init_mem_manager` rounds the size of the memory up to a page. When that gives a multiple of eight
-- pages, the table covers addresses behind the end of the memory.
pub init-covers_more :
    (phys_size early_heap_ptr : ℕ) (memory : ℕ → ℕ)
    → phys_size + page_size ≤ 2 ^ 32
    → phys_size % page_size ≢ 0
    → (phys_size / page_size + 1) % 8 ≡ 0
    → phys_size < covered (init_mem_manager phys_size early_heap_ptr memory)
unfolding init_mem_manager init_byte_index_list
init-covers_more phys_size early_heap_ptr memory fits part eighth = omega arith
