-- ===== src/Paging.antt =====
-- kernel/paging.c: the page directory and the page tables of the kernel, and the early heap of
-- kernel/kheap.c, from which the tables come. Memory is a function from the address of a word of four
-- bytes to the word. Each call runs under the source's lock.
pub mod Entries
pub mod Tables
pub mod Maps
pub mod Start
mod Tests
use Prim.Native.Nat.{bit_and, bit_or}
use now_os.Base.{
  ℕ, zero, suc, ◌+◌, ◌-◌, ◌*◌, ◌/◌, ◌%◌, ◌^◌, Bool, true, false, ◌&&◌, ◌==◌, ltb, leb,
  if◌then◌else◌, u32, sub32, page_size, align_up, is_aligned, kern_virtual_addr, Run, ok, panic,
  ◌>>=◌,
}

pub record Paging : Type 0 where
  pub memory : ℕ → ℕ
  pub kernel_dir : ℕ
  pub early_heap_ptr : ℕ

-- The early heap: what a call returns, and `early_heap_ptr` after it.
abbrev pub sector_size : ℕ
sector_size = 512

-- `early_heap_bottom` comes from the linker script.
abbrev pub init_early_heap : (early_heap_bottom : ℕ) → Paging → Paging
init_early_heap early_heap_bottom s = record s { early_heap_ptr = early_heap_bottom }

pub early_kmalloc_sectors : (sector_num early_heap_ptr : ℕ) → ℕ × ℕ
early_kmalloc_sectors sector_num early_heap_ptr =
    (early_heap_ptr, align_up (u32 (early_heap_ptr + sector_num * sector_size)) 4)

pub early_kmalloc_pages : (num_pages early_heap_ptr : ℕ) → Run (ℕ × ℕ)
early_kmalloc_pages num_pages early_heap_ptr =
    let ptr = align_up early_heap_ptr page_size in
    if is_aligned ptr page_size
    then ok (sub32 ptr kern_virtual_addr, u32 (ptr + num_pages * page_size))
    else panic

-- `x & ~0x03FF`
abbrev pub mask10 : ℕ → ℕ
mask10 x = x - x % 2 ^ 10

-- The flags of an entry of a page table, which `set_page_tbl_entry` sets one after the other.
pub tbl_flags : (entry read_write privledge write_through cache_disabled : ℕ) → ℕ
tbl_flags entry read_write privledge write_through cache_disabled =
    bit_or
      (bit_or (bit_or (bit_or (bit_or entry 1) (read_write * 2)) (privledge * 4))
        (write_through * 8))
      (cache_disabled * 16)

-- What `set_page_dir_entry` and `set_page_tbl_entry` write.
pub page_dir_entry : (phys_addr read_write privledge write_through cache_disabled page_size : ℕ) → ℕ
page_dir_entry phys_addr read_write privledge write_through cache_disabled size =
    bit_or
      (tbl_flags (mask10 (align_up phys_addr page_size)) read_write privledge write_through
        cache_disabled)
      (size * 2 ^ 7)

pub page_tbl_entry : (phys_addr read_write privledge write_through cache_disabled : ℕ) → ℕ
page_tbl_entry phys_addr = tbl_flags (mask10 phys_addr)

abbrev pub write : (addr word : ℕ) → (ℕ → ℕ) → ℕ → ℕ
write addr word memory a = if a == addr then word else memory a

-- `memset(page, 0, PAGE_SIZE)`
abbrev pub clear_page : (page : ℕ) → (ℕ → ℕ) → ℕ → ℕ
clear_page page memory a = if leb page a && ltb a (page + page_size) then 0 else memory a

abbrev pub dir_index : (virtual_addr : ℕ) → ℕ
dir_index virtual_addr = virtual_addr / 2 ^ 22

abbrev pub tbl_index : (virtual_addr : ℕ) → ℕ
tbl_index virtual_addr = virtual_addr / 2 ^ 12 % 2 ^ 10

-- A new page table where the directory has none.
pub new_table : (pdindex : ℕ) → Paging → Run Paging
new_table pdindex s =
    let entry = s.kernel_dir + pdindex * 4 in
    if s.memory entry == 0
    then (do
      (temp_phys_addr, ptr) ← early_kmalloc_pages 1 s.early_heap_ptr
      ok (record s {
        memory =
            write entry (page_dir_entry temp_phys_addr 1 0 0 0 0)
              (clear_page temp_phys_addr s.memory);
        early_heap_ptr = ptr;
      }))
    else ok s

-- `map_kern_page` and `map_kern_page_flags`, for the four flags of the entry.
pub map_page :
    (virtual_addr phys_addr read_write privledge write_through cache_disabled : ℕ)
    → Paging
    → Run Paging
unfolding new_table
map_page virtual_addr phys_addr read_write privledge write_through cache_disabled s = do
  s' ← new_table (dir_index virtual_addr) s
  let tbl = mask10 (s'.memory (s'.kernel_dir + dir_index virtual_addr * 4))
  let entry = page_tbl_entry phys_addr read_write privledge write_through cache_disabled
  ok (record s' { memory = write (tbl + tbl_index virtual_addr * 4) entry s'.memory })

pub map_kern_page : (virtual_addr phys_addr : ℕ) → Paging → Run Paging
map_kern_page virtual_addr phys_addr s = map_page virtual_addr phys_addr 1 0 0 0 s

-- PAGE_READWRITE, PAGE_ALLACCESS, PAGE_WRITETHROUGH and PAGE_CACHEDISABLE are bits 0 to 3.
pub map_kern_page_flags : (virtual_addr phys_addr flags : ℕ) → Paging → Run Paging
map_kern_page_flags virtual_addr phys_addr flags s =
    map_page virtual_addr phys_addr (flags % 2) (flags / 2 % 2) (flags / 4 % 2) (flags / 8 % 2) s

-- The address of an entry, 0 for the null pointer.
pub get_tbl_entry : (virt_addr : ℕ) → Paging → ℕ
get_tbl_entry virt_addr s =
    let tbl = mask10 (s.memory (s.kernel_dir + dir_index virt_addr * 4)) in
    if tbl == 0 then 0 else tbl + tbl_index virt_addr * 4

-- `count` rounds of the loops of `init_kern_paging`.
pub map_range : (count virtual_addr phys_addr : ℕ) → Paging → Run Paging
map_range zero virtual_addr phys_addr s = ok s
map_range (suc n) virtual_addr phys_addr s = do
  s' ← map_kern_page virtual_addr phys_addr s
  map_range n (u32 (virtual_addr + page_size)) (phys_addr + page_size) s'

-- The first two megabytes at their own addresses, and six megabytes from `KERN_VIRTUAL_ADDR` on.
pub init_kern_paging : Paging → Run Paging
init_kern_paging s = do
  (dir, ptr) ← early_kmalloc_pages 1 s.early_heap_ptr
  s' ←
      map_range 512 0 0
        (record { memory = clear_page dir s.memory; kernel_dir = dir; early_heap_ptr = ptr })
  map_range 1536 kern_virtual_addr 0 s'
