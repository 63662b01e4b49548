-- ===== src/PhysMem/Region.antt =====
-- `mem_alloc_region` of kernel/mm.c: a region of physical memory is mapped and its pages are marked.
use Prim.Native.Nat.{bit_or}
use now_os.Base.{
  ℕ, zero, suc, ◌+◌, ◌-◌, ◌*◌, ◌/◌, ◌%◌, ◌^◌, ◌<◌, ◌≡◌, refl, ◌∙◌, true, false, not, ◌&&◌, arith,
  ltb, leb, ◌==◌, if◌then◌else◌, some, Run, ok, Returns, Returns-then, Returns-weaken, ◌>>=◌, u32,
  page_size, kern_virtual_addr, align_up, page_index, sub32, Bool, ◌≤◌,
}
use now_os.PhysMem.{PhysMem, mem_set_tbl, mem_check_tbl}
use now_os.Paging.{Paging, write, map_kern_page_flags}
use now_os.Paging.Tables.{walk, IsPaged}
use now_os.Paging.Maps.{map_kern_page_flags-Mapped}
use now_os.Paging.Start.{first_page}
use now_os.ByteIndexList.{byte_index_check_tbl}
use now_os.ByteIndexList.Slots.{IsValid, check-set, set-IsValid, set-size}

-- The flags of `map_kern_page_flags` for those of the region: bits 0, 2 and 3 are kept.
pub map_flags : (flags : ℕ) → ℕ
map_flags flags = flags % 2 + flags / 4 % 2 * 4 + flags / 8 % 2 * 8

-- The table's bytes are those of `m.table`. It stands right before `m.early_heap_ptr`, and behind its
-- last byte the words of `s.memory` go on, with the page directory and the page tables among them: the
-- bit of a page behind the table is bit `slot_bit` of the word at `slot_word`.
abbrev pub in_table : (phys_addr : ℕ) → PhysMem → Bool
in_table phys_addr m = ltb (page_index phys_addr / 8) m.table.size

abbrev slot_byte : (phys_addr : ℕ) → PhysMem → ℕ
slot_byte phys_addr m =
    sub32 (u32 (m.early_heap_ptr + (page_index phys_addr / 8 - m.table.size))) kern_virtual_addr

abbrev slot_word : (phys_addr : ℕ) → PhysMem → ℕ
slot_word phys_addr m = slot_byte phys_addr m - slot_byte phys_addr m % 4

abbrev slot_bit : (phys_addr : ℕ) → PhysMem → ℕ
slot_bit phys_addr m = slot_byte phys_addr m % 4 * 8 + page_index phys_addr % 8

-- `mem_set_tbl` and `mem_check_tbl` on this memory.
mark_page : (phys_addr : ℕ) → PhysMem → Paging → PhysMem × Paging
mark_page phys_addr m s =
    let word = slot_word phys_addr m in
    if in_table phys_addr m then (mem_set_tbl phys_addr m, s) else (
      m,
      record s { memory = write word (bit_or (s.memory word) (2 ^ slot_bit phys_addr m)) s.memory },
    )

check_page : (phys_addr : ℕ) → PhysMem → Paging → ℕ
check_page phys_addr m s =
    if in_table phys_addr m
    then mem_check_tbl phys_addr m
    else s.memory (slot_word phys_addr m) / 2 ^ slot_bit phys_addr m % 2

-- `num_pages` rounds of the loop.
alloc_pages : (num_pages virt_addr phys_addr flags : ℕ) → PhysMem → Paging → Run (PhysMem × Paging)
unfolding mark_page
alloc_pages zero virt_addr phys_addr flags m s = ok (m, s)
alloc_pages (suc n) virt_addr phys_addr flags m s = do
  s' ← map_kern_page_flags virt_addr phys_addr flags s
  let (m1, s1) = mark_page phys_addr m s'
  alloc_pages n (u32 (virt_addr + page_size)) (u32 (phys_addr + page_size)) flags m1 s1

-- MEM_ALREADYEXISTS is bit 4 of the flags, MEM_IDENTITYREGION bit 5. The null pointer is 0.
pub mem_alloc_region : (phys_addr size flags : ℕ) → PhysMem → Paging → Run (ℕ × PhysMem × Paging)
unfolding alloc_pages check_page
mem_alloc_region phys_addr size flags m s =
    if flags / 16 % 2 == 0 && not (check_page phys_addr m s == 0) then ok (0, m, s) else (do
      let virt_addr = if flags / 32 % 2 == 0 then u32 (phys_addr + kern_virtual_addr) else phys_addr
      (m', s') ←
          alloc_pages (align_up size page_size / page_size) virt_addr phys_addr (map_flags flags) m
            s
      ok (virt_addr, m', s'))

-- Whether a page of physical memory is marked as used.
abbrev pub in_use : PhysMem → (page : ℕ) → ℕ
in_use m page = byte_index_check_tbl page m.table

-- `count` pages from `virt_addr` on are mapped to those from `phys_addr` on, which are marked. All other
-- addresses, and the marks of all other pages of the table, are as they were.
pub record Allocated (m : PhysMem) (s : Paging) (dir next count virt_addr phys_addr : ℕ)
    (m' : PhysMem) (s' : Paging) : Type 0 where
  pub last : ℕ
  pub paged : IsPaged s' dir last
  pub walks :
      (u : ℕ)
      → u < 2 ^ 32
      → walk u s' ≡ (
          if leb virt_addr u && ltb u (virt_addr + count * page_size)
          then some (phys_addr + (u - virt_addr))
          else walk u s)
  pub marked :
      (j : ℕ)
      → j < 8 * m.table.size
      → in_use m' j ≡ (
          if leb (phys_addr / page_size) j && ltb j (phys_addr / page_size + count)
          then 1
          else in_use m j)

alloc_pages-Allocated :
    (count : ℕ) (m : PhysMem) (s : Paging) (dir next virt_addr phys_addr flags : ℕ)
    → IsPaged s dir next
    → IsValid m.table
    → kern_virtual_addr + (next + count) * page_size < 2 ^ 32
    → virt_addr + count * page_size < 2 ^ 32
    → phys_addr + count * page_size < 2 ^ 32
    → virt_addr % page_size ≡ 0
    → phys_addr % page_size ≡ 0
    → phys_addr / page_size + count ≤ 8 * m.table.size
    → Returns
        (alloc_pages count virt_addr phys_addr flags m s)
        (λ (m', s'). Allocated m s dir next count virt_addr phys_addr m' s')
unfolding alloc_pages mem_set_tbl mark_page
alloc_pages-Allocated zero m s dir next virt_addr phys_addr flags v t room hv hp av ap inside =
    record { last = next; paged = v; walks = λ u q. ground arith; marked = λ j q. ground arith }
alloc_pages-Allocated (suc n) m s dir next virt_addr phys_addr flags v t room hv hp av ap inside =
    Returns-then (map_kern_page_flags virt_addr phys_addr flags s) _ _
      (map_kern_page_flags-Mapped s dir next virt_addr phys_addr flags v (omega arith) (omega arith)
        ap)
      (λ s1 one.
        let step : u32 (virt_addr + page_size) ≡ virt_addr + page_size = omega arith in
        let step' : u32 (phys_addr + page_size) ≡ phys_addr + page_size = omega arith in
        let index : page_index phys_addr ≡ phys_addr / page_size = omega arith in
        let here : in_table phys_addr m ≡ true = ground (arith, index) in
        let size = set-size m.table t (page_index phys_addr) in
        let m1 = mem_set_tbl phys_addr m in
        rw (here, step, step')
          (Returns-weaken
            (alloc_pages n (virt_addr + page_size) (phys_addr + page_size) flags m1 s1) _ _
            (alloc_pages-Allocated n m1 s1 dir one.last (virt_addr + page_size)
              (phys_addr + page_size) flags one.paged (set-IsValid m.table t (page_index phys_addr))
              (omega (arith, one.grows)) (omega arith) (omega arith) (omega arith) (omega arith)
              (omega (arith, size)))
            (λ (m2, s2) r. record {
              last = r.last;
              paged = r.paged;
              walks =
                  λ u q. r.walks u q ∙ first_page u q n virt_addr phys_addr s s1 av (one.walks u q);
              marked = λ j q. ground (
                arith,
                r.marked j (omega (arith, size)),
                check-set m.table t (page_index phys_addr) j,
                index,
              );
            })))

-- A region of `count` pages, one at least, its size rounded up, that starts at a page and ends within the table and
-- below the end of memory, also where it is mapped, with room for `count` pages on the early heap,
-- and whose first page is not marked, or may be marked by its flags. `mem_alloc_region` returns its
-- first address, at `KERN_VIRTUAL_ADDR` or, for an identity region, at the region itself. The pages of
-- the region are then mapped one after the other and marked as used. All other addresses, and the
-- marks of all other pages of the table, are as they were.
pub alloc_region-Allocated :
    (phys_addr size count flags virt_addr dir next : ℕ) (m : PhysMem) (s : Paging)
    → IsPaged s dir next
    → IsValid m.table
    → (flags / 16 % 2 == 0 && not (mem_check_tbl phys_addr m == 0)) ≡ false
    → virt_addr ≡ (if flags / 32 % 2 == 0 then phys_addr + kern_virtual_addr else phys_addr)
    → 0 < count
    → size ≤ count * page_size
    → count * page_size < size + page_size
    → phys_addr / page_size + count ≤ 8 * m.table.size
    → kern_virtual_addr + (next + count) * page_size < 2 ^ 32
    → virt_addr + count * page_size < 2 ^ 32
    → phys_addr % page_size ≡ 0
    → Returns
        (mem_alloc_region phys_addr size flags m s)
        (λ (r, m', s'). (r ≡ virt_addr) × Allocated m s dir next count virt_addr phys_addr m' s')
unfolding mem_alloc_region check_page
alloc_region-Allocated phys_addr size count flags virt_addr dir next m s v t free at some_page low
      high inside room h aligned =
    let index : page_index phys_addr ≡ phys_addr / page_size = omega arith in
    let here : in_table phys_addr m ≡ true = ground (arith, index) in
    let pages : align_up size page_size / page_size ≡ count = ground arith in
    let same : (if flags / 32 % 2 == 0 then u32 (phys_addr + kern_virtual_addr) else phys_addr)
        ≡ virt_addr =
      ground arith in
    rw (here, free, pages, same)
      (Returns-then (alloc_pages count virt_addr phys_addr (map_flags flags) m s) _ _
        (alloc_pages-Allocated count m s dir next virt_addr phys_addr (map_flags flags) v t room h
          (ground arith) (ground arith) aligned inside)
        (λ (m', s') a. (refl, a)))
