-- ===== src/PageHeap/Pages.antt =====
-- Pages of the page heap, and its bound.
use now_os.Base.{
  ℕ, ◌+◌, ◌-◌, ◌*◌, ◌/◌, ◌%◌, ◌^◌, ◌≤◌, ◌<◌, ◌≡◌, ◌∙◌, true, false, Run, ok, panic, u32, ◌==◌,
  page_size, is_aligned, arith, Returns,
}
use now_os.ByteIndexList.{byte_index_check_tbl, byte_index_get_free_slot, init_byte_index_list}
use now_os.ByteIndexList.Slots.{IsValid, check-release}
use now_os.ByteIndexList.FreeSlot.{GotSlot, got, none_left, get_free_slot-GotSlot}
use now_os.PageHeap.{PageHeap, init_page_heap, kmalloc_page, kfree_page}

-- The table is valid, its slots fit the address space, and the pages are aligned.
pub record IsHeap (h : PageHeap) : Type 0 where
  pub valid : IsValid h.page_list
  pub aligned : h.page_ptr % page_size ≡ 0
  pub fits : h.page_ptr + h.page_list.size * 8 * page_size ≤ 2 ^ 32

abbrev pub used : PageHeap → (slot : ℕ) → ℕ
used h slot = byte_index_check_tbl slot h.page_list

-- A free slot's page was handed out, or the table is full and the kernel halts.
pub data GotHeapPage (h : PageHeap) (r : Run (ℕ × PageHeap)) : Type 0 where
  page :
      (slot : ℕ) (h' : PageHeap)
      → r ≡ ok (h.page_ptr + slot * page_size, h')
      → slot < h.page_list.size * 8
      → used h slot ≡ 0
      → ((j : ℕ) → j < slot → used h j ≡ 1)
      → used h' slot ≡ 1
      → Returns
          (kfree_page (h.page_ptr + slot * page_size) h')
          (λ h''. (j : ℕ) → used h'' j ≡ used h j)
      → GotHeapPage h r
  no_page : r ≡ panic → ((j : ℕ) → j < h.page_list.size * 8 → used h j ≡ 1) → GotHeapPage h r

-- `kmalloc_page` hands out the page of the lowest free slot and marks it, and `kfree_page` of that
-- page gives the table of before; it halts only when the table is full.
pub kmalloc_page-GotHeapPage : (h : PageHeap) → IsHeap h → GotHeapPage h (kmalloc_page h)
unfolding kmalloc_page kfree_page
kmalloc_page-GotHeapPage h v =
    go (get_free_slot-GotSlot h.page_list v.valid (omega (arith, v.fits)))
  where
    go : GotSlot h.page_list (byte_index_get_free_slot h.page_list) → GotHeapPage h (kmalloc_page h)
    go (got slot table e lt free low marked w) =
        let t : (slot == 2 ^ 32 - 1) ≡ false = ground (arith, v.fits) in
        let z : u32 (h.page_ptr + slot * page_size) ≡ h.page_ptr + slot * page_size =
          omega (arith, v.fits) in
        let a : is_aligned (h.page_ptr + slot * page_size) page_size ≡ true =
          ground (arith, v.aligned) in
        let i : u32 (h.page_ptr + slot * page_size + 2 ^ 32 - h.page_ptr) / page_size ≡ slot =
          omega (arith, v.fits) in
        page slot (record h { page_list = table }) (rw (e, t, z)) lt free low
          (ground (arith, marked slot))
          (rw (a, i) (λ j. ground (arith, check-release table w slot j, marked j)))
    go (none_left e full) = no_page (rw e) full

escaped :
    (top : ℕ) (h : PageHeap)
    → IsHeap h
    → h.page_ptr + h.page_list.size * page_size ≡ top
    → ((j : ℕ) → j < h.page_list.size → used h j ≡ 1)
    → used h h.page_list.size ≡ 0
    → 0 < h.page_list.size
    → GotHeapPage h (kmalloc_page h)
    → Returns (kmalloc_page h) (λ (addr, h'). addr ≡ top)
escaped top h v e full free p (page slot h' e' lt f low u r) =
    rw e' (ground (arith, full slot, low h.page_list.size))
escaped top h v e full free p (no_page e' u) = absurd (ground (arith, u h.page_list.size))

-- `init_page_heap` gives the table a byte where the heap has a page, so eight slots for each page.
-- Once the slots of all pages are used and the next slot is not, `kmalloc_page` hands out `top`, the
-- first address behind the heap.
pub kmalloc_page-escapes :
    (bottom top : ℕ) (memory : ℕ → ℕ) (h : PageHeap)
    → bottom % page_size ≡ 0
    → top % page_size ≡ 0
    → bottom + page_size < top
    → top < 2 ^ 32
    → h.page_ptr ≡ (init_page_heap bottom top memory).page_ptr
    → h.page_list.size ≡ (init_page_heap bottom top memory).page_list.size
    → IsHeap h
    → ((j : ℕ) → j < h.page_list.size → used h j ≡ 1)
    → used h h.page_list.size ≡ 0
    → Returns (kmalloc_page h) (λ (addr, h'). addr ≡ top)
unfolding init_page_heap init_byte_index_list
kmalloc_page-escapes bottom top memory h p q lt small r s v full free =
    let z : is_aligned (u32 (bottom + page_size)) page_size ≡ true = ground arith in
    let e : h.page_ptr ≡ bottom + page_size = rw z at r ∙ omega arith in
    escaped top h v (omega arith) full free (omega arith) (kmalloc_page-GotHeapPage h v)
