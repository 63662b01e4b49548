-- ===== src/PageHeap/Tests.antt =====
-- kernel/kheap.c's page heap on nine pages from 0x100000 on: one for the table, eight to hand out.
use mathlib.Core.Path.{sym}
use now_os.Base.{
  ℕ, zero, suc, ◌<◌, ◌≡◌, refl, ap, arith, ◌==◌, true, all_below, all_below_sound, Returns,
}
use now_os.ByteIndexList.{init_byte_index_list, byte_index_check_tbl}
use now_os.PageHeap.{PageHeap, init_page_heap, kmalloc_page}
use now_os.PageHeap.Pages.{
  IsHeap, GotHeapPage, used, kmalloc_page-GotHeapPage, kmalloc_page-escapes,
}

abbrev eight : ℕ → ℕ
eight zero = 0xFF
eight (suc i) = 0

eight-lt : (i : ℕ) → eight i < 256
eight-lt zero = omega arith
eight-lt (suc i) = omega arith

-- All eight pages are used.
abbrev full : PageHeap
full = record {
  page_list = record { byte = eight; size = 8; free = 0; lock = 0 };
  page_ptr = 0x101000;
}

full-IsHeap : IsHeap full
full-IsHeap = record {
  valid = record { bytes = eight-lt; free_in = omega arith; full_before = λ i p. elim p [ ] };
  aligned = refl;
  fits = omega arith;
}

all_used : (j : ℕ) → j < 8 → used full j ≡ 1
unfolding all_below byte_index_check_tbl
all_used j p =
    let h : (used full j == 1) ≡ true = all_below_sound 8 (λ i. used full i == 1) j refl p in
    ground (arith, h)

laid_out : init_page_heap 0x100000 0x109000 eight ≡ full
unfolding init_page_heap init_byte_index_list
laid_out = refl

kmalloc_page-GotHeapPage_example : GotHeapPage full (kmalloc_page full)
kmalloc_page-GotHeapPage_example = kmalloc_page-GotHeapPage full full-IsHeap

kmalloc_page-escapes_example : Returns (kmalloc_page full) (λ (addr, h). addr ≡ 0x109000)
unfolding byte_index_check_tbl
kmalloc_page-escapes_example =
    kmalloc_page-escapes 0x100000 0x109000 eight full refl refl (omega arith) (omega arith)
      (ap PageHeap.page_ptr (sym laid_out)) (ap (λ h. h.page_list.size) (sym laid_out)) full-IsHeap
      all_used refl
