-- ===== src/PhysMem/Tests.antt =====
-- kernel/mm.c on the table of a machine whose memory has 24 pages, eleven of them used.
use now_os.Base.{ℕ, zero, suc, ◌<◌, ◌≡◌, refl, arith, Returns}
use now_os.ByteIndexList.Slots.{IsValid}
use now_os.PhysMem.{PhysMem, init_mem_manager, mem_get_free_page_phys}
use now_os.Paging.{Paging, init_early_heap}
use now_os.Paging.Start.{empty, empty-IsPaged}
use now_os.PhysMem.Region.{mem_alloc_region, Allocated, alloc_region-Allocated}
use now_os.PhysMem.Pages.{covered, init-covers_more, GotPage, get_free_page-GotPage}

abbrev eleven : ℕ → ℕ
eleven zero = 0xFF
eleven (suc zero) = 7
eleven (suc (suc i)) = 0

eleven-lt : (i : ℕ) → eleven i < 256
eleven-lt zero = omega arith
eleven-lt (suc zero) = omega arith
eleven-lt (suc (suc i)) = omega arith

abbrev small : PhysMem
small = record {
  table = record { byte = eleven; size = 3; free = 0; lock = 0 };
  page_num = 24;
  early_heap_ptr = 0xC0100003;
}

small-IsValid : IsValid small.table
small-IsValid = record { bytes = eleven-lt; free_in = omega arith; full_before = λ i p. elim p [ ] }

started : (init_mem_manager 0x18000 0xC0100000 (λ i. 7)).page_num ≡ 24
unfolding init_mem_manager
started = refl

get_free_page-GotPage_example : GotPage small (mem_get_free_page_phys small)
get_free_page-GotPage_example = get_free_page-GotPage small small-IsValid (omega arith)

init-covers_more_example : 0x7FFF < covered (init_mem_manager 0x7FFF 0xC0100000 (λ i. 0))
init-covers_more_example =
    init-covers_more 0x7FFF 0xC0100000 (λ i. 0) (omega arith) (omega arith) (omega arith)

abbrev fresh : Paging
fresh = init_early_heap 0xC030_0000 (record { memory = λ a. 0; kernel_dir = 0; early_heap_ptr = 0 })

-- Three pages at 0x10000, mapped to themselves, for a size that is rounded up.
alloc_region-Allocated_example :
    Returns (mem_alloc_region 0x1_0000 0x2001 49 small (empty fresh 768)) (λ (r, m', s').
      (r ≡ 0x1_0000) × Allocated small (empty fresh 768) 768 769 3 0x1_0000 0x1_0000 m' s')
alloc_region-Allocated_example =
    alloc_region-Allocated 0x1_0000 0x2001 3 49 0x1_0000 768 769 small (empty fresh 768)
      (empty-IsPaged fresh 768) small-IsValid refl refl (omega arith) (omega arith) (omega arith)
      (omega arith) (omega arith) (omega arith) refl
