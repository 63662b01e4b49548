-- ===== src/Kheap/Alloc/Tests.antt =====
-- kernel/kheap.c on small heaps that begin at 0x1000.
use now_os.Base.{◌<◌, ℕ, ◌≡◌, refl, true, [], ◌∷◌, ◌++◌, arith, if◌then◌else◌, ◌==◌, ok, Returns}
use now_os.SortedArrayList.{init_sorted_list, insert_list, remove_list}
use now_os.Kheap.{
  remove_free, heap_merge_right, heap_merge_left, heap_merge_nodes, try_merge_left, try_merge_right,
  Header, Kheap, find_from, heap_find_free_node, magic_free, magic_used,
}
use now_os.Kheap.Blocks.{used, free, IsHeap}
use now_os.Kheap.Find.{Fit, find_free_node-Fit}
use now_os.Kheap.Alloc.{
  expand_heap, heap_split_node, kmalloc, kfree, check_kheap_integrity, init_kheap,
}
use now_os.Kheap.Alloc.Split.{heap_split_node-IsHeap}
use now_os.Kheap.Alloc.StaleEnd.{heap_split_node-stale_end}
use now_os.Kheap.Alloc.Malloc.{Allocated, kmalloc-Allocated}
use now_os.Kheap.Alloc.Free.{Ordered}
use now_os.Kheap.Alloc.Freed.{IsFreed, kfree-Freed}
use now_os.Kheap.Alloc.First.{IsFirstFreed, kfree-FirstFreed}
use now_os.Kheap.Alloc.Ends.{kfree-IsHeap, kfree-stale_end}
use now_os.Kheap.Alloc.Init.{init_kheap-IsHeap, check_kheap_integrity-true}

abbrev header_at : ℕ → ℕ → ℕ → ℕ → Header
header_at magic next prev size = record {
  magic = magic;
  next_ptr = next;
  prev_ptr = prev;
  size = size;
}

-- One free block.
abbrev one : Kheap
one = record {
  header = λ a. if a == 4096 then header_at magic_free 0 0 4080 else header_at 0 0 0 0;
  free_node_list = record { arr = 4096 ∷ 0 ∷ 0 ∷ 0 ∷ []; arr_size = 4; curr_size = 2; lock = 0 };
  top_heap_ptr = 8192;
  heap_list_end_ptr = 4096;
}

init_one : Returns (init_kheap 4094 0x100 0x110 (0 ∷ 0 ∷ 0 ∷ 0 ∷ [])) (λ h. h ≡ one)
unfolding init_kheap insert_list init_sorted_list
init_one = refl

one-IsHeap : IsHeap 4096 one (free 4080 ∷ [])
unfolding init_kheap insert_list init_sorted_list
one-IsHeap =
    init_kheap-IsHeap 4094 0x100 0x110 4 (omega arith) (omega arith) refl (omega arith)
      (omega arith)

-- A free block of sixteen bytes before a used one.
abbrev two : Kheap
two = record {
  header = λ a.
      if a == 4096
      then header_at magic_free 4128 0 16
      else if a == 4128
      then header_at magic_used 0 4096 4048
      else header_at 0 0 0 0;
  free_node_list = one.free_node_list;
  top_heap_ptr = 8192;
  heap_list_end_ptr = 4128;
}

two-IsHeap : IsHeap 4096 two (free 16 ∷ used 4048 ∷ [])
two-IsHeap = record {
  row = (refl, (refl, (refl, refl)));
  positive = omega arith;
  fits = omega arith;
  list = one-IsHeap.list;
  listed = one-IsHeap.listed;
}

find_free_node-Fit_example : Returns (heap_find_free_node 20 one) (Fit one 20 4096 (free 4080 ∷ []))
find_free_node-Fit_example = find_free_node-Fit one 20 4096 (free 4080 ∷ []) one-IsHeap

heap_split_node-IsHeap_example :
    Returns (heap_split_node 4096 100 one) (λ h. IsHeap 4096 h (used 100 ∷ free 3964 ∷ []))
heap_split_node-IsHeap_example =
    heap_split_node-IsHeap 4096 one [] 4080 [] one-IsHeap 100 (omega arith)

heap_split_node-stale_end_example :
    Returns
      (heap_split_node 4096 16 two)
      (λ h. (h.heap_list_end_ptr ≡ 4096) × ((h.header 4096).next_ptr ≡ 4128))
heap_split_node-stale_end_example = heap_split_node-stale_end 4096 two [] 16 (used 4048) two-IsHeap

kmalloc-Allocated_example :
    Returns (kmalloc 0x4000 99 one) (λ (ptr, h). Allocated 4096 100 one (free 4080 ∷ []) ptr h)
kmalloc-Allocated_example =
    kmalloc-Allocated 0x4000 4096 99 one (free 4080 ∷ []) one-IsHeap (4096, refl, omega arith)

init_kheap-IsHeap_example :
    Returns (init_kheap 4094 0x100 0x110 (0 ∷ 0 ∷ 0 ∷ 0 ∷ [])) (λ h. IsHeap 4096 h (free 4080 ∷ []))
init_kheap-IsHeap_example =
    init_kheap-IsHeap 4094 0x100 0x110 4 (omega arith) (omega arith) refl (omega arith)
      (omega arith)

check_kheap_integrity-true_example : check_kheap_integrity 3 4096 two ≡ ok true
check_kheap_integrity-true_example =
    check_kheap_integrity-true 4096 two (free 16) (used 4048 ∷ []) 3 two-IsHeap (omega arith)

-- A free block between used ones, and a last used block behind them.
abbrev three : Kheap
three = record {
  header = λ a.
      if a == 4096
      then header_at magic_free 4128 0 16
      else if a == 4128
      then header_at magic_used 4160 4096 16
      else if a == 4160
      then header_at magic_used 0 4128 4016
      else header_at 0 0 0 0;
  free_node_list = one.free_node_list;
  top_heap_ptr = 8192;
  heap_list_end_ptr = 4160;
}

three-IsHeap : IsHeap 4096 three ([] ++ free 16 ∷ used 16 ∷ used 4016 ∷ [])
three-IsHeap = record {
  row = (refl, (refl, (refl, (refl, refl))));
  positive = omega arith;
  fits = omega arith;
  list = one-IsHeap.list;
  listed = one-IsHeap.listed;
}

-- A used block between a used one and the last, free one.
abbrev ends_free : Kheap
ends_free = record {
  header = λ a.
      if a == 4064
      then header_at magic_used 4080 0 0
      else if a == 4080
      then header_at magic_used 4096 4064 0
      else if a == 4096
      then header_at magic_free 0 4080 4080
      else header_at 0 0 0 0;
  free_node_list = one.free_node_list;
  top_heap_ptr = 8192;
  heap_list_end_ptr = 4096;
}

ends_free-IsHeap : IsHeap 4064 ends_free ([] ++ used 0 ∷ used 0 ∷ free 4080 ∷ [])
ends_free-IsHeap = record {
  row = (refl, (refl, (refl, (refl, refl))));
  positive = omega arith;
  fits = omega arith;
  list = one-IsHeap.list;
  listed = one-IsHeap.listed;
}

kfree-Freed_example :
    Returns (kfree 4144 three) (IsFreed 4096 [] (free 16) 16 (used 4016 ∷ []) three 4160)
kfree-Freed_example =
    kfree-Freed 4096 [] (free 16) 16 (used 4016 ∷ []) three three-IsHeap (λ e. omega arith)

-- A used block before the last, free one.
abbrev first_used : Kheap
first_used = record {
  header = λ a.
      if a == 4080
      then header_at magic_used 4096 0 0
      else if a == 4096
      then header_at magic_free 0 4080 4080
      else header_at 0 0 0 0;
  free_node_list = one.free_node_list;
  top_heap_ptr = 8192;
  heap_list_end_ptr = 4096;
}

first_used-IsHeap : IsHeap 4080 first_used (used 0 ∷ free 4080 ∷ [])
first_used-IsHeap = record {
  row = (refl, (refl, (refl, refl)));
  positive = omega arith;
  fits = omega arith;
  list = one-IsHeap.list;
  listed = one-IsHeap.listed;
}

kfree-FirstFreed_example :
    Returns (kfree 4096 first_used) (IsFirstFreed 4080 0 (free 4080 ∷ []) first_used 4096)
kfree-FirstFreed_example =
    kfree-FirstFreed 4080 0 (free 4080 ∷ []) first_used first_used-IsHeap (λ e. omega arith)

kfree-IsHeap_example : Returns (kfree 4144 three) (λ h. IsHeap 4096 h (free 48 ∷ used 4016 ∷ []))
kfree-IsHeap_example =
    kfree-IsHeap 4096 (free 16 ∷ []) 16 (used 4016 ∷ []) three three-IsHeap (λ e. omega arith)
      (λ e. cc)

kfree-stale_end_example :
    Returns (kfree 4096 ends_free) (λ h.
      (last : ℕ) × Ordered 4064 h (used 0 ∷ free 4096 ∷ []) last × (last < h.heap_list_end_ptr))
kfree-stale_end_example =
    kfree-stale_end 4064 [] (used 0) 0 4080 ends_free ends_free-IsHeap (λ e. omega arith)

-- After that, a heap that grows has two free blocks that overlap. The second one also ends sixteen bytes
-- above the top of the heap.
grown_overlaps : Returns (kfree 4096 ends_free) (λ h. Returns (expand_heap 0x8000 4096 h) (λ h'.
    (h'.free_node_list.arr ≡ 4080 ∷ 4096 ∷ 0 ∷ 0 ∷ [])
    × ((h'.header 4080).size ≡ 4096)
    × ((h'.header 4096).size ≡ 8192)))
unfolding kfree expand_heap heap_merge_nodes try_merge_left try_merge_right insert_list remove_list
    remove_free heap_merge_right heap_merge_left
grown_overlaps = (refl, refl, refl)

-- What is allocated and freed again merges with the rest.
malloc_free : Returns (kmalloc 0x4000 99 one) (λ (ptr, h).
    (ptr ≡ 4112)
    × Returns
        (kfree ptr h)
        (λ h'. ((h'.header 4096).size ≡ 4080) × (h'.free_node_list ≡ one.free_node_list)))
unfolding kmalloc kfree find_from insert_list remove_list try_merge_right try_merge_left
    heap_merge_right
malloc_free = (refl, (refl, refl))
