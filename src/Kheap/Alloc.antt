-- ===== src/Kheap/Alloc.antt =====
-- kernel/kheap.c: splitting a free block, growing the heap, `kmalloc` and `kfree`, the integrity check
-- and the first state of the heap.
pub mod Relink
pub mod Place
pub mod Split
pub mod Whole
pub mod StaleEnd
pub mod Malloc
pub mod Init
pub mod Merge
pub mod Pending
pub mod Merging
pub mod Free
pub mod Freed
pub mod Ends
pub mod First
mod Tests
use now_os.Base.{
  ℕ, zero, suc, ◌+◌, ◌-◌, ◌*◌, ◌/◌, ◌^◌, Bool, true, false, not, ◌&&◌, ◌||◌, Run, ok, panic,
  out_of_fuel, ◌>>=◌, ◌>>◌, assert, u32, sub32, in_fuel, ltb, leb, ◌==◌, if◌then◌else◌, ℤ, List,
  align_up,
}
use now_os.SortedArrayList.{init_sorted_list}
use now_os.Kheap.{
  Header, Kheap, header_size, heap_split_threshold, heap_expand_size, set_next, link_next,
  link_prev, heap_set_header, check_header, heap_find_free_node, remove_free, insert_free,
  heap_merge_nodes,
}

-- The two ends of `heap_split_node`, for what it has read: `free_node` becomes a used node of the
-- whole rest, or a used node with a free node behind it.
pub take_whole : (free_node new_alloc_size total_size_left : ℕ) → Header → Kheap → Kheap
take_whole free_node new_alloc_size total_size_left old h =
    let new_free_node = u32 (free_node + u32 (new_alloc_size + header_size)) in
    let linked = link_next old.prev_ptr free_node (link_prev old.next_ptr free_node h.header) in
    let new_end = if (linked new_free_node).next_ptr == 0 then free_node else h.heap_list_end_ptr in
    let header =
      heap_set_header free_node true old.next_ptr old.prev_ptr
        (u32 (new_alloc_size + total_size_left)) linked in
    record h {
      header = header;
      heap_list_end_ptr = if (header free_node).next_ptr == 0 then free_node else new_end;
    }

pub split_off : (free_node new_alloc_size total_size_left : ℕ) → Header → Kheap → Run Kheap
unfolding insert_free
split_off free_node new_alloc_size total_size_left old h =
    let new_free_node = u32 (free_node + u32 (new_alloc_size + header_size)) in
    let linked = link_next old.prev_ptr free_node (link_prev old.next_ptr new_free_node h.header) in
    let with_free =
      heap_set_header new_free_node false old.next_ptr free_node (sub32 total_size_left header_size)
        linked in
    let header =
      heap_set_header free_node true new_free_node old.prev_ptr new_alloc_size with_free in
    do
      h' ← insert_free new_free_node (record h { header = header })
      ok (record h' {
        heap_list_end_ptr =
            if (h'.header new_free_node).next_ptr == 0 then new_free_node else h'.heap_list_end_ptr;
      })

-- The test `new_free_alloc_size < 0` of the source is never true of a `uint32_t`.
pub heap_split_node : (free_node new_alloc_size : ℕ) → Kheap → Run Kheap
unfolding check_header remove_free take_whole split_off
heap_split_node free_node new_alloc_size h = do
  check_header (h.header free_node)
  h' ← remove_free free_node h
  let old = h'.header free_node
  let left = sub32 (u32 (old.size + header_size)) (u32 (new_alloc_size + header_size))
  if leb left heap_split_threshold
      then ok (take_whole free_node new_alloc_size left old h')
      else split_off free_node new_alloc_size left old h'

-- `heap_top` is the linker's.
pub expand_heap : (heap_top size : ℕ) → Kheap → Run Kheap
unfolding check_header insert_free heap_merge_nodes
expand_heap heap_top size h = do
  let top = u32 (h.top_heap_ptr + size)
  assert (ltb top heap_top)
  let last_node = h.heap_list_end_ptr
  check_header (h.header last_node)
  let new_free_node = u32 (last_node + header_size + (h.header last_node).size)
  let header =
      set_next last_node new_free_node
        (heap_set_header new_free_node false 0 last_node (sub32 top new_free_node) h.header)
  h1 ← insert_free new_free_node (record h { header = header; top_heap_ptr = top })
  h2 ← heap_merge_nodes new_free_node h1
  ok (record h2 { heap_list_end_ptr = new_free_node })

-- `while (expand_count <= size) expand_count += HEAP_EXPAND_SIZE;` on fuel. A size in the last 4096
-- bytes of the address space makes the count wrap, and the loop does not end.
pub expand_from : (fuel expand_count size : ℕ) → Run ℕ
expand_from zero expand_count size = out_of_fuel
expand_from (suc f) expand_count size =
    let rest = expand_from f (u32 (expand_count + heap_expand_size)) size in
    if leb expand_count size then rest else ok expand_count

-- The node for an aligned size, after the heap has grown if it must.
pub find_or_expand : (heap_top size : ℕ) → Kheap → Run (ℕ × Kheap)
unfolding heap_find_free_node expand_heap expand_from
find_or_expand heap_top size h = do
  node ← heap_find_free_node size h
  if node == 0
      then (do
        expand_count ← expand_from (size / heap_expand_size + 2) 0 size
        h' ← expand_heap heap_top expand_count h
        node' ← heap_find_free_node size h'
        assert (not (node' == 0))
        ok (node', h'))
      else ok (node, h)

pub kmalloc : (heap_top size : ℕ) → Kheap → Run (ℕ × Kheap)
unfolding find_or_expand heap_split_node
kmalloc heap_top size h = do
  let size' = align_up size 4
  (node, h1) ← find_or_expand heap_top size' h
  h2 ← heap_split_node node size' h1
  ok (u32 (node + header_size), h2)

pub kfree : (ptr : ℕ) → Kheap → Run Kheap
kfree ptr h = if ptr == 0 then ok h else (do
  let node = sub32 ptr header_size
  let old = h.header node
  check_header old
  heap_merge_nodes node (record h {
    header = heap_set_header node false old.next_ptr old.prev_ptr old.size h.header;
  }))

-- The loop of `check_kheap_integrity` on fuel.
pub count_from : (fuel node heap_count : ℕ) → (ℕ → Header) → Run ℕ
count_from zero node heap_count header = out_of_fuel
count_from (suc f) node heap_count header =
    let rest =
      count_from f (header node).next_ptr
        (u32 (heap_count + u32 ((header node).size + header_size))) header in
    if node == 0 then ok heap_count else rest

-- Whether the message about a compromised heap is not printed.
pub check_kheap_integrity : (fuel heap_bottom : ℕ) → Kheap → Run Bool
unfolding check_header count_from
check_kheap_integrity fuel heap_bottom h = do
  check_header (h.header heap_bottom)
  heap_count ← count_from fuel heap_bottom 0 h.header
  ok (heap_count == sub32 h.top_heap_ptr heap_bottom)

-- `early_memory` is the memory from `early_heap_ptr` on, which becomes the free list's array. The
-- `memset` clears every header.
pub init_kheap : (heap_bottom early_heap_ptr early_heap_top : ℕ) (early_memory : List ℕ) → Run Kheap
unfolding insert_free
init_kheap heap_bottom early_heap_ptr early_heap_top early_memory =
    let heap_ptr = align_up heap_bottom 4 in
    let top = u32 (heap_ptr + heap_expand_size) in
    let cleared : ℕ → Header = λ a. record { magic = 0; next_ptr = 0; prev_ptr = 0; size = 0 } in
    insert_free heap_ptr (record {
      header =
          heap_set_header heap_ptr false 0 0 (sub32 top (u32 (heap_ptr + header_size))) cleared;
      free_node_list = init_sorted_list early_memory (sub32 early_heap_top early_heap_ptr / 4);
      top_heap_ptr = top;
      heap_list_end_ptr = heap_ptr;
    })
