-- ===== src/Kheap.antt =====
-- kernel/kheap.c, the block allocator: the heap is a row of blocks, each behind a header of sixteen
-- bytes, and the free blocks stand in a sorted list too. Headers do not overlap in a heap that is in
-- order, so memory is a function from address to the header there. The functions that print, and the
-- lock of `kmalloc` and `kfree`, are not here.
pub mod Blocks
pub mod Find
pub mod Alloc
use now_os.Base.{
  ℕ, zero, suc, ◌+◌, ◌-◌, ◌*◌, ◌/◌, ◌^◌, Bool, true, false, not, ◌&&◌, ◌||◌, Run, ok, panic,
  out_of_fuel, ◌>>=◌, ◌>>◌, assert, u32, sub32, in_fuel, ltb, leb, ◌==◌, if◌then◌else◌, get_or, ℤ,
  List, page_size, align_up, is_aligned, kern_virtual_addr,
}
use now_os.SortedArrayList.{SortedArrayList, init_sorted_list, insert_list, remove_list}

pub record Header : Type 0 where
  pub magic : ℕ
  pub next_ptr : ℕ
  pub prev_ptr : ℕ
  pub size : ℕ

pub record Kheap : Type 0 where
  pub header : ℕ → Header
  pub free_node_list : SortedArrayList
  pub top_heap_ptr : ℕ
  pub heap_list_end_ptr : ℕ

-- "FREE" and "USED"
abbrev pub magic_free : ℕ
magic_free = 0x45455246

abbrev pub magic_used : ℕ
magic_used = 0x44455355

abbrev pub header_size : ℕ
header_size = 16

abbrev pub heap_split_threshold : ℕ
heap_split_threshold = 16

abbrev pub heap_expand_size : ℕ
heap_expand_size = 4096

abbrev pub magic_of : (used : Bool) → ℕ
magic_of true = magic_used
magic_of false = magic_free

-- Writes to a header at an address.
abbrev pub write : ℕ → Header → (ℕ → Header) → ℕ → Header
write a new header b = if b == a then new else header b

abbrev pub set_next : (a q : ℕ) → (ℕ → Header) → ℕ → Header
set_next a q header = write a (record (header a) { next_ptr = q }) header

abbrev pub set_prev : (a q : ℕ) → (ℕ → Header) → ℕ → Header
set_prev a q header = write a (record (header a) { prev_ptr = q }) header

-- The writes under `if (ptr != NULL)`.
abbrev pub link_next : (a q : ℕ) → (ℕ → Header) → ℕ → Header
link_next a q header = if a == 0 then header else set_next a q header

abbrev pub link_prev : (a q : ℕ) → (ℕ → Header) → ℕ → Header
link_prev a q header = if a == 0 then header else set_prev a q header

pub check_header : Header → Run (Unit {0})
check_header node = assert (node.magic == magic_used || node.magic == magic_free)

abbrev pub heap_set_header :
    (addr : ℕ) (used : Bool) (next_ptr prev_ptr size : ℕ) → (ℕ → Header) → ℕ → Header
heap_set_header addr used next_ptr prev_ptr size header =
    write addr
      (record { magic = magic_of used; next_ptr = next_ptr; prev_ptr = prev_ptr; size = size })
      header

-- The test of the loop of `heap_find_free_node`.
abbrev pub better : (alloc_size best_node size best_size : ℕ) → Bool
better alloc_size best_node size best_size =
    (best_node == 0 && leb alloc_size size)
    || (not (best_node == 0) && leb alloc_size size && ltb size best_size)

-- `for (i = ...; i < list_len; i++)`, in `list_len - i` rounds.
pub find_from : (rounds i best_node alloc_size : ℕ) → Kheap → Run ℕ
unfolding check_header
find_from zero i best_node alloc_size h = ok best_node
find_from (suc n) i best_node alloc_size h =
    let node = get_or h.free_node_list.arr i 0 in
    let best =
      if better alloc_size best_node (h.header node).size (h.header best_node).size
      then node
      else best_node in
    check_header (h.header node) >> find_from n (i + 1) best alloc_size h

pub heap_find_free_node : (alloc_size : ℕ) → Kheap → Run ℕ
heap_find_free_node alloc_size h = find_from (h.free_node_list.curr_size - 1) 0 0 alloc_size h

-- `remove_list` and `insert_list` on the free list; the source does not read what they return.
pub remove_free : (node : ℕ) → Kheap → Run Kheap
remove_free node h = do
  (r, list) ← in_fuel (remove_list node h.free_node_list)
  ok (record h { free_node_list = list })

pub insert_free : (node : ℕ) → Kheap → Run Kheap
insert_free node h = do
  (r, list) ← in_fuel (insert_list node h.free_node_list)
  ok (record h { free_node_list = list })

-- The common end of `heap_merge_left` and `heap_merge_right`: the header at `new_node` becomes that
-- of both blocks.
abbrev pub merged : (new_node new_next_ptr new_prev_ptr size : ℕ) → Kheap → Kheap
merged new_node new_next_ptr new_prev_ptr size h = record h {
  header =
      heap_set_header new_node false new_next_ptr new_prev_ptr size
        (link_next new_prev_ptr new_node (link_prev new_next_ptr new_node h.header));
}

pub heap_merge_left : (node : ℕ) → Kheap → ℕ × Kheap
heap_merge_left node h =
    let node_left = (h.header node).prev_ptr in
    let size = u32 ((h.header node).size + (h.header node_left).size + header_size) in
    (node_left, merged node_left (h.header node).next_ptr (h.header node_left).prev_ptr size h)

pub heap_merge_right : (node : ℕ) → Kheap → ℕ × Kheap
heap_merge_right node h =
    let node_right = (h.header node).next_ptr in
    let size = u32 ((h.header node).size + (h.header node_right).size + header_size) in
    (node, merged node (h.header node_right).next_ptr (h.header node).prev_ptr size h)

-- The two `if` statements of `heap_merge_nodes`; `merge_node` is what the first hands on.
pub try_merge_right : (node : ℕ) → Kheap → Run (ℕ × Kheap)
try_merge_right node h =
    let node_right = (h.header node).next_ptr in
    if not (node_right == 0) && (h.header node_right).magic == magic_free
    then (do h1 ← remove_free node h; h2 ← remove_free node_right h1; ok (heap_merge_right node h2))
    else ok (node, h)

pub try_merge_left : (node node_left merge_node : ℕ) → Kheap → Run (ℕ × Kheap)
try_merge_left node node_left merge_node h =
    if not (node_left == 0) && (h.header node_left).magic == magic_free
    then (do h1 ← remove_free node h; h2 ← remove_free node_left h1; ok (heap_merge_left node h2))
    else ok (merge_node, h)

pub heap_merge_nodes : (node : ℕ) → Kheap → Run Kheap
heap_merge_nodes node h = do
  check_header (h.header node)
  let node_left = (h.header node).prev_ptr
  (merge_node, h1) ← try_merge_right node h
  (merge_node', h2) ← try_merge_left node node_left merge_node h1
  insert_free merge_node' h2
