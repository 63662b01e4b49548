-- ===== src/Kheap/Alloc/First.antt =====
-- `kfree` of the first block of the heap.
use now_os.Base.{
  ℕ, ◌+◌, ◌≡◌, ◌≢◌, refl, sym, ap, ◌∙◌, true, false, List, [], ◌∷◌, arith, ◌==◌, ok, Returns,
  Returns-then, Returns-weaken, sub32,
}
use mathlib.Core.Path.{subst}
use now_os.Kheap.{
  Header, Kheap, check_header, insert_free, heap_merge_nodes, try_merge_left, try_merge_right,
}
use now_os.Kheap.Blocks.{good_header, Block, used, free, first_of, Row-span, free_at, IsHeap}
use now_os.Kheap.Alloc.{kfree}
use now_os.Kheap.Alloc.Pending.{Pending, absorbed, rest_of, right_last}
use now_os.Kheap.Alloc.Merging.{try_merge_right-Pending}
use now_os.Kheap.Alloc.Free.{Ordered, insert_free-Ordered, freed_header, freed-Pending}

module _ (bottom : ℕ) (n : ℕ) (post : List Block) where
  abbrev pub first_blocks : List Block
  first_blocks = free (absorbed n post) ∷ rest_of post

  abbrev pub IsFirstFreed : Kheap → (last : ℕ) → Kheap → Type 0
  IsFirstFreed h last h' =
      Ordered bottom h' first_blocks (right_last post bottom last)
      × (h'.heap_list_end_ptr ≡ h.heap_list_end_ptr)

  first_free : free_at bottom first_blocks bottom ≡ true
  first_free = ground arith

  none_left :
      (node merge_node : ℕ) (h : Kheap) → try_merge_left node 0 merge_node h ≡ ok (merge_node, h)
  unfolding try_merge_left
  none_left node merge_node h = refl

  merge_nodes-FirstFreed :
      (h : Kheap) (last : ℕ)
      → Pending bottom h (free n ∷ post) bottom last
      → Returns (heap_merge_nodes bottom h) (IsFirstFreed h last)
  unfolding heap_merge_nodes
  merge_nodes-FirstFreed h last v =
      let z : bottom + 0 ≡ bottom = omega arith in
      let good : check_header (h.header bottom) ≡ ok tt =
        ap check_header v.row.0 ∙ good_header (free n) (first_of post (bottom + (16 + n))) 0 in
      let prev : (h.header bottom).prev_ptr ≡ 0 = ap Header.prev_ptr v.row.0 in
      rw (heap_merge_nodes, good, prev)
        (Returns-then (try_merge_right bottom h) _ _
          (rw z at (
            try_merge_right-Pending bottom h [] n last post
              (subst (λ x. Pending bottom h (free n ∷ post) x last) (sym z) v)))
          (λ (node, h1) (e, w, same).
            let w' : Pending bottom h1 first_blocks bottom (right_last post bottom last) =
              subst (λ x. Pending bottom h1 first_blocks x (right_last post x last)) z w in
            let e' : node ≡ bottom = e ∙ z in
            rw (none_left bottom node h1) (
              Returns-weaken (insert_free node h1) _ _
                (insert_free-Ordered bottom h1 first_blocks node (right_last post bottom last)
                  (subst (λ x. Pending bottom h1 first_blocks x (right_last post bottom last))
                    (sym e') w')
                  (rw e' first_free))
                (λ h' (o, same'). (o, same' ∙ same)))))

  -- `kfree` of the first block of a heap in order, where it is used and the free list has room, ends with
  -- the row in which it is free and has merged with a free block behind it, and with a free list of
  -- exactly the free blocks. It does not move `heap_list_end_ptr`.
  pub kfree-FirstFreed :
      (h : Kheap)
      → IsHeap bottom h (used n ∷ post)
      → h.free_node_list.curr_size ≢ h.free_node_list.arr_size
      → Returns (kfree (bottom + 16) h) (IsFirstFreed h h.heap_list_end_ptr)
  unfolding kfree
  kfree-FirstFreed h v room =
      let z : bottom + 0 ≡ bottom = omega arith in
      let t : (bottom + 16 == 0) ≡ false = ground arith in
      let node : sub32 (bottom + 16) 16 ≡ bottom = omega (
        arith,
        v.fits,
        Row-span h.header 0 bottom h.heap_list_end_ptr h.top_heap_ptr (used n ∷ post) v.row,
      ) in
      let good : check_header (h.header bottom) ≡ ok tt =
        ap check_header v.row.0 ∙ good_header (used n) (first_of post (bottom + (16 + n))) 0 in
      rw (kfree, t, node, good)
        (merge_nodes-FirstFreed (freed_header bottom h) h.heap_list_end_ptr
          (rw z at (freed-Pending bottom h [] n post v room)))
