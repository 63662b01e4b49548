-- ===== src/Kheap/Alloc/Freed.antt =====
-- `heap_merge_nodes` and `kfree` on a block that stands behind another.
use now_os.Base.{
  ℕ, ◌+◌, ◌≡◌, ◌≢◌, inl, refl, sym, ap, ◌∙◌, true, false, List, [], ◌∷◌, ◌++◌, arith, ◌==◌, ok,
  Returns, Returns-then, Returns-weaken, sub32,
}
use now_os.Kheap.{
  Header, Kheap, check_header, insert_free, heap_merge_nodes, try_merge_left, try_merge_right,
}
use now_os.Kheap.Blocks.{
  good_header, Block, used, free, size_of, span, first_of, Row, Row-span, free_at, IsHeap, Row-At,
  At, free_at-append, span-append,
}
use now_os.Kheap.Alloc.{kfree}
use now_os.Kheap.Alloc.Relink.{end_of}
use now_os.Kheap.Alloc.Pending.{Pending, absorbed, rest_of, right_last}
use now_os.Kheap.Alloc.Merging.{try_merge_left-Joined, try_merge_right-Pending, try_merge_left-used}
use now_os.Kheap.Alloc.Free.{Ordered, insert_free-Ordered, freed_header, freed-Pending}

append_one :
    (pre : List Block) (b : Block) (bs : List Block) → (pre ++ b ∷ []) ++ bs ≡ pre ++ b ∷ bs
append_one [] b bs = refl
append_one (c ∷ pre) b bs = ap (λ l. c ∷ l) (append_one pre b bs)

-- A block and the free block of `n` bytes behind it, merged if both are free.
abbrev pub left_joined : Block → (n : ℕ) → List Block → List Block
left_joined (used j) n post = used j ∷ free n ∷ post
left_joined (free j) n post = free (j + 16 + n) ∷ post

abbrev pub left_last : Block → List Block → (left last : ℕ) → ℕ
left_last (used j) post left last = last
left_last (free j) post left last = end_of post left last

module _ (bottom : ℕ) (pre : List Block) where
  abbrev left : ℕ
  left = bottom + span pre

  -- The left step: the node that it hands on is the pending one.
  abbrev AfterLeft : Kheap → Block → (n : ℕ) → List Block → (last : ℕ) → ℕ × Kheap → Type 0
  AfterLeft h b n post last (node, h') =
      Pending bottom h' (pre ++ left_joined b n post) node (left_last b post left last)
      × (free_at bottom (pre ++ left_joined b n post) node ≡ true)
      × (h'.heap_list_end_ptr ≡ h.heap_list_end_ptr)

  left_step :
      (h : Kheap) (b : Block) (n : ℕ) (post : List Block) (last : ℕ)
      → Pending bottom h (pre ++ b ∷ free n ∷ post) (left + (16 + size_of b)) last
      → Returns
          (try_merge_left (left + (16 + size_of b)) left (left + (16 + size_of b)) h)
          (AfterLeft h b n post last)
  left_step h (used j) n post last v =
      let node : ℕ = left + (16 + j) in
      let f = free_at-append bottom pre (used j ∷ free n ∷ post) node in
      rw (try_merge_left-used bottom h pre j (free n ∷ post) node last node node v)
        (v, ground (arith, f), refl)
  left_step h (free j) n post last v =
      Returns-weaken (try_merge_left (left + (16 + j)) left (left + (16 + j)) h) _ _
        (try_merge_left-Joined bottom h pre j n post (left + (16 + j)) last v (left + (16 + j))
          refl)
        (λ (node, h') (e, w, same).
          let f = free_at-append bottom pre (free (j + 16 + n) ∷ post) left in
          rw e (w, ground (arith, f), same))

module _ (bottom : ℕ) (pre : List Block) (b : Block) (n : ℕ) (post : List Block) where
  abbrev place : ℕ
  place = bottom + span pre + (16 + size_of b)

  abbrev pub freed_blocks : List Block
  freed_blocks = pre ++ left_joined b (absorbed n post) (rest_of post)

  abbrev pub freed_last : ℕ → ℕ
  freed_last last = left_last b (rest_of post) (bottom + span pre) (right_last post place last)

  abbrev pub IsFreed : Kheap → (last : ℕ) → Kheap → Type 0
  IsFreed h last h' =
      Ordered bottom h' freed_blocks (freed_last last)
      × (h'.heap_list_end_ptr ≡ h.heap_list_end_ptr)

  merge_nodes-Freed :
      (h : Kheap) (last : ℕ)
      → Pending bottom h ((pre ++ b ∷ []) ++ free n ∷ post) place last
      → Returns (heap_merge_nodes place h) (IsFreed h last)
  unfolding heap_merge_nodes
  merge_nodes-Freed h last v =
      let z : bottom + span (pre ++ b ∷ []) ≡ place = omega (arith, span-append pre (b ∷ [])) in
      let row : Row h.header 0 bottom (pre ++ b ∷ free n ∷ post) last h.top_heap_ptr =
        rw (append_one pre b (free n ∷ post)) at v.row in
      let at : At h.header (bottom + span pre) last h.top_heap_ptr (b ∷ free n ∷ post) =
        Row-At h.header 0 bottom last h.top_heap_ptr pre (b ∷ free n ∷ post) row (inl refl)
          (bottom + span pre) refl in
      let good : check_header (h.header place) ≡ ok tt =
        ap check_header at.here.1.0
        ∙ good_header (free n) (first_of post (place + (16 + n))) (bottom + span pre) in
      let prev : (h.header place).prev_ptr ≡ bottom + span pre = ap Header.prev_ptr at.here.1.0 in
      rw (heap_merge_nodes, good, prev)
        (Returns-then (try_merge_right place h) _ _
          (rw z at (try_merge_right-Pending bottom h (pre ++ b ∷ []) n last post (rw (sym z) at v)))
          (λ (node, h1) (e, w, same).
            let N : ℕ = absorbed n post in
            let rest : List Block = rest_of post in
            let last1 : ℕ = right_last post place last in
            let w' : Pending bottom h1 (pre ++ b ∷ free N ∷ rest) place last1 =
              rw (append_one pre b (free N ∷ rest), z) at w in
            rw (e, z)
              (Returns-then (try_merge_left place (bottom + span pre) place h1) _ _
                (left_step bottom pre h1 b N rest last1 w')
                (λ (node', h2) (w2, f, same2).
                  Returns-weaken (insert_free node' h2) _ _
                    (insert_free-Ordered bottom h2 freed_blocks node' (freed_last last) w2 f)
                    (λ h' (o, same3). (o, same3 ∙ same2 ∙ same))))))

  -- `kfree` of a used block that stands behind another one in a heap in order, whose free list has room,
  -- ends with the row in which the block is free and has merged with each free neighbour, and with a free
  -- list of exactly the free blocks. It never moves `heap_list_end_ptr`.
  pub kfree-Freed :
      (h : Kheap)
      → IsHeap bottom h (pre ++ b ∷ used n ∷ post)
      → h.free_node_list.curr_size ≢ h.free_node_list.arr_size
      → Returns (kfree (place + 16) h) (IsFreed h h.heap_list_end_ptr)
  unfolding kfree
  kfree-Freed h v room =
      let z : bottom + span (pre ++ b ∷ []) ≡ place = omega (arith, span-append pre (b ∷ [])) in
      let front : IsHeap bottom h ((pre ++ b ∷ []) ++ used n ∷ post) =
        rw (sym (append_one pre b (used n ∷ post))) at v in
      let t : (place + 16 == 0) ≡ false = ground arith in
      let node : sub32 (place + 16) 16 ≡ place = omega (
        arith,
        v.fits,
        span-append pre (b ∷ used n ∷ post),
        Row-span h.header 0 bottom h.heap_list_end_ptr h.top_heap_ptr (pre ++ b ∷ used n ∷ post)
            v.row,
      ) in
      let at : At h.header (bottom + span pre) h.heap_list_end_ptr h.top_heap_ptr
          (b ∷ used n ∷ post) =
        Row-At h.header 0 bottom h.heap_list_end_ptr h.top_heap_ptr pre (b ∷ used n ∷ post) v.row
          (inl refl) (bottom + span pre) refl in
      let good : check_header (h.header place) ≡ ok tt =
        ap check_header at.here.1.0
        ∙ good_header (used n) (first_of post (place + (16 + n))) (bottom + span pre) in
      let pending : Pending bottom (freed_header (bottom + span (pre ++ b ∷ [])) h)
          ((pre ++ b ∷ []) ++ free n ∷ post) (bottom + span (pre ++ b ∷ [])) h.heap_list_end_ptr =
        freed-Pending bottom h (pre ++ b ∷ []) n post front room in
      rw (kfree, t, node, good)
        (merge_nodes-Freed (freed_header place h) h.heap_list_end_ptr (rw z at pending))
