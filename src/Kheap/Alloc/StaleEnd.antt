-- ===== src/Kheap/Alloc/StaleEnd.antt =====
-- The end of the heap after an exact fit before the last block.
use now_os.Base.{
  ℕ, ◌+◌, ◌≡◌, refl, ap, ◌∙◌, true, false, List, [], ◌∷◌, ◌++◌, arith, ◌==◌, Returns, u32, sub32,
}
use now_os.Kheap.{Header, Kheap}
use now_os.Kheap.Blocks.{Block, free, span, IsHeap}
use now_os.Kheap.Alloc.{heap_split_node, take_whole}
use now_os.Kheap.Alloc.Relink.{relinked}
use now_os.Kheap.Alloc.Place.{place_bounds, at_place, old_header, checked, removed_run}
use now_os.Kheap.Alloc.Whole.{linked-same}

-- A free block of exactly the size asked for, right before the last block, is taken for the last one:
-- `heap_list_end_ptr` names it, although it links to the block behind it.
pub heap_split_node-stale_end :
    (bottom : ℕ) (h : Kheap) (pre : List Block) (n : ℕ) (b : Block)
    → IsHeap bottom h (pre ++ free n ∷ b ∷ [])
    → Returns (heap_split_node (bottom + span pre) n h) (λ h'.
      (h'.heap_list_end_ptr ≡ bottom + span pre)
      × ((h'.header (bottom + span pre)).next_ptr ≡ bottom + span pre + (16 + n)))
unfolding heap_split_node take_whole
heap_split_node-stale_end bottom h pre n b v =
    let place : ℕ = bottom + span pre in
    let s = place_bounds bottom h pre n (b ∷ []) v in
    let sz : sub32 (u32 ((h.header place).size + 16)) (u32 (n + 16)) ≡ 0 =
      omega (arith, ap Header.size (old_header bottom h pre n (b ∷ []) v), s, v.fits) in
    let nw : u32 (place + u32 (n + 16)) ≡ place + (16 + n) = omega (arith, s, v.fits) in
    let last : (h.header (place + (16 + n))).next_ptr ≡ 0 =
      ap Header.next_ptr (at_place bottom h pre n (b ∷ []) v).here.1.0 in
    let link : (relinked h.header (at_place bottom h pre n (b ∷ []) v).before place place
          (place + (16 + n)) (place + (16 + n))).next_ptr
        ≡ 0 =
      ap Header.next_ptr (
        linked-same h.header (at_place bottom h pre n (b ∷ []) v).before place n h.heap_list_end_ptr
          h.top_heap_ptr (b ∷ []) (at_place bottom h pre n (b ∷ []) v).linked
          (at_place bottom h pre n (b ∷ []) v).here (place + (16 + n)))
      ∙ last in
    let t : (place == place) ≡ true = ground arith in
    let t' : (place + (16 + n) == 0) ≡ false = ground arith in
    rw
      (
        heap_split_node,
        checked bottom h pre n (b ∷ []) v,
        removed_run bottom h pre n (b ∷ []) v,
        sz,
        take_whole,
        nw,
        old_header bottom h pre n (b ∷ []) v,
        t,
        link,
        t',
      )
      (refl, refl)
