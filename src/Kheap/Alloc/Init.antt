-- ===== src/Kheap/Alloc/Init.antt =====
-- `init_kheap` and `check_kheap_integrity`.
use now_os.Base.{
  ℕ, zero, suc, ◌+◌, ◌/◌, ◌^◌, ◌≤◌, ◌<◌, ◌≡◌, inl, inr, refl, sym, ap, ◌∙◌, true, false, List, [],
  ◌∷◌, arith, ◌==◌, ==_iff, replicate, length, ok, Returns, u32, sub32, align_up,
}
use now_os.SortedArrayList.{SortedArrayList, init_sorted_list}
use now_os.SortedArrayList.Inv.{IsValid, Holds, init-IsValid, init-room}
use now_os.SortedArrayList.Room.{With, insert_list-With}
use now_os.Kheap.{Header, Kheap, check_header, insert_free}
use now_os.Kheap.Blocks.{
  good_header, Block, free, size_of, span, first_of, Row, Row-span, free_at, IsHeap,
}
use now_os.Kheap.Alloc.{count_from, check_kheap_integrity, init_kheap}

-- `init_kheap`, with cleared memory of two words or more (and less than 2 ^ 31) for the free list, and
-- a first page that neither begins at 0 nor reaches 2 ^ 32, makes a heap in order of one free block,
-- which fills that page behind its header.
pub init_kheap-IsHeap :
    (heap_bottom early_heap_ptr early_heap_top n : ℕ)
    → 0 < align_up heap_bottom 4
    → align_up heap_bottom 4 + 4096 < 2 ^ 32
    → sub32 early_heap_top early_heap_ptr / 4 ≡ n
    → 2 ≤ n
    → n < 2 ^ 31
    → Returns
        (init_kheap heap_bottom early_heap_ptr early_heap_top (replicate n 0))
        (λ h. IsHeap (align_up heap_bottom 4) h (free 4080 ∷ []))
unfolding init_kheap insert_free
init_kheap-IsHeap heap_bottom early_heap_ptr early_heap_top n p fits e two small =
    let list : SortedArrayList = init_sorted_list (replicate n 0) n in
    let empty : IsValid list × ((x : ℕ) → ¬ Holds list x) = init-IsValid n (omega arith) small in
    let w : With list (align_up heap_bottom 4) =
      insert_list-With list (align_up heap_bottom 4) empty.0 p (empty.1 (align_up heap_bottom 4))
        (init-room n two) in
    let free_at_start : (x : ℕ)
        → free_at (align_up heap_bottom 4) (free 4080 ∷ []) x ≡ (x == align_up heap_bottom 4) =
      λ x. ground arith in
    let top : u32 (align_up heap_bottom 4 + 4096) ≡ align_up heap_bottom 4 + 4096 = omega arith in
    let left : sub32 (align_up heap_bottom 4 + 4096) (u32 (align_up heap_bottom 4 + 16)) ≡ 4080 =
      omega arith in
    let t : (align_up heap_bottom 4 == align_up heap_bottom 4) ≡ true = ground arith in
    rw (e, top, left, w.run)
      (record {
        row = rw t (refl, (omega arith, refl));
        positive = p;
        fits = fits;
        list = w.valid;
        listed = λ x. (
          (λ k. elim ((w.holds x).0 k) [
            | inl q ↦ free_at_start x ∙ (==_iff x (align_up heap_bottom 4)).1 q
            | inr q ↦ absurd (empty.1 x q)
          ]),
          (λ q.
              (w.holds x).1
                (inl ((==_iff x (align_up heap_bottom 4)).0 (sym (free_at_start x) ∙ q)))),
        );
      })

-- The loop of the integrity check, from a block of a row on.
count_from-Row :
    (header : ℕ → Header) (prev start last stop : ℕ) (bs : List Block) (fuel heap_count : ℕ)
    → Row header prev start bs last stop
    → 0 < start
    → length bs < fuel
    → heap_count + span bs < 2 ^ 32
    → count_from fuel (first_of bs start) heap_count header ≡ ok (heap_count + span bs)
unfolding count_from
count_from-Row header prev start last stop bs zero c r p enough fits = absurd (omega arith)
count_from-Row header prev start last stop [] (suc f) c r p enough fits = ap ok (omega arith)
count_from-Row header prev start last stop (b ∷ bs) (suc f) c r p enough fits =
    let z : (start == 0) ≡ false = ground arith in
    let c' : u32 (c + u32 (size_of b + 16)) ≡ c + (16 + size_of b) = omega arith in
    let rest =
      count_from-Row header start (start + (16 + size_of b)) last stop bs f (c + (16 + size_of b))
        r.1 (omega arith) (omega arith) (omega arith) in
    rw (z, r.0, c', rest) (ap ok (omega arith))

-- On a heap in order with at least one block, and with more rounds than blocks, the check ends without
-- a bad header and finds that the blocks take all the memory between the ends of the heap.
pub check_kheap_integrity-true :
    (bottom : ℕ) (h : Kheap) (b : Block) (bs : List Block) (fuel : ℕ)
    → IsHeap bottom h (b ∷ bs)
    → length (b ∷ bs) < fuel
    → check_kheap_integrity fuel bottom h ≡ ok true
unfolding check_kheap_integrity
check_kheap_integrity-true bottom h b bs fuel v enough =
    let whole : h.top_heap_ptr ≡ bottom + span (b ∷ bs) =
      Row-span h.header 0 bottom h.heap_list_end_ptr h.top_heap_ptr (b ∷ bs) v.row in
    let size : sub32 h.top_heap_ptr bottom ≡ span (b ∷ bs) = omega (arith, v.fits) in
    let good : check_header (h.header bottom) ≡ ok tt =
      ap check_header v.row.0 ∙ good_header b (first_of bs (bottom + (16 + size_of b))) 0 in
    let counted : count_from fuel bottom 0 h.header ≡ ok (span (b ∷ bs)) =
      count_from-Row h.header 0 bottom h.heap_list_end_ptr h.top_heap_ptr (b ∷ bs) fuel 0 v.row
        v.positive enough (omega (arith, v.fits))
      ∙ ap ok (omega arith) in
    rw (check_kheap_integrity, good, counted, size) (ap ok (ground arith))
