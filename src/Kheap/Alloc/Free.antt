-- ===== src/Kheap/Alloc/Free.antt =====
-- `kfree` of a used block of a heap in order.
use now_os.Base.{
  ℕ, ◌+◌, ◌^◌, ◌<◌, ◌≡◌, ◌≢◌, ◌↔◌, inl, inr, refl, ap, ◌∙◌, true, false, Bool-cases, List, ◌∷◌,
  ◌++◌, arith, ◌==◌, ==_iff, Returns,
}
use now_os.SortedArrayList.Inv.{IsValid, Holds}
use now_os.SortedArrayList.Room.{With, insert_list-With}
use now_os.Kheap.{Kheap, heap_set_header, insert_free}
use now_os.Kheap.Blocks.{
  Block, used, free, span, Row, free_at, IsHeap, Row-frame, Row-replace, Row-At, At, free_at-append,
  free_at_bounds,
}
use now_os.Kheap.Alloc.Pending.{Pending}

-- A heap in order, whatever `heap_list_end_ptr` is: its last block is at `last`.
pub record Ordered (bottom : ℕ) (h : Kheap) (bs : List Block) (last : ℕ) : Type 0 where
  pub row : Row h.header 0 bottom bs last h.top_heap_ptr
  pub positive : 0 < bottom
  pub fits : h.top_heap_ptr < 2 ^ 32
  pub list : IsValid h.free_node_list
  pub listed : (x : ℕ) → Holds h.free_node_list x ↔ (free_at bottom bs x ≡ true)

-- The pending block goes into the list.
pub insert_free-Ordered :
    (bottom : ℕ) (h : Kheap) (bs : List Block) (x last : ℕ)
    → Pending bottom h bs x last
    → free_at bottom bs x ≡ true
    → Returns
        (insert_free x h)
        (λ h'. Ordered bottom h' bs last × (h'.heap_list_end_ptr ≡ h.heap_list_end_ptr))
unfolding insert_free
insert_free-Ordered bottom h bs x last v f =
    let p : 0 < x = omega (arith, v.positive, (free_at_bounds bottom bs x f).0) in
    let w : With h.free_node_list x =
      insert_list-With h.free_node_list x v.list p (λ k. ((v.listed x).0 k).0 refl) v.room in
    rw (insert_free, w.run)
      (
        record {
          row = v.row;
          positive = v.positive;
          fits = v.fits;
          list = w.valid;
          listed = λ y. (
            (λ k. elim ((w.holds y).0 k) [
              | inl e ↦ ap (free_at bottom bs) e ∙ f
              | inr old ↦ ((v.listed y).0 old).1
            ]),
            (λ g. elim (Bool-cases (y == x)) [
              | inl e ↦ (w.holds y).1 (inl ((==_iff y x).0 e))
              | inr e ↦ (w.holds y).1 (inr ((v.listed y).1 ((λ q. ground arith), g)))
            ]),
          );
        },
        refl,
      )

-- The heap after the header of the used block at `node` is written.
abbrev pub freed_header : (node : ℕ) → Kheap → Kheap
freed_header node h = record h {
  header =
      heap_set_header node false (h.header node).next_ptr (h.header node).prev_ptr
        (h.header node).size h.header;
}

module _ (bottom : ℕ) (h : Kheap) (pre : List Block) (n : ℕ) (post : List Block)
    (v : IsHeap bottom h (pre ++ used n ∷ post))
    (room : h.free_node_list.curr_size ≢ h.free_node_list.arr_size) where
  abbrev place : ℕ
  place = bottom + span pre

  abbrev at : At h.header place h.heap_list_end_ptr h.top_heap_ptr (used n ∷ post)
  at =
      Row-At h.header 0 bottom h.heap_list_end_ptr h.top_heap_ptr pre (used n ∷ post) v.row
        (inl refl) place refl

  freed_listed :
      (y : ℕ)
      → (free_at bottom (pre ++ used n ∷ post) y ≡ true)
        ↔ ((y ≢ place) × (free_at bottom (pre ++ free n ∷ post) y ≡ true))
  freed_listed y =
      let before = free_at-append bottom pre (used n ∷ post) y in
      let after = free_at-append bottom pre (free n ∷ post) y in
      ground (
        arith,
        before,
        after,
        free_at_bounds bottom pre y,
        free_at_bounds (place + (16 + n)) post y,
      )

  pub freed-Pending :
      Pending bottom (freed_header place h) (pre ++ free n ∷ post) place h.heap_list_end_ptr
  freed-Pending = record {
    row =
        Row-replace h.header (freed_header place h).header 0 bottom h.heap_list_end_ptr
          h.heap_list_end_ptr h.top_heap_ptr pre (used n) post (free n) post v.row place refl
          (λ q lt. ground arith)
          (λ p r. (
            (let t : (place == place) ≡ true = ground arith in rw (t, r.0) refl),
            Row-frame h.header (freed_header place h).header place (place + (16 + n))
                h.heap_list_end_ptr h.top_heap_ptr post r.1 (λ q le. ground arith),
          ));
    positive = v.positive;
    fits = v.fits;
    list = v.list;
    room = room;
    listed = λ y. (
      (λ k. (freed_listed y).0 ((v.listed y).0 k)),
      (λ s. (v.listed y).1 ((freed_listed y).1 s)),
    );
  }
