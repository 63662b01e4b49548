-- ===== src/Kheap/Alloc/Split.antt =====
-- `heap_split_node` on a free block with room for another.
use mathlib.Core.Path.{subst}
use now_os.Base.{
  ℕ, ◌+◌, ◌-◌, ◌<◌, ◌≡◌, ◌≢◌, ◌↔◌, inl, inr, refl, sym, ap, ◌∙◌, true, false, ◌||◌, Bool-cases,
  List, [], ◌∷◌, ◌++◌, arith, leb, ◌==◌, ==_iff, if◌then◌else◌, Returns, u32, sub32,
}
use now_os.SortedArrayList.Inv.{Holds}
use now_os.SortedArrayList.Room.{With, insert_list-With}
use now_os.Kheap.{Header, Kheap, insert_free}
use now_os.Kheap.Blocks.{
  Block, used, free, span, first_of, Row, free_at, IsHeap, Row-replace, free_at-append,
  free_at_bounds,
}
use now_os.Kheap.Alloc.{heap_split_node, split_off}
use now_os.Kheap.Alloc.Relink.{end_of, split_headers, split_headers-below, split_headers-Row}
use now_os.Kheap.Alloc.Place.{
  place_bounds, without_place, at_place, free_parts, old_header, checked, removed_run,
}

module _ (bottom : ℕ) (h : Kheap) (pre : List Block) (n : ℕ) (post : List Block)
    (v : IsHeap bottom h (pre ++ free n ∷ post)) (m : ℕ) (enough : m + 16 < n) where
  abbrev place : ℕ
  place = bottom + span pre

  abbrev new : ℕ
  new = place + (16 + m)

  abbrev pub split_blocks : List Block
  split_blocks = pre ++ used m ∷ free (n - m - 16) ∷ post

  Row-after :
      Row
        (split_headers h.header (at_place bottom h pre n post v).before place n m post)
        0
        bottom
        split_blocks
        (end_of post new h.heap_list_end_ptr)
        h.top_heap_ptr
  Row-after =
      Row-replace h.header
        (split_headers h.header (at_place bottom h pre n post v).before place n m post) 0 bottom
        h.heap_list_end_ptr (end_of post new h.heap_list_end_ptr) h.top_heap_ptr pre (free n) post
        (used m) (free (n - m - 16) ∷ post) v.row place refl
        (split_headers-below h.header (at_place bottom h pre n post v).before place n m
          h.heap_list_end_ptr h.top_heap_ptr post (at_place bottom h pre n post v).linked)
        (λ p r.
          let e : (at_place bottom h pre n post v).before ≡ p =
            ap Header.prev_ptr (sym (old_header bottom h pre n post v) ∙ r.0) in
          rw (← e) (
            split_headers-Row h.header (at_place bottom h pre n post v).before place n m
              h.heap_list_end_ptr h.top_heap_ptr post (at_place bottom h pre n post v).linked
              (omega arith) (at_place bottom h pre n post v).here))

  parts_after :
      (x : ℕ)
      → free_at bottom split_blocks x
        ≡ (free_at bottom pre x || (x == new || free_at (place + (16 + n)) post x))
  parts_after x =
      let z : new + (16 + (n - m - 16)) ≡ place + (16 + n) = omega arith in
      rw (sym z) (free_at-append bottom pre (used m ∷ free (n - m - 16) ∷ post) x)

  new_out : ¬ Holds (without_place bottom h pre n post v).rest new
  new_out k =
      let old : free_at bottom (pre ++ free n ∷ post) new ≡ true =
        (v.listed new).0 (((without_place bottom h pre n post v).holds new).0 k).1 in
      ground (
        arith,
        free_parts bottom h pre n post v new,
        free_at_bounds bottom pre new,
        free_at_bounds (place + (16 + n)) post new,
      )

  with_new : With (without_place bottom h pre n post v).rest new
  with_new =
      insert_list-With (without_place bottom h pre n post v).rest new
        (without_place bottom h pre n post v).valid
        (omega (arith, (place_bounds bottom h pre n post v))) new_out
        (without_place bottom h pre n post v).room

  listed_after : (x : ℕ) → Holds with_new.more x ↔ (free_at bottom split_blocks x ≡ true)
  listed_after x = (
    (λ k. elim ((with_new.holds x).0 k) [
      | inl e ↦ ground (arith, parts_after x)
      | inr old ↦
          (let o : (x ≢ place) × Holds h.free_node_list x =
              ((without_place bottom h pre n post v).holds x).0 old in
            let f : free_at bottom (pre ++ free n ∷ post) x ≡ true = (v.listed x).0 o.1 in
            let o' : x ≢ place = o.0 in
            ground (arith, parts_after x, free_parts bottom h pre n post v x))
    ]),
    λ f. elim (Bool-cases (x == new)) [
      | inl e ↦ (with_new.holds x).1 (inl ((==_iff x new).0 e))
      | inr e ↦ (with_new.holds x).1 (
          inr (
            ((without_place bottom h pre n post v).holds x).1 (
              (λ k. ground (
                arith,
                parts_after x,
                free_at_bounds bottom pre x,
                free_at_bounds (place + (16 + n)) post x,
              )),
              (v.listed x).1 (ground (arith, parts_after x, free_parts bottom h pre n post v x)),
            )))
    ],
  )

  end_test :
      (bs : List Block) (y b last : ℕ)
      → 0 < y
      → (if first_of bs y == 0 then b else last) ≡ end_of bs b last
  end_test [] y b last p = refl
  end_test (c ∷ bs) y b last p = ground arith

  new_end :
      (if (split_headers h.header
            (at_place bottom h pre n post v).before
            place
            n
            m
            post
            new).next_ptr
          == 0
        then new
        else h.heap_list_end_ptr)
      ≡ end_of post new h.heap_list_end_ptr
  new_end =
      let t : (new == place) ≡ false = ground arith in
      let t' : (new == new) ≡ true = ground arith in
      rw (t, t')
        (end_test post (place + (16 + n)) new h.heap_list_end_ptr
          (omega (arith, (place_bounds bottom h pre n post v))))

  split_off-IsHeap :
      Returns
        (split_off place m
          (n - m)
          (h.header place)
          (record h { free_node_list = (without_place bottom h pre n post v).rest }))
        (λ h'. IsHeap bottom h' split_blocks)
  unfolding split_off insert_free
  split_off-IsHeap =
      let nw : u32 (place + u32 (m + 16)) ≡ new =
        omega (arith, (place_bounds bottom h pre n post v), v.fits) in
      let lf : sub32 (n - m) 16 ≡ n - m - 16 =
        omega (arith, (place_bounds bottom h pre n post v), v.fits) in
      rw (split_off, nw, lf, (old_header bottom h pre n post v), insert_free, with_new.run)
        (record {
          row =
              subst
                (λ l.
                  Row
                    (split_headers h.header (at_place bottom h pre n post v).before place n m post)
                    0 bottom split_blocks l h.top_heap_ptr)
                (sym new_end) Row-after;
          positive = v.positive;
          fits = v.fits;
          list = with_new.valid;
          listed = listed_after;
        })

  -- `heap_split_node` of a free block of `n` bytes for `m` bytes, where more than a header is left,
  -- ends with the heap in order: the block is a used one of `m` bytes and a free one of what is left
  -- behind its header, and all other blocks are as before.
  pub heap_split_node-IsHeap :
      Returns (heap_split_node place m h) (λ h'. IsHeap bottom h' split_blocks)
  unfolding heap_split_node
  heap_split_node-IsHeap =
      let sz : sub32 (u32 ((h.header place).size + 16)) (u32 (m + 16)) ≡ n - m = omega (
        arith,
        ap Header.size (old_header bottom h pre n post v),
        (place_bounds bottom h pre n post v),
        v.fits,
      ) in
      let t : leb (n - m) 16 ≡ false = ground arith in
      rw
        (
          heap_split_node,
          (checked bottom h pre n post v),
          (removed_run bottom h pre n post v),
          sz,
          t,
        )
        split_off-IsHeap
