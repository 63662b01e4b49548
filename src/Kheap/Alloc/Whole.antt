-- ===== src/Kheap/Alloc/Whole.antt =====
-- `heap_split_node` on a free block of which no more than a header would be left: it is used whole.
use mathlib.Core.Path.{subst}
use now_os.Base.{
  ℕ, ◌+◌, ◌-◌, ◌≤◌, ◌<◌, ◌≡◌, ◌≢◌, ◌↔◌, ◌⊎◌, inl, inr, refl, sym, ap, ◌∙◌, true, false, ◌||◌, List,
  [], ◌∷◌, ◌++◌, arith, leb, ◌==◌, if◌then◌else◌, ok, Returns, u32, sub32,
}
use now_os.SortedArrayList.Inv.{Holds}
use now_os.Kheap.{Header, Kheap, link_prev, heap_set_header}
use now_os.Kheap.Blocks.{
  Block, used, free, span, first_of, Row, free_at, IsHeap, Row-frame, Row-replace, Linked,
  free_at-append, free_at_bounds,
}
use now_os.Kheap.Alloc.{heap_split_node, take_whole}
use now_os.Kheap.Alloc.Relink.{relinked, relinked-eq, first_of_behind}
use now_os.Kheap.Alloc.Place.{
  place_bounds, without_place, at_place, free_parts, old_header, checked, removed_run,
}

-- Linking the next block back to where it is linked.
link_prev-same :
    (header : ℕ → Header) (a x last stop : ℕ) (bs : List Block) (q : ℕ)
    → Row header a x bs last stop
    → link_prev (first_of bs x) a header q ≡ header q
link_prev-same header a x last stop [] q r = refl
link_prev-same header a x last stop (b ∷ bs) q r = ground (arith, ap Header.prev_ptr r.0)

-- The headers after the free block of `n` bytes at `a` is used whole.
abbrev pub whole_headers : (header : ℕ → Header) (p a n : ℕ) → List Block → ℕ → Header
whole_headers header p a n post =
    heap_set_header a true (first_of post (a + (16 + n))) p n
      (relinked header p a a (first_of post (a + (16 + n))))

module _ (header : ℕ → Header) (p a n last stop : ℕ) (post : List Block)
    (l : Linked header p a (free n ∷ post)) (r : Row header p a (free n ∷ post) last stop) where
  -- The neighbours' links do not change.
  pub linked-same : (q : ℕ) → relinked header p a a (first_of post (a + (16 + n))) q ≡ header q
  linked-same q =
      relinked-eq header p a a (first_of post (a + (16 + n))) (free n) post l
        (first_of_behind post a (a + (16 + n)) (omega arith)) q
      ∙ link_prev-same header a (a + (16 + n)) last stop post q r.1

  pub whole_headers-other : (q : ℕ) → q ≢ a → whole_headers header p a n post q ≡ header q
  whole_headers-other q h = let t : (q == a) ≡ false = ground arith in rw t (linked-same q)

  pub whole_headers-Row : Row (whole_headers header p a n post) p a (used n ∷ post) last stop
  whole_headers-Row = (
    ground arith,
    Row-frame header (whole_headers header p a n post) a (a + (16 + n)) last stop post r.1
        (λ q h. whole_headers-other q (λ e. omega arith)),
  )

end_unchanged :
    (header linked : ℕ → Header) (a x last stop y : ℕ) (bs : List Block)
    → 0 < x
    → Row header a x bs last stop
    → ((linked y).next_ptr ≢ 0) ⊎ (bs ≡ [])
    → (if first_of bs x == 0 then a else if (linked y).next_ptr == 0 then a else last) ≡ last
end_unchanged header linked a x last stop y [] p r h = sym r.1
end_unchanged header linked a x last stop y (b ∷ bs) p r (inl e) = ground arith
end_unchanged header linked a x last stop y (b ∷ bs) p r (inr e) = absurd (cc)

module _ (bottom : ℕ) (h : Kheap) (pre : List Block) (n : ℕ) (post : List Block)
    (v : IsHeap bottom h (pre ++ free n ∷ post)) (m : ℕ) (fits : m ≤ n) where
  abbrev place : ℕ
  place = bottom + span pre

  abbrev p : ℕ
  p = (at_place bottom h pre n post v).before

  abbrev next : ℕ
  next = first_of post (place + (16 + n))

  abbrev pub whole_blocks : List Block
  whole_blocks = pre ++ used n ∷ post

  Row-after :
      Row
        (whole_headers h.header p place n post)
        0
        bottom
        whole_blocks
        h.heap_list_end_ptr
        h.top_heap_ptr
  Row-after =
      Row-replace h.header (whole_headers h.header p place n post) 0 bottom h.heap_list_end_ptr
        h.heap_list_end_ptr h.top_heap_ptr pre (free n) post (used n) post v.row place refl
        (λ q lt.
          whole_headers-other h.header p place n h.heap_list_end_ptr h.top_heap_ptr post
            (at_place bottom h pre n post v).linked (at_place bottom h pre n post v).here q
            (λ e. omega arith))
        (λ p' r.
          let e : p ≡ p' = ap Header.prev_ptr (sym (old_header bottom h pre n post v) ∙ r.0) in
          rw (← e) (
            whole_headers-Row h.header p place n h.heap_list_end_ptr h.top_heap_ptr post
              (at_place bottom h pre n post v).linked (at_place bottom h pre n post v).here))

  listed_after :
      (x : ℕ)
      → Holds (without_place bottom h pre n post v).rest x ↔ (free_at bottom whole_blocks x ≡ true)
  listed_after x =
      let parts : free_at bottom whole_blocks x
          ≡ (free_at bottom pre x || free_at (place + (16 + n)) post x) =
        free_at-append bottom pre (used n ∷ post) x in
      (
        (λ k.
            let o : (x ≢ place) × Holds h.free_node_list x =
              ((without_place bottom h pre n post v).holds x).0 k in
            let o' : x ≢ place = o.0 in
            let f : free_at bottom (pre ++ free n ∷ post) x ≡ true = (v.listed x).0 o.1 in
            ground (arith, free_parts bottom h pre n post v x)),
        λ f. ((without_place bottom h pre n post v).holds x).1 (
          (λ k.
              ground
                (arith, free_at_bounds bottom pre x, free_at_bounds (place + (16 + n)) post x)),
          (v.listed x).1 (ground (arith, free_parts bottom h pre n post v x)),
        ),
      )

  linked_place : (q : ℕ) → relinked h.header p place place next q ≡ h.header q
  linked_place =
      linked-same h.header p place n h.heap_list_end_ptr h.top_heap_ptr post
        (at_place bottom h pre n post v).linked (at_place bottom h pre n post v).here

  end_same :
      ((h.header (place + (16 + m))).next_ptr ≢ 0) ⊎ (post ≡ [])
      → (if (whole_headers h.header p place n post place).next_ptr == 0
          then place
          else if (relinked h.header p place place next (place + (16 + m))).next_ptr == 0
          then place
          else h.heap_list_end_ptr)
        ≡ h.heap_list_end_ptr
  end_same end_ok =
      let t : (place == place) ≡ true = ground arith in
      rw t (
        end_unchanged h.header (relinked h.header p place place next) place (place + (16 + n))
          h.heap_list_end_ptr h.top_heap_ptr (place + (16 + m)) post (omega arith)
          (at_place bottom h pre n post v).here.1 (rw (linked_place (place + (16 + m))) end_ok))

  take_whole-IsHeap :
      ((h.header (place + (16 + m))).next_ptr ≢ 0) ⊎ (post ≡ [])
      → IsHeap bottom
          (take_whole place m
            (n - m)
            (h.header place)
            (record h { free_node_list = (without_place bottom h pre n post v).rest }))
          whole_blocks
  unfolding take_whole
  take_whole-IsHeap end_ok =
      let b = place_bounds bottom h pre n post v in
      let nw : u32 (place + u32 (m + 16)) ≡ place + (16 + m) = omega (arith, b, v.fits) in
      let sz : u32 (m + (n - m)) ≡ n = omega (arith, b, v.fits) in
      rw (take_whole, nw, sz, old_header bottom h pre n post v)
        (record {
          row =
              subst
                (λ l.
                  Row (whole_headers h.header p place n post) 0 bottom whole_blocks l
                    h.top_heap_ptr)
                (sym (end_same end_ok)) Row-after;
          positive = v.positive;
          fits = v.fits;
          list = (without_place bottom h pre n post v).valid;
          listed = listed_after;
        })

  whole_run :
      n ≤ m + 16
      → heap_split_node place m h
        ≡ ok (
            take_whole place m
              (n - m)
              (h.header place)
              (record h { free_node_list = (without_place bottom h pre n post v).rest }))
  unfolding heap_split_node
  whole_run tight =
      let sz : sub32 (u32 ((h.header place).size + 16)) (u32 (m + 16)) ≡ n - m = omega (
        arith,
        ap Header.size (old_header bottom h pre n post v),
        place_bounds bottom h pre n post v,
        v.fits,
      ) in
      let t : leb (n - m) 16 ≡ true = ground arith in
      rw (heap_split_node, checked bottom h pre n post v, removed_run bottom h pre n post v, sz, t)
        refl

  take_whole_stale :
      (h.header (place + (16 + m))).next_ptr ≡ 0
      → (take_whole place m (n - m) (h.header place) (record h {
        free_node_list = (without_place bottom h pre n post v).rest;
      })).heap_list_end_ptr
        ≡ place
  unfolding take_whole
  take_whole_stale e =
      let nw : u32 (place + u32 (m + 16)) ≡ place + (16 + m) =
        omega (arith, place_bounds bottom h pre n post v, v.fits) in
      let k : (relinked h.header p place place next (place + (16 + m))).next_ptr ≡ 0 =
        ap Header.next_ptr (linked_place (place + (16 + m))) ∙ e in
      rw (take_whole, nw, old_header bottom h pre n post v, k) (ground arith)

  -- Where the memory behind the first `m` bytes looks like a last block, the block becomes the last one
  -- to the heap.
  pub heap_split_node-stale :
      n ≤ m + 16
      → (h.header (place + (16 + m))).next_ptr ≡ 0
      → Returns (heap_split_node place m h) (λ h'. h'.heap_list_end_ptr ≡ place)
  heap_split_node-stale tight e = rw (whole_run tight) (take_whole_stale e)

  -- `heap_split_node` of a free block of `n` bytes for `m` bytes, where no more than a header is left,
  -- ends with the heap in order and the block used whole, if it is the last block or what stands
  -- behind the first `m` bytes does not look like a last block.
  pub heap_split_node-whole :
      n ≤ m + 16
      → ((h.header (place + (16 + m))).next_ptr ≢ 0) ⊎ (post ≡ [])
      → Returns (heap_split_node place m h) (λ h'. IsHeap bottom h' whole_blocks)
  heap_split_node-whole tight end_ok = rw (whole_run tight) (take_whole-IsHeap end_ok)
