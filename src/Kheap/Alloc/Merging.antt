-- ===== src/Kheap/Alloc/Merging.antt =====
-- The two steps of `heap_merge_nodes` on a pending free block.
use now_os.Base.{
  ℕ, ◌+◌, ◌^◌, ◌<◌, ◌≡◌, ◌≢◌, ◌⊎◌, inl, inr, refl, false, List, [], ◌∷◌, ◌++◌, arith, ◌==◌, ok,
  Returns, u32,
}
use now_os.SortedArrayList.Room.{Without, remove_list-Without}
use now_os.Kheap.{
  Kheap, remove_free, heap_merge_left, heap_merge_right, try_merge_left, try_merge_right,
}
use now_os.Kheap.Blocks.{Block, used, free, span, Row-span, Row-At, At, span-append}
use now_os.Kheap.Alloc.Relink.{end_of}
use now_os.Kheap.Alloc.Pending.{
  Pending, remove_free-Pending, absorbed, rest_of, right_last, both_free, joined-Pending,
}

removed :
    (h : Kheap) (y : ℕ) (w : Without h.free_node_list y)
    → remove_free y h ≡ ok (record h { free_node_list = w.rest })
unfolding remove_free
removed h y w = rw (remove_free, w.run) refl

-- Two free blocks behind one another, one of them pending.
module _ (bottom : ℕ) (h : Kheap) (pre : List Block) (n k : ℕ) (post : List Block) (x last : ℕ)
    (v : Pending bottom h (pre ++ free n ∷ free k ∷ post) x last) where
  abbrev a : ℕ
  a = bottom + span pre

  abbrev r : ℕ
  r = a + (16 + n)

  sizes : n + 16 + k < 2 ^ 32
  sizes = omega (
    arith,
    v.fits,
    span-append pre (free n ∷ free k ∷ post),
    Row-span h.header 0 bottom last h.top_heap_ptr (pre ++ free n ∷ free k ∷ post) v.row,
  )

  behind : r + (16 + k) ≡ a + (16 + (n + 16 + k))
  behind = omega arith

  -- The block that is not pending is in the list.
  without : (y : ℕ) → y ≢ x → (y ≡ a) ⊎ (y ≡ r) → Without h.free_node_list y
  without y ne here =
      remove_list-Without h.free_node_list y v.list (ground (arith, v.positive))
        ((v.listed y).1 (ne, ground (arith, both_free bottom pre n k post y)))

  -- What the first of the two becomes.
  abbrev pub Joined : ℕ × Kheap → Type 0
  Joined (node, h') =
      (node ≡ a)
      × Pending bottom h' (pre ++ free (n + 16 + k) ∷ post) a (end_of post a last)
      × (h'.heap_list_end_ptr ≡ h.heap_list_end_ptr)

  abbrev at : At h.header a last h.top_heap_ptr (free n ∷ free k ∷ post)
  at =
      Row-At h.header 0 bottom last h.top_heap_ptr pre (free n ∷ free k ∷ post) v.row (inl refl) a
        refl

  pub try_merge_right-Joined : x ≡ a → Returns (try_merge_right a h) Joined
  unfolding try_merge_right heap_merge_right
  try_merge_right-Joined e =
      let w : Without h.free_node_list r = without r (λ q. omega arith) (inr refl) in
      let t : (r == 0) ≡ false = ground arith in
      let pending : remove_free a h ≡ ok h =
        remove_free-Pending bottom h (pre ++ free n ∷ free k ∷ post) a last (rw e at v)
          (omega (arith, v.positive)) in
      let size : u32 (n + k + 16) ≡ n + 16 + k = omega (arith, sizes) in
      rw
        (
          try_merge_right,
          at.here.0,
          at.here.1.0,
          t,
          pending,
          removed h r w,
          heap_merge_right,
          at.here.0,
          at.here.1.0,
          size,
          behind,
        )
        (refl, joined-Pending bottom h pre n k post x r last v w (inl (e, refl)), refl)

  pub try_merge_left-Joined :
      (merge_node : ℕ) → x ≡ r → Returns (try_merge_left r a merge_node h) Joined
  unfolding try_merge_left heap_merge_left
  try_merge_left-Joined merge_node e =
      let w : Without h.free_node_list a = without a (λ q. omega arith) (inl refl) in
      let t : (a == 0) ≡ false = ground (arith, v.positive) in
      let pending : remove_free r h ≡ ok h =
        remove_free-Pending bottom h (pre ++ free n ∷ free k ∷ post) r last (rw e at v)
          (omega arith) in
      let size : u32 (k + n + 16) ≡ n + 16 + k = omega (arith, sizes) in
      rw
        (
          try_merge_left,
          at.here.0,
          t,
          pending,
          removed h a w,
          heap_merge_left,
          at.here.1.0,
          at.here.0,
          size,
          behind,
        )
        (refl, joined-Pending bottom h pre n k post x a last v w (inr (e, refl)), refl)

-- The right step on any row behind the pending block.
module _ (bottom : ℕ) (h : Kheap) (pre : List Block) (n last : ℕ) where
  abbrev place : ℕ
  place = bottom + span pre

  abbrev pub AfterRight : List Block → ℕ × Kheap → Type 0
  AfterRight post (node, h') =
      (node ≡ place)
      × Pending bottom h' (pre ++ free (absorbed n post) ∷ rest_of post) place
          (right_last post place last)
      × (h'.heap_list_end_ptr ≡ h.heap_list_end_ptr)

  pub try_merge_right-Pending :
      (post : List Block)
      → Pending bottom h (pre ++ free n ∷ post) place last
      → Returns (try_merge_right place h) (AfterRight post)
  unfolding try_merge_right
  try_merge_right-Pending [] v =
      let at : At h.header place last h.top_heap_ptr (free n ∷ []) =
        Row-At h.header 0 bottom last h.top_heap_ptr pre (free n ∷ []) v.row (inl refl) place
          refl in
      rw (try_merge_right, at.here.0) (refl, v, refl)
  try_merge_right-Pending (used k ∷ post) v =
      let at : At h.header place last h.top_heap_ptr (free n ∷ used k ∷ post) =
        Row-At h.header 0 bottom last h.top_heap_ptr pre (free n ∷ used k ∷ post) v.row (inl refl)
          place refl in
      let t : (place + (16 + n) == 0) ≡ false = ground arith in
      rw (try_merge_right, at.here.0, at.here.1.0, t) (refl, v, refl)
  try_merge_right-Pending (free k ∷ post) v =
      try_merge_right-Joined bottom h pre n k post place last v refl

-- The left step behind a used block.
pub try_merge_left-used :
    (bottom : ℕ) (h : Kheap) (pre : List Block) (j : ℕ) (bs : List Block)
    (x last node merge_node : ℕ)
    → Pending bottom h (pre ++ used j ∷ bs) x last
    → try_merge_left node (bottom + span pre) merge_node h ≡ ok (merge_node, h)
unfolding try_merge_left
try_merge_left-used bottom h pre j bs x last node merge_node v =
    let at : At h.header (bottom + span pre) last h.top_heap_ptr (used j ∷ bs) =
      Row-At h.header 0 bottom last h.top_heap_ptr pre (used j ∷ bs) v.row (inl refl)
        (bottom + span pre) refl in
    let t : (bottom + span pre == 0) ≡ false = ground (arith, v.positive) in
    rw (try_merge_left, t, at.here.0) refl
