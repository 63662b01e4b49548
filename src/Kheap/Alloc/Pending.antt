-- ===== src/Kheap/Alloc/Pending.antt =====
-- A heap whose free block at one address is not in the free list yet, and `heap_merge_nodes` on it.
use now_os.Base.{
  ℕ, ◌+◌, ◌^◌, ◌<◌, ◌≡◌, ◌≢◌, ◌↔◌, ◌⊎◌, inl, inr, refl, sym, true, ◌||◌, List, [], ◌∷◌, ◌++◌, arith,
  ◌==◌, ok, some, ℤ,
}
use now_os.SortedArrayList.{remove_list}
use now_os.SortedArrayList.Inv.{IsValid, Holds}
use now_os.SortedArrayList.Room.{Without, remove_list-same}
use now_os.Kheap.{Kheap, remove_free}
use now_os.Kheap.Blocks.{
  Block, used, free, span, first_of, Row, free_at, Row-At, At, free_at-append, free_at_bounds,
}
use now_os.Kheap.Alloc.Relink.{end_of}
use now_os.Kheap.Alloc.Merge.{merged_headers, merge-Row}

-- The heap is in order but for the free block at `x`, which the free list lacks and has room for, and
-- for `heap_list_end_ptr`: the last block is at `last`.
pub record Pending (bottom : ℕ) (h : Kheap) (bs : List Block) (x last : ℕ) : Type 0 where
  pub row : Row h.header 0 bottom bs last h.top_heap_ptr
  pub positive : 0 < bottom
  pub fits : h.top_heap_ptr < 2 ^ 32
  pub list : IsValid h.free_node_list
  pub room : h.free_node_list.curr_size ≢ h.free_node_list.arr_size
  pub listed : (y : ℕ) → Holds h.free_node_list y ↔ ((y ≢ x) × (free_at bottom bs y ≡ true))

-- Removing the pending block from the free list changes nothing.
pub remove_free-Pending :
    (bottom : ℕ) (h : Kheap) (bs : List Block) (x last : ℕ)
    → Pending bottom h bs x last
    → 0 < x
    → remove_free x h ≡ ok h
unfolding remove_free
remove_free-Pending bottom h bs x last v p =
    let same : (r : ℤ) × (remove_list x h.free_node_list ≡ some (r, h.free_node_list)) =
      remove_list-same h.free_node_list x v.list p (λ k. ((v.listed x).0 k).0 refl) in
    rw (remove_free, same.1) refl

-- What the block of `n` bytes before `post` takes of it.
abbrev pub absorbed : ℕ → List Block → ℕ
absorbed n [] = n
absorbed n (used k ∷ post) = n
absorbed n (free k ∷ post) = n + 16 + k

abbrev pub rest_of : List Block → List Block
rest_of [] = []
rest_of (used k ∷ post) = used k ∷ post
rest_of (free k ∷ post) = post

abbrev pub right_last : List Block → (a last : ℕ) → ℕ
right_last [] a last = last
right_last (used k ∷ post) a last = last
right_last (free k ∷ post) a last = end_of post a last

-- Which of two free blocks behind one another are free, and which free blocks are left when the first
-- has taken the second.
module _ (start : ℕ) (pre : List Block) (n k : ℕ) (post : List Block) (y : ℕ) where
  abbrev first : ℕ
  first = start + span pre

  abbrev second : ℕ
  second = first + (16 + n)

  abbrev behind : ℕ
  behind = second + (16 + k)

  pub both_free :
      free_at start (pre ++ free n ∷ free k ∷ post) y
      ≡ (free_at start pre y || (y == first || (y == second || free_at behind post y)))
  both_free = free_at-append start pre (free n ∷ free k ∷ post) y

  one_free :
      free_at start (pre ++ free (n + 16 + k) ∷ post) y
      ≡ (free_at start pre y || (y == first || free_at behind post y))
  one_free =
      let z : first + (16 + (n + 16 + k)) ≡ behind = omega arith in
      rw (sym z) (free_at-append start pre (free (n + 16 + k) ∷ post) y)

  merged_free :
      ((y ≢ first) × (y ≢ second) × (free_at start (pre ++ free n ∷ free k ∷ post) y ≡ true))
      ↔ ((y ≢ first) × (free_at start (pre ++ free (n + 16 + k) ∷ post) y ≡ true))
  merged_free = (
    (λ (h, h', f). (h, ground (arith, both_free, one_free))),
    (λ (h, f). (
      h,
      (λ e. ground (arith, one_free, free_at_bounds start pre y, free_at_bounds behind post y)),
      ground (arith, both_free, one_free),
    )),
  )

-- Of two free blocks behind one another, one is pending and the other is taken out of the list: the
-- first takes the second, and is pending.
module _ (bottom : ℕ) (h : Kheap) (pre : List Block) (n k : ℕ) (post : List Block) (x y last : ℕ)
    (v : Pending bottom h (pre ++ free n ∷ free k ∷ post) x last) (w : Without h.free_node_list y)
    (both : ((x ≡ bottom + span pre) × (y ≡ bottom + span pre + (16 + n)))
      ⊎ ((x ≡ bottom + span pre + (16 + n)) × (y ≡ bottom + span pre))) where
  abbrev pub at_first : At h.header (bottom + span pre) last h.top_heap_ptr (free n ∷ free k ∷ post)
  at_first =
      Row-At h.header 0 bottom last h.top_heap_ptr pre (free n ∷ free k ∷ post) v.row (inl refl)
        (bottom + span pre) refl

  abbrev pub joined_heap : Kheap
  joined_heap = record h {
    header =
        merged_headers h.header at_first.before (bottom + span pre) (n + 16 + k)
          (first_of post (bottom + span pre + (16 + (n + 16 + k))));
    free_node_list = w.rest;
  }

  either_other :
      (z : ℕ) → ((z ≢ y) × (z ≢ x)) ↔ ((z ≢ bottom + span pre) × (z ≢ bottom + span pre + (16 + n)))
  either_other z = elim both [ inl (e, e') ↦ ground arith | inr (e, e') ↦ ground arith ]

  joined_listed :
      (z : ℕ)
      → Holds w.rest z
        ↔ ((z ≢ bottom + span pre) × (free_at bottom (pre ++ free (n + 16 + k) ∷ post) z ≡ true))
  joined_listed z = (
    (λ held.
        let (z≢y, held') = (w.holds z).0 held in
        let (z≢x, f) = (v.listed z).0 held' in
        let (h1, h2) = (either_other z).0 (z≢y, z≢x) in
        (merged_free bottom pre n k post z).0 (h1, h2, f)),
    (λ s.
        let (h1, h2, f) = (merged_free bottom pre n k post z).1 s in
        let (z≢y, z≢x) = (either_other z).1 (h1, h2) in
        (w.holds z).1 (z≢y, (v.listed z).1 (z≢x, f))),
  )

  pub joined-Pending :
      Pending bottom joined_heap
        (pre ++ free (n + 16 + k) ∷ post)
        (bottom + span pre)
        (end_of post (bottom + span pre) last)
  joined-Pending = record {
    row = merge-Row h.header 0 bottom last h.top_heap_ptr pre n k post v.row at_first;
    positive = v.positive;
    fits = v.fits;
    list = w.valid;
    room = w.room;
    listed = joined_listed;
  }
