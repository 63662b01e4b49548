-- ===== src/Kheap/Alloc/Ends.antt =====
-- `heap_list_end_ptr` after `kfree`: right while a block stands behind those that merge, and wrong when
-- the last block is merged into the one before it.
use mathlib.Core.List.{append_assoc}
use now_os.Kheap.Alloc.First.{kfree-FirstFreed}
use now_os.Base.{
  ℕ, ◌+◌, ◌≤◌, ◌<◌, ◌≡◌, ◌≢◌, inl, inr, ◌⊎◌, ap, refl, sym, ◌∙◌, List, [], ◌∷◌, ◌++◌, arith,
  Returns, Returns-weaken,
}
use now_os.Kheap.{Kheap}
use now_os.Kheap.Blocks.{Block, used, free, size_of, span, IsHeap, Row-At, At, span-append}
use now_os.Kheap.Alloc.{kfree}
use now_os.Kheap.Alloc.Relink.{end_of}
use now_os.Kheap.Alloc.Pending.{absorbed, rest_of, right_last}
use now_os.Kheap.Alloc.Free.{Ordered}
use now_os.Kheap.Alloc.Freed.{left_joined, left_last, freed_blocks, freed_last, kfree-Freed}

end_of-same : (rest : List Block) (x last : ℕ) → rest ≢ [] → end_of rest x last ≡ last
end_of-same [] x last h = absurd (h refl)
end_of-same (c ∷ rest) x last h = refl

right_last-same :
    (post : List Block) (x last : ℕ) → rest_of post ≢ [] → right_last post x last ≡ last
right_last-same [] x last h = refl
right_last-same (used k ∷ post) x last h = refl
right_last-same (free k ∷ post) x last h = end_of-same post x last h

left_last-same :
    (b : Block) (rest : List Block) (x last : ℕ) → rest ≢ [] → left_last b rest x last ≡ last
left_last-same (used j) rest x last h = refl
left_last-same (free j) rest x last h = end_of-same rest x last h

left_last_le : (b : Block) (x last : ℕ) → x ≤ last → left_last b [] x last ≤ last
left_last_le (used j) x last h = omega arith
left_last_le (free j) x last h = h

-- A heap whose last block is the one in `heap_list_end_ptr`.
Ordered-IsHeap :
    (bottom : ℕ) (h : Kheap) (bs : List Block) (last : ℕ)
    → Ordered bottom h bs last
    → last ≡ h.heap_list_end_ptr
    → IsHeap bottom h bs
Ordered-IsHeap bottom h bs last o e = record {
  row = rw e at o.row;
  positive = o.positive;
  fits = o.fits;
  list = o.list;
  listed = o.listed;
}

module _ (bottom : ℕ) (pre : List Block) (b : Block) (n : ℕ) where
  abbrev place : ℕ
  place = bottom + span pre + (16 + size_of b)

  behind-IsHeap :
      (post : List Block) (h : Kheap)
      → IsHeap bottom h (pre ++ b ∷ used n ∷ post)
      → h.free_node_list.curr_size ≢ h.free_node_list.arr_size
      → rest_of post ≢ []
      → Returns (kfree (place + 16) h) (λ h'. IsHeap bottom h' (freed_blocks bottom pre b n post))
  behind-IsHeap post h v room more =
      Returns-weaken (kfree (place + 16) h) _ _ (kfree-Freed bottom pre b n post h v room)
        (λ h' (o, same). Ordered-IsHeap bottom h' _ _ o (
          left_last-same b (rest_of post) (bottom + span pre) _ more
          ∙ right_last-same post place h.heap_list_end_ptr more
          ∙ sym same))

  -- `kfree` of a block right before the free last block leaves `heap_list_end_ptr` at the header that
  -- was merged away: the last block of the row then stands before the address in it.
  pub kfree-stale_end :
      (k : ℕ) (h : Kheap)
      → IsHeap bottom h (pre ++ b ∷ used n ∷ free k ∷ [])
      → h.free_node_list.curr_size ≢ h.free_node_list.arr_size
      → Returns (kfree (place + 16) h) (λ h'.
        (last : ℕ) × Ordered bottom h' (pre ++ left_joined b (n + 16 + k) []) last
        × (last < h'.heap_list_end_ptr))
  kfree-stale_end k h v room =
      Returns-weaken (kfree (place + 16) h) _ _ (kfree-Freed bottom pre b n (free k ∷ []) h v room)
        (λ h' (o, same). (
          freed_last bottom pre b n (free k ∷ []) h.heap_list_end_ptr,
          o,
          let at : At h.header (bottom + span pre) h.heap_list_end_ptr h.top_heap_ptr
                  (b ∷ used n ∷ free k ∷ []) =
                Row-At h.header 0 bottom h.heap_list_end_ptr h.top_heap_ptr pre
                  (b ∷ used n ∷ free k ∷ []) v.row (inl refl) (bottom + span pre) refl in
              let old : h.heap_list_end_ptr ≡ place + (16 + n) = at.here.1.1.1.1 in
              omega (arith, left_last_le b (bottom + span pre) place (omega arith), old, same),
        ))

-- The row `pre ++ used n ∷ post` after the used block is free and has merged with its free neighbours.
abbrev pub freed_row : (pre : List Block) → (n : ℕ) → (post : List Block) → List Block
freed_row [] n post = free (absorbed n post) ∷ rest_of post
freed_row (b ∷ []) n post = left_joined b (absorbed n post) (rest_of post)
freed_row (b ∷ c ∷ pre) n post = b ∷ freed_row (c ∷ pre) n post

freed_row-snoc :
    (bottom : ℕ) (pre : List Block) (b : Block) (n : ℕ) (post : List Block)
    → freed_row (pre ++ b ∷ []) n post ≡ freed_blocks bottom pre b n post
freed_row-snoc bottom [] b n post = refl
freed_row-snoc bottom (c ∷ []) b n post = refl
freed_row-snoc bottom (c ∷ d ∷ pre) b n post =
    ap (λ bs. c ∷ bs) (freed_row-snoc bottom (d ∷ pre) b n post)

snoc_cases :
    (bs : List Block) → (bs ≡ []) ⊎ ((pre : List Block) × (b : Block) × (bs ≡ pre ++ b ∷ []))
snoc_cases [] = inl refl
snoc_cases (c ∷ bs) = elim (snoc_cases bs) [
  | inl e ↦ inr ([], c, ap (λ l. c ∷ l) e)
  | inr (pre, b, e) ↦ inr (c ∷ pre, b, ap (λ l. c ∷ l) e)
]

first-IsHeap :
    (bottom n : ℕ) (post : List Block) (h : Kheap)
    → IsHeap bottom h (used n ∷ post)
    → h.free_node_list.curr_size ≢ h.free_node_list.arr_size
    → rest_of post ≢ []
    → Returns (kfree (bottom + 16) h) (λ h'. IsHeap bottom h' (freed_row [] n post))
first-IsHeap bottom n post h v room more =
    Returns-weaken (kfree (bottom + 16) h) _ _ (kfree-FirstFreed bottom n post h v room)
      (λ h' (o, same).
        Ordered-IsHeap bottom h' _ _ o
          (right_last-same post bottom h.heap_list_end_ptr more ∙ sym same))

-- `kfree` of any used block of a heap in order, the first one too, whose free list has room: when some
-- block stands behind the freed one and the free block that it may merge with there, the heap is in
-- order again, `heap_list_end_ptr` included. Its row has the block free, merged with each free
-- neighbour, and all other blocks as they were.
pub kfree-IsHeap :
    (bottom : ℕ) (pre : List Block) (n : ℕ) (post : List Block) (h : Kheap)
    → IsHeap bottom h (pre ++ used n ∷ post)
    → h.free_node_list.curr_size ≢ h.free_node_list.arr_size
    → rest_of post ≢ []
    → Returns (kfree (bottom + span pre + 16) h) (λ h'. IsHeap bottom h' (freed_row pre n post))
kfree-IsHeap bottom pre n post h v room more = elim (snoc_cases pre) [
  | inl e ↦
      let z : bottom + 0 ≡ bottom = omega arith in
      rw (e, z) (first-IsHeap bottom n post h (rw e at v) room more)
  | inr (init, b, e) ↦
      let row : IsHeap bottom h (init ++ b ∷ used n ∷ post) =
        rw (e, append_assoc init (b ∷ []) (used n ∷ post)) at v in
      let address : bottom + span (init ++ b ∷ []) ≡ bottom + span init + (16 + size_of b) =
        omega (arith, span-append init (b ∷ [])) in
      rw (e, address, freed_row-snoc bottom init b n post)
        (behind-IsHeap bottom init b n post h row room more)
]
