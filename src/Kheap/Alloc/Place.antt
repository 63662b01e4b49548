-- ===== src/Kheap/Alloc/Place.antt =====
-- A free block in a heap in order: its neighbours, its header and its entry in the free list.
use now_os.Base.{ℕ, ◌+◌, ◌<◌, ◌≡◌, inl, refl, ◌||◌, List, ◌∷◌, ◌++◌, arith, ◌==◌, ok}
use now_os.SortedArrayList.Inv.{Holds}
use now_os.SortedArrayList.Room.{Without, remove_list-Without}
use now_os.Kheap.{Kheap, check_header, remove_free}
use now_os.Kheap.Blocks.{
  Block, free, span, first_of, header_of, free_at, IsHeap, Row-span, Row-At, At, free_at-append,
  span-append,
}

-- A free block in the row of a heap, and what its header says.
module _ (bottom : ℕ) (h : Kheap) (pre : List Block) (n : ℕ) (post : List Block)
    (v : IsHeap bottom h (pre ++ free n ∷ post)) where
  abbrev pub place : ℕ
  place = bottom + span pre

  pub at_place : At h.header place h.heap_list_end_ptr h.top_heap_ptr (free n ∷ post)
  at_place =
      Row-At h.header 0 bottom h.heap_list_end_ptr h.top_heap_ptr pre (free n ∷ post) v.row
        (inl refl) place refl

  pub place_bounds : (0 < place) × (place + (16 + n) + span post ≡ h.top_heap_ptr)
  place_bounds = omega (
    arith,
    v.positive,
    span-append pre (free n ∷ post),
    Row-span h.header 0 bottom h.heap_list_end_ptr h.top_heap_ptr (pre ++ free n ∷ post) v.row,
  )

  -- The free blocks are those before, this one, and those behind.
  pub free_parts :
      (x : ℕ)
      → free_at bottom (pre ++ free n ∷ post) x
        ≡ (free_at bottom pre x || (x == place || free_at (place + (16 + n)) post x))
  free_parts x = free_at-append bottom pre (free n ∷ post) x

  pub place_held : Holds h.free_node_list place
  place_held = (v.listed place).1 (ground (arith, free_parts place))

  pub without_place : Without h.free_node_list place
  without_place = remove_list-Without h.free_node_list place v.list place_bounds.0 place_held

  -- What the header of the free block says.
  pub old_header :
      h.header place ≡ header_of (free n) (first_of post (place + (16 + n))) at_place.before
  old_header = at_place.here.0

  pub checked : check_header (h.header place) ≡ ok tt
  unfolding check_header
  checked = rw (check_header, old_header) refl

  pub removed_run : remove_free place h ≡ ok (record h { free_node_list = without_place.rest })
  unfolding remove_free
  removed_run = rw (remove_free, without_place.run) refl
