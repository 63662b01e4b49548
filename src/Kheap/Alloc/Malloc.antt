-- ===== src/Kheap/Alloc/Malloc.antt =====
-- `kmalloc` on a heap in order with a free block that is large enough.
use now_os.Base.{
  ℕ, ◌+◌, ◌-◌, ◌≤◌, ◌<◌, ◌≡◌, ◌≢◌, ◌⊎◌, inl, inr, refl, ap, ◌∙◌, true, false, Bool-cases, List, [],
  ◌∷◌, ◌++◌, arith, ltb, ◌==◌, Returns, Returns-then, Returns-weaken, u32, align_up,
}
use now_os.Kheap.{Header, Kheap, heap_find_free_node}
use now_os.Kheap.Blocks.{
  Block, used, free, span, free_at, IsHeap, Split, free_at-Split, free_at_bounds,
}
use now_os.Kheap.Find.{Fit, none_fits, best_fit, find_free_node-Fit}
use now_os.Kheap.Alloc.{heap_split_node, find_or_expand, kmalloc}
use now_os.Kheap.Alloc.Place.{place_bounds, old_header}
use now_os.Kheap.Alloc.Split.{heap_split_node-IsHeap}
use now_os.Kheap.Alloc.Whole.{heap_split_node-whole, heap_split_node-stale}

-- The block that `kmalloc` takes for `m` bytes out of `bs`, and the heap afterwards.
pub record Allocated (bottom m : ℕ) (h : Kheap) (bs : List Block) (ptr : ℕ) (h' : Kheap)
    : Type 0 where
  pub pre : List Block
  pub size : ℕ
  pub post : List Block
  pub whole : bs ≡ pre ++ free size ∷ post
  pub enough : m ≤ size
  pub least :
      (x : ℕ) → free_at bottom bs x ≡ true → m ≤ (h.header x).size → size ≤ (h.header x).size
  pub at : ptr ≡ bottom + span pre + 16
  pub after :
      ((m + 16 < size) × IsHeap bottom h' (pre ++ used m ∷ free (size - m - 16) ∷ post))
      ⊎ ((size ≤ m + 16)
          × (((h.header (ptr + m)).next_ptr ≢ 0) ⊎ (post ≡ []))
          × IsHeap bottom h' (pre ++ used size ∷ post))
      ⊎ ((size ≤ m + 16) × ((h.header (ptr + m)).next_ptr ≡ 0) × (h'.heap_list_end_ptr + 16 ≡ ptr))

-- What a split of the found block makes.
split_after :
    (bottom m : ℕ) (h : Kheap) (pre : List Block) (n : ℕ) (post : List Block)
    → IsHeap bottom h (pre ++ free n ∷ post)
    → m ≤ n
    → Returns (heap_split_node (bottom + span pre) m h) (λ h'.
      ((m + 16 < n) × IsHeap bottom h' (pre ++ used m ∷ free (n - m - 16) ∷ post))
      ⊎ ((n ≤ m + 16)
          × (((h.header (bottom + span pre + (16 + m))).next_ptr ≢ 0) ⊎ (post ≡ []))
          × IsHeap bottom h' (pre ++ used n ∷ post))
      ⊎ ((n ≤ m + 16)
          × ((h.header (bottom + span pre + (16 + m))).next_ptr ≡ 0)
          × (h'.heap_list_end_ptr ≡ bottom + span pre)))
split_after bottom m h pre n post v fits = elim (Bool-cases (ltb (m + 16) n)) [
  | inl t ↦
      Returns-weaken (heap_split_node (bottom + span pre) m h) _ _
        (heap_split_node-IsHeap bottom h pre n post v m (ground arith))
        (λ h' w. inl (ground arith, w))
  | inr t ↦ (elim (Bool-cases ((h.header (bottom + span pre + (16 + m))).next_ptr == 0)) [
    | inl z ↦
        Returns-weaken (heap_split_node (bottom + span pre) m h) _ _
          (heap_split_node-stale bottom h pre n post v m fits (ground arith) (ground arith))
          (λ h' w. inr (inr (ground arith, ground arith, w)))
    | inr z ↦
        Returns-weaken (heap_split_node (bottom + span pre) m h) _ _
          (heap_split_node-whole bottom h pre n post v m fits (ground arith) (inl (ground arith)))
          (λ h' w. inr (inl (ground arith, inl (ground arith), w)))
  ])
]

-- The free block at an address in its row.
module _ (heap_top bottom size : ℕ) (h : Kheap) (bs : List Block) (v : IsHeap bottom h bs) where
  abbrev m : ℕ
  m = align_up size 4

  -- The free block that is found is split or used whole.
  Split-Allocated :
      (node : ℕ) (s : Split bottom bs node)
      → m ≤ (h.header node).size
      → ((x : ℕ)
          → free_at bottom bs x ≡ true
          → m ≤ (h.header x).size
          → (h.header node).size ≤ (h.header x).size)
      → Returns (heap_split_node node m h) (λ h'. Allocated bottom m h bs (u32 (node + 16)) h')
  Split-Allocated node s enough least =
      let w : IsHeap bottom h (s.pre ++ free s.size ∷ s.post) = rw s.whole at v in
      let old : (h.header (bottom + span s.pre)).size ≡ s.size =
        ap Header.size (old_header bottom h s.pre s.size s.post w) in
      let old' : (h.header node).size ≡ s.size = ap (λ a. (h.header a).size) s.place ∙ old in
      let ptr : u32 (node + 16) ≡ bottom + span s.pre + 16 =
        omega (arith, place_bounds bottom h s.pre s.size s.post w, w.fits, s.place) in
      let next : bottom + span s.pre + 16 + m ≡ bottom + span s.pre + (16 + m) = omega arith in
      let le : m ≤ s.size = rw old' at enough in
      rw (ptr, s.place)
        (Returns-weaken (heap_split_node (bottom + span s.pre) m h) _ _
          (split_after bottom m h s.pre s.size s.post w le)
          (λ h' a. record {
            pre = s.pre;
            size = s.size;
            post = s.post;
            whole = s.whole;
            enough = le;
            least = λ x f big. rw old' at (least x f big);
            at = refl;
            after = rw next (elim a [
              | inl r ↦ inl r
              | inr (inl r) ↦ inr (inl r)
              | inr (inr (tight, z, e)) ↦ inr (inr (tight, z, ap (λ a. a + 16) e))
            ]);
          }))

  found_Allocated :
      (node : ℕ)
      → Fit h m bottom bs node
      → node ≢ 0
      → Returns (heap_split_node node m h) (λ h'. Allocated bottom m h bs (u32 (node + 16)) h')
  found_Allocated node (none_fits e small) nz = absurd (nz e)
  found_Allocated node (best_fit f enough least) nz =
      Split-Allocated node (free_at-Split bottom bs node f) enough least

  Fit-found :
      (node : ℕ)
      → Fit h m bottom bs node
      → ((x : ℕ) × (free_at bottom bs x ≡ true) × (m ≤ (h.header x).size))
      → node ≢ 0
  Fit-found node (none_fits e small) (x, f, big) z = omega (arith, small x f)
  Fit-found node (best_fit f enough least) there z =
      omega (arith, (free_at_bounds bottom bs node f).0, v.positive)

  found :
      ((x : ℕ) × (free_at bottom bs x ≡ true) × (m ≤ (h.header x).size))
      → Returns
          (find_or_expand heap_top m h)
          (λ (node, h1). (h1 ≡ h) × (node ≢ 0) × Fit h m bottom bs node)
  unfolding find_or_expand
  found there =
      Returns-then (heap_find_free_node m h) _ _ (find_free_node-Fit h m bottom bs v) (λ node fit.
        let nz : node ≢ 0 = Fit-found node fit there in
        let t : (node == 0) ≡ false = ground arith in rw t (refl, nz, fit))

  -- `kmalloc` on a heap in order, where a free block is large enough for the size rounded up to four,
  -- returns. It takes a smallest such block, and gives the address sixteen bytes above it. If more than
  -- a header would be left, the heap is in order with the block split in two. Otherwise the heap is in
  -- order with the whole block used, unless the memory behind the requested bytes reads as a header
  -- without a next block: then `heap_list_end_ptr` names the block.
  pub kmalloc-Allocated :
      ((x : ℕ) × (free_at bottom bs x ≡ true) × (m ≤ (h.header x).size))
      → Returns (kmalloc heap_top size h) (λ (ptr, h'). Allocated bottom m h bs ptr h')
  unfolding kmalloc
  kmalloc-Allocated there =
      Returns-then (find_or_expand heap_top m h) _ _ (found there) (λ (node, h1) (e, nz, fit).
        Returns-then (heap_split_node node m h1) _ _ (rw e (found_Allocated node fit nz))
          (λ h2 a. a))
