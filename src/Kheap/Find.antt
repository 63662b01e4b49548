-- ===== src/Kheap/Find.antt =====
-- `heap_find_free_node` finds a best fit.
use mathlib.Core.Path.{subst}
use now_os.Base.{
  ℕ, zero, suc, ◌+◌, ◌≤◌, ◌<◌, ◌≡◌, ◌≢◌, ◌⊎◌, inl, inr, refl, sym, true, Bool-cases, List, ◌∷◌,
  arith, ltb, if◌then◌else◌, ok, Returns, Returns-weaken,
}
use now_os.SortedArrayList.Inv.{count, elem}
use now_os.Kheap.{Kheap, check_header, find_from, heap_find_free_node, better}
use now_os.Kheap.Blocks.{Block, free, free_at, IsHeap, Split, free_at-Split, At, Row-At}

-- The header of a free block.
pub free_header :
    (bottom : ℕ) (h : Kheap) (bs : List Block) (x : ℕ)
    → IsHeap bottom h bs
    → free_at bottom bs x ≡ true
    → check_header (h.header x) ≡ ok tt
unfolding check_header
free_header bottom h bs x v f =
    let s : Split bottom bs x = free_at-Split bottom bs x f in
    let at : At h.header x h.heap_list_end_ptr h.top_heap_ptr (free s.size ∷ s.post) =
      Row-At h.header 0 bottom h.heap_list_end_ptr h.top_heap_ptr s.pre (free s.size ∷ s.post)
        (rw s.whole at v.row) (inl refl) x s.place in
    rw (check_header, at.here.0) refl

below_suc : (P : ℕ → Type 0) (i : ℕ) → ((j : ℕ) → j < i → P j) → P i → (j : ℕ) → j < suc i → P j
below_suc P i before here j lt = elim (Bool-cases (ltb j i)) [
  | inl t ↦ before j (ground arith)
  | inr t ↦ (let e : j ≡ i = ground arith in subst P (sym e) here)
]

module _ (h : Kheap) (alloc_size : ℕ) where
  abbrev size_at : ℕ → ℕ
  size_at x = (h.header x).size

  -- The best node among the first `i` of the free list.
  abbrev Best : (i best : ℕ) → Type 0
  Best i best =
      ((best ≡ 0) × ((j : ℕ) → j < i → size_at (elem h.free_node_list j) < alloc_size))
      ⊎ ((best ≢ 0)
          × ((k : ℕ) × (k < i) × (elem h.free_node_list k ≡ best))
          × (alloc_size ≤ size_at best)
          × ((j : ℕ)
              → j < i
              → alloc_size ≤ size_at (elem h.free_node_list j)
              → size_at best ≤ size_at (elem h.free_node_list j)))

  new-Best :
      (i best e : ℕ)
      → Best i best
      → better alloc_size best (size_at e) (size_at best) ≡ true
      → (j : ℕ) → j < i
      → alloc_size ≤ size_at (elem h.free_node_list j)
      → size_at e ≤ size_at (elem h.free_node_list j)
  new-Best i best e (inl (z, small)) t j lt le = absurd (omega (arith, small j lt))
  new-Best i best e (inr (z, at, fits, least)) t j lt le = ground (arith, least j lt le)

  Best-step :
      (i best : ℕ)
      → elem h.free_node_list i ≢ 0
      → Best i best
      → Best (suc i) (
          if better alloc_size best (size_at (elem h.free_node_list i)) (size_at best)
          then elem h.free_node_list i
          else best)
  Best-step i best nz b =
      let e : ℕ = elem h.free_node_list i in
      elim (Bool-cases (better alloc_size best (size_at e) (size_at best))) [
        | inl t ↦ rw t (
            inr (
              nz,
              (i, omega arith, refl),
              ground arith,
              below_suc
                  (λ j.
                    alloc_size ≤ size_at (elem h.free_node_list j)
                    → size_at e ≤ size_at (elem h.free_node_list j))
                  i (λ j lt le. new-Best i best e b t j lt le) (λ le. omega arith),
            ))
        | inr t ↦ rw t (elim b [
          | inl (z, small) ↦ inl (
            z,
            below_suc (λ j. size_at (elem h.free_node_list j) < alloc_size) i small (ground arith),
          )
          | inr (z, (k, lt, at), fits, least) ↦ inr (
            z,
            (k, omega arith, at),
            fits,
            below_suc
                (λ j.
                  alloc_size ≤ size_at (elem h.free_node_list j)
                  → size_at best ≤ size_at (elem h.free_node_list j))
                i least (λ le. ground arith),
          )
        ])
      ]

  find_from-Best :
      (n i best : ℕ)
      → i + n ≡ count h.free_node_list
      → ((j : ℕ) → j < count h.free_node_list → elem h.free_node_list j ≢ 0)
      → ((j : ℕ)
          → j < count h.free_node_list
          → check_header (h.header (elem h.free_node_list j)) ≡ ok tt)
      → Best i best
      → Returns (find_from n i best alloc_size h) (Best (count h.free_node_list))
  unfolding find_from
  find_from-Best zero i best e nz good b =
      let z : i ≡ count h.free_node_list = omega arith in rw z at b
  find_from-Best (suc n) i best e nz good b = rw (good i (omega arith)) (
      find_from-Best n (i + 1) _ (omega arith) nz good
        (let z : i + 1 ≡ suc i = omega arith in rw z (Best-step i best (nz i (omega arith)) b)))

  -- What `heap_find_free_node` finds in a heap of the blocks `bs`.
  pub data Fit (bottom : ℕ) (bs : List Block) (node : ℕ) : Type 0 where
    none_fits :
        node ≡ 0
        → ((x : ℕ) → free_at bottom bs x ≡ true → size_at x < alloc_size)
        → Fit bottom bs node
    best_fit :
        free_at bottom bs node ≡ true
        → alloc_size ≤ size_at node
        → ((x : ℕ) → free_at bottom bs x ≡ true → alloc_size ≤ size_at x → size_at node ≤ size_at x)
        → Fit bottom bs node

  Best-Fit :
      (bottom : ℕ) (bs : List Block) (node : ℕ)
      → IsHeap bottom h bs
      → Best (count h.free_node_list) node
      → Fit bottom bs node
  Best-Fit bottom bs node v (inl (z, small)) =
      none_fits z (λ x f. let (j, lt, e) = (v.listed x).1 f in rw e at (small j lt))
  Best-Fit bottom bs node v (inr (z, (k, lt, e), fits, least)) =
      best_fit ((v.listed node).0 (k, lt, e)) fits
        (λ x f le. let (j, lt', e') = (v.listed x).1 f in rw e' at (least j lt' (rw e' le)))

  -- In a heap in order, `heap_find_free_node` meets no bad header and returns: a smallest free block of
  -- those that are large enough, or null when none is.
  pub find_free_node-Fit :
      (bottom : ℕ) (bs : List Block)
      → IsHeap bottom h bs
      → Returns (heap_find_free_node alloc_size h) (Fit bottom bs)
  unfolding heap_find_free_node
  find_free_node-Fit bottom bs v =
      Returns-weaken (heap_find_free_node alloc_size h) _ _
        (find_from-Best (count h.free_node_list) 0 0 (omega arith)
          (λ j lt e. omega (arith, v.list.positive j lt))
          (λ j lt.
            free_header bottom h bs (elem h.free_node_list j) v
              ((v.listed (elem h.free_node_list j)).0 (j, lt, refl)))
          (inl (refl, λ j lt. elim lt [ ])))
        (λ node b. Best-Fit bottom bs node v b)
