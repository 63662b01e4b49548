-- ===== src/Kheap/Alloc/Relink.antt =====
-- Rows of blocks after the writes of `heap_split_node`, with no heap around them.
use now_os.Base.{
  ℕ, ◌+◌, ◌-◌, ◌≤◌, ◌<◌, ◌≡◌, ◌≢◌, ◌⊎◌, inl, inr, refl, ◌∙◌, true, false, List, [], ◌∷◌, arith,
  ◌==◌,
}
use now_os.Kheap.{Header, link_next, link_prev, heap_set_header}
use now_os.Kheap.Blocks.{
  Block, used, free, first_of, header_of, Row, Row-behind, Linked, link_next-same,
}

-- The header that `heap_list_end_ptr` names after a split.
abbrev pub end_of : List Block → (new last : ℕ) → ℕ
end_of [] new last = new
end_of (b ∷ bs) new last = last

-- A free block becomes a used and a free one.
pub split-Row :
    (header header' : ℕ → Header) (p a n m last stop : ℕ) (post : List Block)
    → m + 16 ≤ n
    → Row header p a (free n ∷ post) last stop
    → header' a ≡ header_of (used m) (a + (16 + m)) p
    → header' (a + (16 + m)) ≡ header_of (free (n - m - 16)) (first_of post (a + (16 + n))) a
    → (post ≢ []
        → header' (a + (16 + n)) ≡ record (header (a + (16 + n))) { prev_ptr = a + (16 + m) })
    → ((q : ℕ) → a + (16 + n) < q → header' q ≡ header q)
    → Row header' p a (used m ∷ free (n - m - 16) ∷ post) (end_of post (a + (16 + m)) last) stop
split-Row header header' p a n m last stop [] le r e f g same =
    (e, (f, (omega (arith, r.1.0), refl)))
split-Row header header' p a n m last stop (b ∷ post) le r e f g same =
    let z : a + (16 + n) ≡ a + (16 + m) + (16 + (n - m - 16)) = omega arith in
    (
      e,
      (
        rw z at f,
        rw z at (
            Row-behind header header' a (a + (16 + m)) (a + (16 + n)) last stop b post r.1
              (g (λ k. cc)) same),
      ),
    )

-- The links of the neighbours, written for a row whose first block ends up at `a` and whose second is
-- linked back to `back`.
abbrev pub relinked : (header : ℕ → Header) (p a back next : ℕ) → ℕ → Header
relinked header p a back next = link_next p a (link_prev next back header)

pub relinked-eq :
    (header : ℕ → Header) (p a back next : ℕ) (b : Block) (bs : List Block)
    → Linked header p a (b ∷ bs)
    → (next ≡ 0) ⊎ (a < next)
    → (q : ℕ) → relinked header p a back next q ≡ link_prev next back header q
relinked-eq header p a back next b bs l behind q =
    link_next-same (link_prev next back header) p a b bs q (elim l [
      | inl e ↦ inl e
      | inr (lt, e) ↦ inr (
        lt,
        (elim behind [
          | inl z ↦ (let t : (next == 0) ≡ true = ground arith in rw t e)
          | inr k ↦
              (let t : (next == 0) ≡ false = ground arith in
                let t' : (p == next) ≡ false = ground arith in rw (t, t') e)
        ]),
      )
    ])

pub first_of_behind :
    (bs : List Block) (a x : ℕ) → a < x → (first_of bs x ≡ 0) ⊎ (a < first_of bs x)
first_of_behind [] a x h = inl refl
first_of_behind (b ∷ bs) a x h = inr h

pub link_prev-first :
    (header : ℕ → Header) (bs : List Block) (x back : ℕ)
    → bs ≢ []
    → 0 < x
    → link_prev (first_of bs x) back header x ≡ record (header x) { prev_ptr = back }
link_prev-first header [] x back h p = absurd (h refl)
link_prev-first header (b ∷ bs) x back h p = ground arith

pub link_prev-other :
    (header : ℕ → Header) (bs : List Block) (x back q : ℕ)
    → q ≢ x
    → link_prev (first_of bs x) back header q ≡ header q
link_prev-other header [] x back q h = refl
link_prev-other header (b ∷ bs) x back q h = ground arith

-- The headers after a split of the free block of `n` bytes at `a`.
abbrev pub split_headers : (header : ℕ → Header) (p a n m : ℕ) → List Block → ℕ → Header
split_headers header p a n m post =
    let next = first_of post (a + (16 + n)) in
    heap_set_header a true (a + (16 + m)) p m (
      heap_set_header (a + (16 + m)) false next a (n - m - 16)
        (relinked header p a (a + (16 + m)) next))

module _ (header : ℕ → Header) (p a n m last stop : ℕ) (post : List Block)
    (l : Linked header p a (free n ∷ post)) where
  relinked-at :
      (q : ℕ)
      → relinked header p a (a + (16 + m)) (first_of post (a + (16 + n))) q
        ≡ link_prev (first_of post (a + (16 + n))) (a + (16 + m)) header q
  relinked-at q =
      relinked-eq header p a (a + (16 + m)) (first_of post (a + (16 + n))) (free n) post l
        (first_of_behind post a (a + (16 + n)) (omega arith)) q

  split_headers-other :
      (q : ℕ)
      → q ≢ a
      → q ≢ a + (16 + m)
      → split_headers header p a n m post q
        ≡ link_prev (first_of post (a + (16 + n))) (a + (16 + m)) header q
  split_headers-other q h k =
      let t : (q == a) ≡ false = ground arith in
      let t' : (q == a + (16 + m)) ≡ false = ground arith in rw (t, t') (relinked-at q)

  pub split_headers-below : (q : ℕ) → q < a → split_headers header p a n m post q ≡ header q
  split_headers-below q lt =
      split_headers-other q (λ e. omega arith) (λ e. omega arith)
      ∙ link_prev-other header post (a + (16 + n)) (a + (16 + m)) q (λ e. omega arith)

  pub split_headers-Row :
      m + 16 ≤ n
      → Row header p a (free n ∷ post) last stop
      → Row
          (split_headers header p a n m post)
          p
          a
          (used m ∷ free (n - m - 16) ∷ post)
          (end_of post (a + (16 + m)) last)
          stop
  split_headers-Row le r =
      split-Row header (split_headers header p a n m post) p a n m last stop post le r
        (ground arith) (ground arith)
        (λ h.
          split_headers-other (a + (16 + n)) (λ e. omega arith) (λ e. omega arith)
          ∙ link_prev-first header post (a + (16 + n)) (a + (16 + m)) h (omega arith))
        (λ q h.
          split_headers-other q (λ e. omega arith) (λ e. omega arith)
          ∙ link_prev-other header post (a + (16 + n)) (a + (16 + m)) q (λ e. omega arith))
