-- ===== src/Kheap/Alloc/Merge.antt =====
-- Rows of blocks after the writes of `heap_merge_left` and `heap_merge_right`: of two free blocks that
-- stand behind one another, the first takes the second.
use now_os.Base.{ℕ, ◌+◌, ◌<◌, ◌≡◌, ◌≢◌, refl, sym, ap, ◌∙◌, false, List, [], ◌∷◌, ◌++◌, arith, ◌==◌}
use now_os.Kheap.{Header, link_prev, heap_set_header}
use now_os.Kheap.Blocks.{
  Block, free, span, first_of, header_of, Row, Row-behind, Row-replace, At, Linked,
}
use now_os.Kheap.Alloc.Relink.{
  end_of, relinked, relinked-eq, first_of_behind, link_prev-first, link_prev-other,
}

-- The headers after a free block of `n` bytes at `a` takes the next one.
abbrev pub merged_headers : (header : ℕ → Header) (p a n next : ℕ) → ℕ → Header
merged_headers header p a n next = heap_set_header a false next p n (relinked header p a a next)

module _ (header : ℕ → Header) (p a n k last stop : ℕ) (post : List Block)
    (l : Linked header p a (free n ∷ free k ∷ post)) where
  abbrev size : ℕ
  size = n + 16 + k

  abbrev next : ℕ
  next = first_of post (a + (16 + size))

  merged_headers-other :
      (q : ℕ) → q ≢ a → merged_headers header p a size next q ≡ link_prev next a header q
  merged_headers-other q h =
      let t : (q == a) ≡ false = ground arith in
      rw t (
        relinked-eq header p a a next (free n) (free k ∷ post) l
          (first_of_behind post a (a + (16 + size)) (omega arith)) q)

  pub merged_headers-below : (q : ℕ) → q < a → merged_headers header p a size next q ≡ header q
  merged_headers-below q lt =
      merged_headers-other q (λ e. omega arith)
      ∙ link_prev-other header post (a + (16 + size)) a q (λ e. omega arith)

merged-Row :
    (header header' : ℕ → Header) (p a n k last stop : ℕ) (post : List Block)
    → Row header p a (free n ∷ free k ∷ post) last stop
    → header' a ≡ header_of (free (n + 16 + k)) (first_of post (a + (16 + (n + 16 + k)))) p
    → (post ≢ []
        → header' (a + (16 + (n + 16 + k)))
          ≡ record (header (a + (16 + (n + 16 + k)))) { prev_ptr = a })
    → ((q : ℕ) → a + (16 + (n + 16 + k)) < q → header' q ≡ header q)
    → Row header' p a (free (n + 16 + k) ∷ post) (end_of post a last) stop
merged-Row header header' p a n k last stop [] r e f same = (e, (omega (arith, r.1.1.0), refl))
merged-Row header header' p a n k last stop (b ∷ post) r e f same =
    let z : a + (16 + n) + (16 + k) ≡ a + (16 + (n + 16 + k)) = omega arith in
    (
      e,
      Row-behind header header' (a + (16 + n)) a (a + (16 + (n + 16 + k))) last stop b post
          (rw z at r.1.1) (f (λ q. cc)) same,
    )

-- In a row, the first of two free blocks behind one another takes the second.
pub merge-Row :
    (header : ℕ → Header) (prev start last stop : ℕ) (pre : List Block) (n k : ℕ)
    (post : List Block)
    → Row header prev start (pre ++ free n ∷ free k ∷ post) last stop
    → (at : At header (start + span pre) last stop (free n ∷ free k ∷ post))
    → Row
        (merged_headers header at.before
          (start + span pre)
          (n + 16 + k)
          (first_of post (start + span pre + (16 + (n + 16 + k)))))
        prev
        start
        (pre ++ free (n + 16 + k) ∷ post)
        (end_of post (start + span pre) last)
        stop
merge-Row header prev start last stop pre n k post r at =
    let a : ℕ = start + span pre in
    let next : ℕ = first_of post (a + (16 + (n + 16 + k))) in
    let header' : ℕ → Header = merged_headers header at.before a (n + 16 + k) next in
    Row-replace header header' prev start last (end_of post a last) stop pre (free n)
      (free k ∷ post) (free (n + 16 + k)) post r a refl
      (merged_headers-below header at.before a n k last stop post at.linked)
      (λ p q.
        let e : at.before ≡ p = ap Header.prev_ptr (sym at.here.0 ∙ q.0) in
        rw (← e) (
          merged-Row header header' at.before a n k last stop post at.here (ground arith)
            (λ h.
              merged_headers-other header at.before a n k last stop post at.linked
                (a + (16 + (n + 16 + k))) (λ e. omega arith)
              ∙ link_prev-first header post (a + (16 + (n + 16 + k))) a h (omega arith))
            (λ q h.
              merged_headers-other header at.before a n k last stop post at.linked q
                (λ e. omega arith)
              ∙ link_prev-other header post (a + (16 + (n + 16 + k))) a q (λ e. omega arith))))
