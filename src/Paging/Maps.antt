-- ===== src/Paging/Maps.antt =====
-- The page tables as a map from pages to frames.
use mathlib.Core.Path.{subst}
use now_os.Base.{
  ℕ, ◌+◌, ◌-◌, ◌*◌, ◌/◌, ◌%◌, ◌^◌, ◌≤◌, ◌<◌, ◌≡◌, ◌≢◌, inl, inr, refl, ap, sym, ◌∙◌, false, ◌&&◌,
  ◌==◌, arith, page_size, kern_virtual_addr, if◌then◌else◌, Bool-cases, some, Returns, Returns-then,
}
use now_os.Paging.{
  Paging, mask10, write, dir_index, tbl_index, new_table, map_page, map_kern_page_flags,
}
use now_os.Paging.Entries.{tbl_entry-frame}
use now_os.Paging.Tables.{leaf, walk, dir_word, IsPaged, walk-table, walk-none, new_table-HasTable}

-- The memory with an entry in table `t`.
abbrev with_entry : Paging → (t k word : ℕ) → Paging
with_entry s t k word = record s { memory = write (t * page_size + k * 4) word s.memory }

module _ (s : Paging) (dir next i t k word : ℕ) (v : IsPaged s dir next) (small : i < 1024)
    (slot : k < 1024) (e : dir_word s i ≡ t * page_size + 3) (after : dir < t) where
  dir_same : (j : ℕ) → j < 1024 → dir_word (with_entry s t k word) j ≡ dir_word s j
  dir_same j q = let d = v.dir_page in ground arith

  with_entry-IsPaged : IsPaged (with_entry s t k word) dir next
  with_entry-IsPaged = record {
    dir_page = v.dir_page;
    next_page = v.next_page;
    below = v.below;
    tables = λ j q. rw (dir_same j q) (v.tables j q);
    apart = λ j m q q' nz same.
        v.apart j m q q' (rw (dir_same j q) at nz) (rw (dir_same j q, dir_same m q') at same);
  }

  absent : (j : ℕ) → dir_word s j ≡ 0 → (j == i) ≡ false
  absent j z = elim (Bool-cases (j == i)) [
    | inl h ↦
        (let at : j ≡ i = ground (arith, h) in
          let z' : dir_word s i ≡ 0 = subst (λ x. dir_word s x ≡ 0) at z in
          absurd (omega (arith, z', e)))
    | inr h ↦ h
  ]

  -- The word that the walk of `u` reads in table `r`.
  read_word :
      (u r : ℕ)
      → dir_index u < 1024
      → dir_word s (dir_index u) ≡ r * page_size + 3
      → (with_entry s t k word).memory (r * page_size + tbl_index u * 4) ≡ (
          if dir_index u == i && tbl_index u == k
          then word
          else s.memory (r * page_size + tbl_index u * 4))
  read_word u r q z = elim (Bool-cases (dir_index u == i)) [
    | inl h ↦
        (let at : dir_index u ≡ i = ground (arith, h) in
          let z' : dir_word s i ≡ r * page_size + 3 =
            subst (λ x. dir_word s x ≡ r * page_size + 3) at z in
          let one : r ≡ t = omega (arith, z', e) in rw (h, one) (ground arith))
    | inr h ↦
        (let two : r ≢ t = λ g.
            let same : dir_word s (dir_index u) ≡ dir_word s i =
              z ∙ ap (λ x. x * page_size + 3) g ∙ sym e in
            ground (arith, h, v.apart (dir_index u) i q small (λ n. omega (arith, n, z)) same) in
          rw h (ground (arith, two)))
  ]

  -- The entry is that of the page with its indices, and of no other.
  pub with_entry-walk :
      (u : ℕ)
      → u < 2 ^ 32
      → walk u (with_entry s t k word)
        ≡ (if dir_index u == i && tbl_index u == k then leaf word u else walk u s)
  with_entry-walk u h =
      let q : dir_index u < 1024 = omega arith in
      elim (v.tables (dir_index u) q) [
        | inl z ↦ rw (absent (dir_index u) z) (
            walk-none u (with_entry s t k word) (dir_same (dir_index u) q ∙ z)
            ∙ sym (walk-none u s z))
        | inr (r, z, lo, hi) ↦
            (let new = walk-table u r (with_entry s t k word) (dir_same (dir_index u) q ∙ z) in
              let old = walk-table u r s z in
              elim (Bool-cases (dir_index u == i && tbl_index u == k)) [
                | inl g ↦
                    (let w = read_word u r q z in
                      let w' : (with_entry s t k word).memory (r * page_size + tbl_index u * 4)
                          ≡ word =
                        rw g at w in
                      rw g (new ∙ ap (λ x. leaf x u) w'))
                | inr g ↦
                    (let w = read_word u r q z in
                      let w' : (with_entry s t k word).memory (r * page_size + tbl_index u * 4)
                          ≡ s.memory (r * page_size + tbl_index u * 4) =
                        rw g at w in
                      rw g (new ∙ ap (λ x. leaf x u) w' ∙ sym old))
              ])
      ]

-- `phys_addr` is where the page of `virtual_addr` is mapped, and other pages are mapped as before.
pub record Mapped (s : Paging) (dir next virtual_addr phys_addr : ℕ) (s' : Paging) : Type 0 where
  pub last : ℕ
  pub grows : last ≤ next + 1
  pub paged : IsPaged s' dir last
  pub walks :
      (u : ℕ)
      → u < 2 ^ 32
      → walk u s' ≡ (
          if u / page_size == virtual_addr / page_size
          then some (phys_addr + u % page_size)
          else walk u s)

-- With a page left on the early heap, mapping a page with any flags returns. The processor then
-- translates the addresses of this page to those of the page at `phys_addr`, and all other
-- addresses as before; the tables stay in order, with one more page of the early heap at most.
pub map_page-Mapped :
    (s : Paging) (dir next virtual_addr phys_addr r p w c : ℕ)
    → IsPaged s dir next
    → kern_virtual_addr + next * page_size + page_size < 2 ^ 32
    → virtual_addr < 2 ^ 32
    → phys_addr % page_size ≡ 0
    → r < 2
    → p < 2
    → w < 2
    → c < 2
    → Returns (map_page virtual_addr phys_addr r p w c s) (Mapped s dir next virtual_addr phys_addr)
unfolding map_page
map_page-Mapped s dir next virtual_addr phys_addr r p w c v room h aligned h1 h2 h3 h4 =
    let i = dir_index virtual_addr in
    let k = tbl_index virtual_addr in
    let small : i < 1024 = omega arith in
    let slot : k < 1024 = omega arith in
    let (low, word, few, odd) = tbl_entry-frame r p w c h1 h2 h3 h4 phys_addr aligned in
    Returns-then (new_table i s) _ _ (new_table-HasTable s dir next i v small room) (λ s1 n.
      let masked : mask10 (dir_word s1 i) ≡ n.table * page_size = rw n.word (omega arith) in
      rw (masked, word)
        (record {
          last = n.last;
          grows = n.grows;
          paged =
              with_entry-IsPaged s1 dir n.last i n.table k (phys_addr + low) n.paged small slot
                n.word n.after;
          walks = λ u q.
              rw
                (
                  with_entry-walk s1 dir n.last i n.table k (phys_addr + low) n.paged small slot
                      n.word n.after u q,
                  n.same u q,
                  present u low few odd,
                  same_page u,
                )
                refl;
        }))
  where
    same_page :
        (u : ℕ)
        → (dir_index u == dir_index virtual_addr && tbl_index u == tbl_index virtual_addr)
          ≡ (u / page_size == virtual_addr / page_size)
    same_page u = ground arith

    present :
        (u low : ℕ)
        → low < 2 ^ 10
        → low % 2 ≡ 1
        → leaf (phys_addr + low) u ≡ some (phys_addr + u % page_size)
    present u low few odd =
        let t : ((phys_addr + low) % 2 == 0) ≡ false = ground arith in
        let f : phys_addr + low - (phys_addr + low) % 2 ^ 12 ≡ phys_addr = omega arith in
        rw (t, f) refl

pub map_kern_page_flags-Mapped :
    (s : Paging) (dir next virtual_addr phys_addr flags : ℕ)
    → IsPaged s dir next
    → kern_virtual_addr + next * page_size + page_size < 2 ^ 32
    → virtual_addr < 2 ^ 32
    → phys_addr % page_size ≡ 0
    → Returns
        (map_kern_page_flags virtual_addr phys_addr flags s)
        (Mapped s dir next virtual_addr phys_addr)
unfolding map_kern_page_flags
map_kern_page_flags-Mapped s dir next virtual_addr phys_addr flags v room h aligned =
    map_page-Mapped s dir next virtual_addr phys_addr (flags % 2) (flags / 2 % 2) (flags / 4 % 2)
      (flags / 8 % 2) v room h aligned (omega arith) (omega arith) (omega arith) (omega arith)
