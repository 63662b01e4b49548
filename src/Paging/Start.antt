-- ===== src/Paging/Start.antt =====
-- The map that `init_kern_paging` sets up.
use now_os.Base.{
  ℕ, zero, suc, ◌+◌, ◌-◌, ◌*◌, ◌/◌, ◌%◌, ◌^◌, ◌≤◌, ◌<◌, ◌≡◌, inl, inr, refl, ◌∙◌, true, false, ◌&&◌,
  ◌==◌, arith, ltb, leb, page_size, kern_virtual_addr, if◌then◌else◌, Bool-cases, Option, none,
  some, ok, Returns, Returns-then, Returns-weaken, u32,
}
use now_os.Paging.{
  Paging, clear_page, map_kern_page, map_range, init_kern_paging, early_kmalloc_pages,
}
use now_os.Paging.Tables.{walk, walk-none, dir_word, IsPaged, early_page}
use now_os.Paging.Maps.{Mapped, map_page-Mapped}

-- `count` pages from `virtual_addr` on are mapped to those from `phys_addr` on.
record RangeMapped (s : Paging) (dir next count virtual_addr phys_addr : ℕ) (s' : Paging)
    : Type 0 where
  last : ℕ
  grows : last ≤ next + count
  paged : IsPaged s' dir last
  walks :
      (u : ℕ)
      → u < 2 ^ 32
      → walk u s' ≡ (
          if leb virtual_addr u && ltb u (virtual_addr + count * page_size)
          then some (phys_addr + (u - virtual_addr))
          else walk u s)

one_page :
    (s : Paging) (dir next virtual_addr phys_addr : ℕ)
    → IsPaged s dir next
    → kern_virtual_addr + next * page_size + page_size < 2 ^ 32
    → virtual_addr < 2 ^ 32
    → phys_addr % page_size ≡ 0
    → Returns (map_kern_page virtual_addr phys_addr s) (Mapped s dir next virtual_addr phys_addr)
unfolding map_kern_page
one_page s dir next virtual_addr phys_addr v room h a =
    map_page-Mapped s dir next virtual_addr phys_addr 1 0 0 0 v room h a (omega arith) (omega arith)
      (omega arith) (omega arith)

pub first_page :
    (u : ℕ)
    → u < 2 ^ 32
    → (n virtual_addr phys_addr : ℕ) (s s1 : Paging) → virtual_addr % page_size ≡ 0
    → walk u s1 ≡ (
        if u / page_size == virtual_addr / page_size
        then some (phys_addr + u % page_size)
        else walk u s)
    → (if leb (virtual_addr + page_size) u && ltb u (virtual_addr + page_size + n * page_size)
        then some (phys_addr + page_size + (u - (virtual_addr + page_size)))
        else walk u s1)
      ≡ (if leb virtual_addr u && ltb u (virtual_addr + suc n * page_size)
          then some (phys_addr + (u - virtual_addr))
          else walk u s)
first_page u q n virtual_addr phys_addr s s1 av w =
    elim (Bool-cases (u / page_size == virtual_addr / page_size)) [
      | inl e ↦
          (let w' : walk u s1 ≡ some (phys_addr + u % page_size) = rw e at w in
            let out : (leb (virtual_addr + page_size) u
                  && ltb u (virtual_addr + page_size + n * page_size))
                ≡ false =
              ground (arith, e) in
            let inside : (leb virtual_addr u && ltb u (virtual_addr + suc n * page_size)) ≡ true =
              ground (arith, e) in
            let same : phys_addr + u % page_size ≡ phys_addr + (u - virtual_addr) =
              ground (arith, e) in
            rw (out, inside, w', same) refl)
      | inr e ↦
          (let w' : walk u s1 ≡ walk u s = rw e at w in
            elim (Bool-cases (
              leb (virtual_addr + page_size) u
              && ltb u (virtual_addr + page_size + n * page_size))) [
                | inl g ↦
                    (let inside : (leb virtual_addr u && ltb u (virtual_addr + suc n * page_size))
                          ≡ true =
                        ground (arith, g) in
                      let same : phys_addr + page_size + (u - (virtual_addr + page_size))
                          ≡ phys_addr + (u - virtual_addr) =
                        ground (arith, g) in
                      rw (g, inside, same) refl)
                | inr g ↦
                    (let outside : (leb virtual_addr u && ltb u (virtual_addr + suc n * page_size))
                          ≡ false =
                        ground (arith, g, e) in
                      rw (g, outside) w')
              ])
    ]

range-Mapped :
    (count : ℕ) (s : Paging) (dir next virtual_addr phys_addr : ℕ)
    → IsPaged s dir next
    → kern_virtual_addr + (next + count) * page_size < 2 ^ 32
    → virtual_addr + count * page_size < 2 ^ 32
    → virtual_addr % page_size ≡ 0
    → phys_addr % page_size ≡ 0
    → Returns
        (map_range count virtual_addr phys_addr s)
        (RangeMapped s dir next count virtual_addr phys_addr)
unfolding map_range
range-Mapped zero s dir next virtual_addr phys_addr v room h av aligned = record {
  last = next;
  grows = omega arith;
  paged = v;
  walks = λ u q. ground arith;
}
range-Mapped (suc n) s dir next virtual_addr phys_addr v room h av aligned =
    Returns-then (map_kern_page virtual_addr phys_addr s) _ _
      (one_page s dir next virtual_addr phys_addr v (omega arith) (omega arith) aligned)
      (λ s1 m.
        let step : u32 (virtual_addr + page_size) ≡ virtual_addr + page_size = omega arith in
        rw step (
          Returns-weaken (map_range n (virtual_addr + page_size) (phys_addr + page_size) s1) _ _
            (range-Mapped n s1 dir m.last (virtual_addr + page_size) (phys_addr + page_size) m.paged
              (omega (arith, m.grows)) (omega arith) (omega arith) (omega arith))
            (λ s2 r. record {
              last = r.last;
              grows = omega (arith, r.grows, m.grows);
              paged = r.paged;
              walks = λ u q.
                  r.walks u q ∙ first_page u q n virtual_addr phys_addr s s1 av (m.walks u q);
            })))

-- The new directory, which is empty.
abbrev pub empty : Paging → (dir : ℕ) → Paging
empty s dir = record {
  memory = clear_page (dir * page_size) s.memory;
  kernel_dir = dir * page_size;
  early_heap_ptr = kern_virtual_addr + suc dir * page_size;
}

pub empty-IsPaged : (s : Paging) (dir : ℕ) → IsPaged (empty s dir) dir (suc dir)
empty-IsPaged s dir = record {
  dir_page = refl;
  next_page = refl;
  below = omega arith;
  tables = λ i h. inl (no_entry i h);
  apart = λ i j h k nz e. absurd (nz (no_entry i h));
}
  where
    no_entry : (i : ℕ) → i < 1024 → dir_word (empty s dir) i ≡ 0
    no_entry i h = ground arith

empty-walk : (s : Paging) (dir u : ℕ) → u < 2 ^ 32 → walk u (empty s dir) ≡ none
empty-walk s dir u h = walk-none u (empty s dir) (ground arith)

both_ranges :
    (u : ℕ) (low none_yet : Option ℕ)
    → low ≡ (if leb 0 u && ltb u (0 + 512 * page_size) then some (0 + (u - 0)) else none_yet)
    → none_yet ≡ none
    → (if leb kern_virtual_addr u && ltb u (kern_virtual_addr + 1536 * page_size)
        then some (0 + (u - kern_virtual_addr))
        else low)
      ≡ (if ltb u 0x20_0000
          then some u
          else if leb kern_virtual_addr u && ltb u (kern_virtual_addr + 0x60_0000)
          then some (u - kern_virtual_addr)
          else none)
both_ranges u low none_yet e n = elim (Bool-cases (ltb u 0x20_0000)) [
  | inl h ↦
      (let inside : (leb 0 u && ltb u (0 + 512 * page_size)) ≡ true = ground (arith, h) in
        let under : (leb kern_virtual_addr u && ltb u (kern_virtual_addr + 1536 * page_size))
            ≡ false =
          ground (arith, h) in
        let plain : 0 + (u - 0) ≡ u = omega arith in
        let e' : low ≡ some (0 + (u - 0)) = rw inside at e in rw (under, h, e', plain) refl)
  | inr h ↦
      (let outside : (leb 0 u && ltb u (0 + 512 * page_size)) ≡ false = ground (arith, h) in
        let e' : low ≡ none_yet = rw outside at e in
        let plain : 0 + (u - kern_virtual_addr) ≡ u - kern_virtual_addr = omega arith in
        rw (h, e', n, plain) refl)
]

-- When the early heap goes on at page `dir` behind `KERN_VIRTUAL_ADDR` and has room for 2049 pages,
-- `init_kern_paging` returns. The directory is page `dir`. The first two megabytes are then translated to
-- themselves, six megabytes from `KERN_VIRTUAL_ADDR` on to the first six of memory, and every
-- other address faults.
pub init-maps :
    (s : Paging) (dir : ℕ)
    → s.early_heap_ptr ≡ kern_virtual_addr + dir * page_size
    → kern_virtual_addr + (dir + 2049) * page_size < 2 ^ 32
    → Returns (init_kern_paging s) (λ s'.
      (last : ℕ) × IsPaged s' dir last
      × ((u : ℕ)
          → u < 2 ^ 32
          → walk u s' ≡ (
              if ltb u 0x20_0000
              then some u
              else if leb kern_virtual_addr u && ltb u (kern_virtual_addr + 0x60_0000)
              then some (u - kern_virtual_addr)
              else none)))
unfolding init_kern_paging
init-maps s dir at room =
    let early : early_kmalloc_pages 1 s.early_heap_ptr
        ≡ ok (dir * page_size, kern_virtual_addr + suc dir * page_size) =
      rw at (early_page dir (omega arith)) in
    rw early (
      Returns-then (map_range 512 0 0 (empty s dir)) _ _
        (range-Mapped 512 (empty s dir) dir (suc dir) 0 0 (empty-IsPaged s dir) (omega arith)
          (omega arith) (omega arith) (omega arith))
        (λ s1 m.
          Returns-weaken (map_range 1536 kern_virtual_addr 0 s1) _ _
            (range-Mapped 1536 s1 dir m.last kern_virtual_addr 0 m.paged (omega (arith, m.grows))
              (omega arith) (omega arith) (omega arith))
            (λ s2 r. (
              r.last,
              r.paged,
              λ u q.
                  r.walks u q
                  ∙ both_ranges u (walk u s1) (walk u (empty s dir)) (m.walks u q)
                      (empty-walk s dir u q),
            ))))
