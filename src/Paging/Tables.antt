-- ===== src/Paging/Tables.antt =====
-- The tables behind the directory, and what a new one changes.
use mathlib.Core.Path.{subst}
use now_os.Base.{
  ℕ, suc, ◌+◌, ◌-◌, ◌*◌, ◌%◌, ◌^◌, ◌≤◌, ◌<◌, ◌≡◌, ◌≢◌, ◌⊎◌, inl, inr, refl, ap, sym, ◌∙◌, true,
  false, ◌==◌, arith, page_size, is_aligned, kern_virtual_addr, if◌then◌else◌, Bool-cases, Option,
  none, some, ok, Returns, u32, sub32,
}
use now_os.Paging.{
  Paging, early_kmalloc_pages, write, clear_page, page_dir_entry, dir_index, tbl_index, new_table,
}
use now_os.Paging.Entries.{dir_entry-frame}

-- The processor's walk: the address that a virtual address is translated to, `none` for a page fault.
abbrev pub leaf : (pte u : ℕ) → Option ℕ
leaf pte u = if pte % 2 == 0 then none else some (pte - pte % 2 ^ 12 + u % 2 ^ 12)

abbrev pub walk : (u : ℕ) → Paging → Option ℕ
walk u s =
    let pde = s.memory (s.kernel_dir + dir_index u * 4) in
    if pde % 2 == 0 then none else leaf (s.memory (pde - pde % 2 ^ 12 + tbl_index u * 4)) u

-- The entry of the directory for the addresses of number `i`.
abbrev pub dir_word : Paging → (i : ℕ) → ℕ
dir_word s i = s.memory (s.kernel_dir + i * 4)

-- The directory is page `dir` of memory, and each table is another page between it and page `next`, where
-- the early heap goes on. No two entries of the directory share a table.
pub record IsPaged (s : Paging) (dir next : ℕ) : Type 0 where
  pub dir_page : s.kernel_dir ≡ dir * page_size
  pub next_page : s.early_heap_ptr ≡ kern_virtual_addr + next * page_size
  pub below : dir < next
  pub tables :
      (i : ℕ)
      → i < 1024
      → (dir_word s i ≡ 0) ⊎ ((t : ℕ) × (dir_word s i ≡ t * page_size + 3) × (dir < t) × (t < next))
  pub apart :
      (i j : ℕ) → i < 1024 → j < 1024 → dir_word s i ≢ 0 → dir_word s i ≡ dir_word s j → i ≡ j

pub walk-table :
    (u t : ℕ) (s : Paging)
    → dir_word s (dir_index u) ≡ t * page_size + 3
    → walk u s ≡ leaf (s.memory (t * page_size + tbl_index u * 4)) u
walk-table u t s e =
    let odd : ((t * page_size + 3) % 2 == 0) ≡ false = ground arith in
    let frame : t * page_size + 3 - (t * page_size + 3) % 2 ^ 12 ≡ t * page_size = omega arith in
    rw (e, odd, frame) refl

pub walk-none : (u : ℕ) (s : Paging) → dir_word s (dir_index u) ≡ 0 → walk u s ≡ none
walk-none u s e = rw e refl

-- A page of the early heap.
pub early_page :
    (next : ℕ)
    → kern_virtual_addr + next * page_size + page_size < 2 ^ 32
    → early_kmalloc_pages 1 (kern_virtual_addr + next * page_size)
      ≡ ok (next * page_size, kern_virtual_addr + suc next * page_size)
unfolding early_kmalloc_pages
early_page next room =
    let a : is_aligned (kern_virtual_addr + next * page_size) page_size ≡ true = ground arith in
    let b : sub32 (kern_virtual_addr + next * page_size) kern_virtual_addr ≡ next * page_size =
      omega arith in
    let c : u32 (kern_virtual_addr + next * page_size + 1 * page_size)
        ≡ kern_virtual_addr + suc next * page_size =
      omega arith in
    rw (a, a, b, c) refl

-- What `new_table` leaves: entry `i` has a table, and every address is translated as before.
pub record HasTable (s : Paging) (dir next i : ℕ) (s' : Paging) : Type 0 where
  pub last : ℕ
  pub grows : last ≤ next + 1
  pub paged : IsPaged s' dir last
  pub table : ℕ
  pub word : dir_word s' i ≡ table * page_size + 3
  pub after : dir < table
  pub same : (u : ℕ) → u < 2 ^ 32 → walk u s' ≡ walk u s

-- The memory with a new table.
abbrev with_table : Paging → (next i : ℕ) → Paging
with_table s next i = record s {
  memory =
      write (s.kernel_dir + i * 4) (next * page_size + 3) (clear_page (next * page_size) s.memory);
  early_heap_ptr = kern_virtual_addr + suc next * page_size;
}

module _ (s : Paging) (dir next i : ℕ) (v : IsPaged s dir next) (small : i < 1024)
    (e : dir_word s i ≡ 0) where
  word_kept :
      (a : ℕ)
      → a ≢ s.kernel_dir + i * 4
      → a < next * page_size
      → (with_table s next i).memory a ≡ s.memory a
  word_kept a other low = ground arith

  dir_kept : (j : ℕ) → j < 1024 → j ≢ i → dir_word (with_table s next i) j ≡ dir_word s j
  dir_kept j k other =
      let d = v.dir_page in
      let b = v.below in
      word_kept (s.kernel_dir + j * 4) (λ h. other (omega (arith, h))) (omega arith)

  dir_new : dir_word (with_table s next i) i ≡ next * page_size + 3
  dir_new = ground arith

  new_word :
      (j : ℕ)
      → j < 1024
      → ((j ≡ i) × (dir_word (with_table s next i) j ≡ next * page_size + 3))
        ⊎ ((j ≢ i) × (dir_word (with_table s next i) j ≡ dir_word s j))
  new_word j k = elim (Bool-cases (j == i)) [
    | inl h ↦ (let at : j ≡ i = ground (arith, h) in inl (at, rw at dir_new))
    | inr h ↦ (let other : j ≢ i = ground (arith, h) in inr (other, dir_kept j k other))
  ]

  old_small : (j : ℕ) → j < 1024 → dir_word s j ≢ next * page_size + 3
  old_small j k h = elim (v.tables j k) [
    | inl z ↦ absurd (omega (arith, z, h))
    | inr (t, z, lo, hi) ↦ absurd (omega (arith, z, h, hi))
  ]

  with_table-IsPaged : IsPaged (with_table s next i) dir (suc next)
  with_table-IsPaged = record {
    dir_page = v.dir_page;
    next_page = refl;
    below = let b = v.below in omega arith;
    tables = λ j k. elim (new_word j k) [
      | inl (at, z) ↦ inr (next, z, v.below, omega arith)
      | inr (other, z) ↦ elim (v.tables j k) [
        | inl y ↦ inl (z ∙ y)
        | inr (t, y, lo, hi) ↦ inr (t, z ∙ y, lo, omega (arith, hi))
      ]
    ];
    apart = λ j m k k' nz same. elim (new_word j k) [
      | inl (at, z) ↦ elim (new_word m k') [
        | inl (at', z') ↦ at ∙ sym at'
        | inr (other', z') ↦ absurd (old_small m k' (sym z' ∙ sym same ∙ z))
      ]
      | inr (other, z) ↦ elim (new_word m k') [
        | inl (at', z') ↦ absurd (old_small j k (sym z ∙ same ∙ z'))
        | inr (other', z') ↦ v.apart j m k k' (λ h. nz (z ∙ h)) (sym z ∙ same ∙ z')
      ]
    ];
  }

  with_table-walk : (u : ℕ) → u < 2 ^ 32 → walk u (with_table s next i) ≡ walk u s
  with_table-walk u h =
      let k : dir_index u < 1024 = omega arith in
      let d = v.dir_page in
      let b = v.below in
      elim (new_word (dir_index u) k) [
        | inl (at, z) ↦
            (let cleared : (with_table s next i).memory (next * page_size + tbl_index u * 4) ≡ 0 =
                ground arith in
              walk-table u next (with_table s next i) z
              ∙ rw cleared refl
              ∙ sym (walk-none u s (rw at e)))
        | inr (other, z) ↦ elim (v.tables (dir_index u) k) [
          | inl y ↦ walk-none u (with_table s next i) (z ∙ y) ∙ sym (walk-none u s y)
          | inr (t, y, lo, hi) ↦
              (let kept : (with_table s next i).memory (t * page_size + tbl_index u * 4)
                    ≡ s.memory (t * page_size + tbl_index u * 4) =
                  word_kept (t * page_size + tbl_index u * 4) (λ q. omega (arith, q, lo))
                    (omega (arith, hi)) in
                walk-table u t (with_table s next i) (z ∙ y)
                ∙ ap (λ p. leaf p u) kept
                ∙ sym (walk-table u t s y))
        ]
      ]

  new_page : HasTable s dir next i (with_table s next i)
  new_page = record {
    last = suc next;
    grows = omega arith;
    paged = with_table-IsPaged;
    table = next;
    word = dir_new;
    after = v.below;
    same = with_table-walk;
  }

pub new_table-HasTable :
    (s : Paging) (dir next i : ℕ)
    → IsPaged s dir next
    → i < 1024
    → kern_virtual_addr + next * page_size + page_size < 2 ^ 32
    → Returns (new_table i s) (HasTable s dir next i)
unfolding new_table
new_table-HasTable s dir next i v small room = elim (v.tables i small) [
  | inr (t, e, lo, hi) ↦
      (let some_table : (dir_word s i == 0) ≡ false = ground (arith, e) in
        rw some_table (record {
          last = next;
          grows = omega arith;
          paged = v;
          table = t;
          word = e;
          after = lo;
          same = λ u h. refl;
        }))
  | inl e ↦
      (let no_table : (dir_word s i == 0) ≡ true = ground (arith, e) in
        let d = v.dir_page in
        let b = v.below in
        let nonzero : page_dir_entry (next * page_size) 1 0 0 0 0 ≡ next * page_size + 3 =
          dir_entry-frame (next * page_size) (omega arith) in
        let early : early_kmalloc_pages 1 s.early_heap_ptr
            ≡ ok (next * page_size, kern_virtual_addr + suc next * page_size) =
          subst
            (λ p.
              early_kmalloc_pages 1 p
              ≡ ok (next * page_size, kern_virtual_addr + suc next * page_size))
            (sym v.next_page) (early_page next room) in
        rw (no_table, early, nonzero) (new_page s dir next i v small e))
]
