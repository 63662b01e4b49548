-- ===== src/SortedArrayList/Find.antt =====
-- The two binary searches end, and where.
use now_os.Base.{
  ℕ, zero, suc, ◌+◌, ◌-◌, ◌/◌, ◌^◌, ◌≤◌, ◌<◌, ◌≡◌, ◌≢◌, inl, inr, true, false, refl, ltb, arith,
  ◌==◌, u32, Bool-cases,
}
use now_os.SortedArrayList.{
  SortedArrayList, Found, at, missing, outside, out_of_fuel, middle, find, search,
}
use now_os.SortedArrayList.Inv.{IsValid, count, elem}

-- All items before `i` are below `item`.
abbrev pub Below : SortedArrayList → (item i : ℕ) → Type 0
Below list item i = (j : ℕ) → j < i → elem list j < item

-- All items from `i` on are above `item`.
abbrev pub Above : SortedArrayList → (item i : ℕ) → Type 0
Above list item i = (j : ℕ) → i ≤ j → j < count list → item < elem list j

abbrev pub Located : SortedArrayList → (item : ℕ) → Found → Type 0
Located list item (at i) = (i < count list) × (elem list i ≡ item)
Located list item (missing i) = (i ≤ count list) × Below list item i × Above list item i
Located list item outside = ⊥
Located list item out_of_fuel = ⊥

-- What a search for a value says of the list.
abbrev pub Searched : SortedArrayList → (item : ℕ) → Found → Type 0
Searched list item (at i) = (i < count list) × (elem list i ≡ item)
Searched list item (missing i) = (j : ℕ) → j < count list → elem list j ≢ item
Searched list item outside = (j : ℕ) → j < count list → elem list j ≢ item
Searched list item out_of_fuel = ⊥

middle_lem : (l r : ℕ) → l ≤ r → r < 2 ^ 31 → middle l r ≡ l + (r - l) / 2
middle_lem l r h k = omega arith

module _ {list : SortedArrayList} (v : IsValid list) (item : ℕ) (pos : 0 < item) where
  -- What the probe at `i` says of the items before and after it.
  Below-probe : (i : ℕ) → i < count list → elem list i < item → Below list item (i + 1)
  Below-probe i lt h j q = elim (Bool-cases (j == i)) [
    | inl e ↦ ground arith
    | inr e ↦ ground (arith, v.sorted j i (ground arith) lt)
  ]

  Above-probe : (i : ℕ) → item < elem list i → Above list item i
  Above-probe i h j q lt = elim (Bool-cases (j == i)) [
    | inl e ↦ ground arith
    | inr e ↦ ground (arith, v.sorted i j (ground arith) lt)
  ]

  -- A probe that finds the item finds one of the list: the unused slots are null.
  probe-in : (i : ℕ) → elem list i ≡ item → i < count list
  probe-in i e = elim (Bool-cases (ltb i (count list))) [
    | inl h ↦ ground arith
    | inr h ↦ absurd (ground (arith, v.cleared i))
  ]

  pub find-Located :
      (fuel l r : ℕ)
      → l ≤ r
      → r ≤ count list
      → r - l < fuel
      → Below list item l
      → Above list item r
      → Located list item (find fuel l r item list)
  unfolding find
  find-Located zero l r h k f b a = absurd (omega arith)
  find-Located (suc f) l r h k fuel b a =
      let i : ℕ = middle l r in
      let mid : i ≡ l + (r - l) / 2 =
        middle_lem l r h (omega (arith, v.small, v.fits, v.counted)) in
      let inside : ltb i list.arr_size ≡ true = ground (arith, mid, v.fits, v.counted) in
      rw inside (elim (Bool-cases (item == elem list i)) [
        | inl e ↦ let e' : elem list i ≡ item = ground arith in rw e (probe-in i e', e')
        | inr ne ↦ rw ne (elim (Bool-cases (l == r)) [
          | inl e ↦
              let z : i ≡ l = ground arith in
              let z' : i ≡ r = ground arith in rw e (ground arith, rw z b, rw z' a)
          | inr far ↦ rw far (elim (Bool-cases (ltb item (elem list i))) [
            | inl lt ↦ rw lt (
                find-Located f l i (ground arith) (ground arith) (ground arith) b
                  (Above-probe i (ground arith)))
            | inr ge ↦ rw ge (
                find-Located f (i + 1) r (ground arith) k (ground arith)
                  (Below-probe i (ground arith) (ground arith)) a)
          ])
        ])
      ])

  pub not-elem_between :
      (i : ℕ)
      → Below list item i
      → Above list item i
      → (j : ℕ) → j < count list
      → elem list j ≢ item
  not-elem_between i b a j lt e = elim (Bool-cases (ltb j i)) [
    | inl h ↦ ground (arith, b j (ground arith))
    | inr h ↦ ground (arith, a j (ground arith))
  ]

  -- Once the right end has passed the left one, the probe leaves the array.
  search_crossed :
      (f l r : ℕ)
      → l ≤ count list
      → u32 (r + 2 ^ 32 - l) ≡ 2 ^ 32 - 1
      → 0 < f
      → search f l r item list ≡ outside
  unfolding search
  search_crossed zero l r h e p = absurd (omega arith)
  search_crossed (suc f) l r h e p =
      let out : ltb (middle l r) list.arr_size ≡ false =
        ground (arith, v.small, v.fits, v.counted) in
      rw out refl

  -- `search f` is right between any ends that have not crossed.
  abbrev SearchedBelow : (fuel : ℕ) → Type 0
  SearchedBelow fuel =
      (l r : ℕ)
      → l ≤ r
      → r ≤ count list
      → r - l < fuel
      → Below list item l
      → Above list item (r + 1)
      → Searched list item (search fuel l r item list)

  pub search-Searched :
      (fuel l r : ℕ)
      → l ≤ r
      → r ≤ count list
      → r - l < fuel
      → Below list item l
      → Above list item (r + 1)
      → Searched list item (search fuel l r item list)
  unfolding search
  search-Searched zero l r h k f b a = absurd (omega arith)
  search-Searched (suc f) l r h k fuel b a =
      let i : ℕ = middle l r in
      let mid : i ≡ l + (r - l) / 2 =
        middle_lem l r h (omega (arith, v.small, v.fits, v.counted)) in
      let inside : ltb i list.arr_size ≡ true = ground (arith, mid, v.fits, v.counted) in
      rw inside (elim (Bool-cases (item == elem list i)) [
        | inl e ↦ let e' : elem list i ≡ item = ground arith in rw e (probe-in i e', e')
        | inr ne ↦ rw ne (elim (Bool-cases (l == r)) [
          | inl e ↦ rw e (only i (ground arith) (ground arith) ne)
          | inr far ↦ rw far (elim (Bool-cases (ltb item (elem list i))) [
            | inl lt ↦
                rw lt (to_left (search-Searched f) i (ground arith) (ground arith) (ground arith))
            | inr ge ↦ rw ge (to_right (search-Searched f) i mid (ground arith) (ground arith))
          ])
        ])
      ])
    where
      only :
          (i : ℕ)
          → i ≡ l
          → l ≡ r
          → (item == elem list i) ≡ false
          → (j : ℕ) → j < count list
          → elem list j ≢ item
      only i e e' ne j lt q = elim (Bool-cases (j == i)) [
        | inl same ↦ ground arith
        | inr other ↦ elim (Bool-cases (ltb j l)) [
          | inl low ↦ ground (arith, b j (ground arith))
          | inr high ↦ ground (arith, a j (ground arith))
        ]
      ]

      to_left :
          SearchedBelow f
          → (i : ℕ) → l ≤ i
          → i < r
          → item < elem list i
          → Searched list item (search f l (u32 (i + 2 ^ 32 - 1)) item list)
      to_left rec i p q lt = elim (Bool-cases (ltb l i)) [
        | inl more ↦
            let w : u32 (i + 2 ^ 32 - 1) ≡ i - 1 = ground (arith, v.small, v.fits, v.counted) in
            let z : i - 1 + 1 ≡ i = ground arith in
            rw w (
              rec l (i - 1) (ground arith) (omega arith) (ground arith) b (rw z (Above-probe i lt)))
        | inr last ↦
            let w : u32 (u32 (i + 2 ^ 32 - 1) + 2 ^ 32 - l) ≡ 2 ^ 32 - 1 =
              ground (arith, v.small, v.fits, v.counted) in
            let z : l ≡ i = ground arith in
            rw (search_crossed f l (u32 (i + 2 ^ 32 - 1)) (omega arith) w (omega arith))
              (not-elem_between l b (rw z (Above-probe i lt)))
      ]

      to_right :
          SearchedBelow f
          → (i : ℕ) → i ≡ l + (r - l) / 2
          → l < r
          → elem list i < item
          → Searched list item (search f (u32 (i + 1)) r item list)
      to_right rec i e q ge =
          let w : u32 (i + 1) ≡ i + 1 = omega (arith, v.small, v.fits, v.counted) in
          rw w (rec (i + 1) r (omega arith) k (omega arith) (Below-probe i (omega arith) ge) a)
