-- ===== src/SortedArrayList/Remove.antt =====
-- The slots after the removal of the item at `i`, and that the list stays valid.
use now_os.Base.{
  ℕ, ◌+◌, ◌-◌, ◌<◌, ◌≡◌, ◌≢◌, ◌↔◌, inl, inr, refl, sym, ap, ◌∙◌, ltb, List, if◌then◌else◌, arith,
  ◌==◌, Bool-cases,
}
use now_os.SortedArrayList.{SortedArrayList, shift_down, remove_item}
use now_os.SortedArrayList.Inv.{IsValid, count, elem, Holds}
use now_os.SortedArrayList.Shift.{length-shift_down, shift_down_out, shift_down_in}

module _ (list : SortedArrayList) (i : ℕ) (v : IsValid list) (i_in : i < count list) where
  abbrev shrunk : List ℕ
  shrunk = shift_down (count list - i) i list.arr

  abbrev pub removed : SortedArrayList
  removed = record list { arr = shrunk; curr_size = list.curr_size - 1 }

  pub remove_item-eq : remove_item i list ≡ removed
  unfolding remove_item
  remove_item-eq = refl

  elem-removed :
      (j : ℕ)
      → elem removed j ≡ (
          if ltb j i
          then elem list j
          else if ltb j (count list)
          then elem list (j + 1)
          else elem list j)
  elem-removed j = elim (Bool-cases (ltb j i)) [
    | inl lt ↦ rw (lt, shift_down_out (count list - i) i list.arr j (ground arith))
    | inr ge ↦ rw ge (elim (Bool-cases (ltb j (count list))) [
      | inl lt ↦ rw (
        lt,
        shift_down_in (count list - i) i list.arr j (omega (arith, v.storage, v.fits, v.counted))
            (ground arith) (ground arith),
      )
      | inr out ↦ rw (out, shift_down_out (count list - i) i list.arr j (ground arith))
    ])
  ]

  removed-sorted : (j k : ℕ) → j < k → k < count removed → elem removed j < elem removed k
  removed-sorted j k p q = ground (
    arith,
    elem-removed j,
    elem-removed k,
    v.sorted j k,
    v.sorted j (k + 1),
    v.sorted (j + 1) (k + 1),
    v.counted,
  )

  pub removed-IsValid : IsValid removed
  removed-IsValid = record {
    counted = omega (arith, v.counted);
    fits = omega (arith, v.fits);
    storage = v.storage ∙ sym (length-shift_down (count list - i) i list.arr);
    small = v.small;
    sorted = removed-sorted;
    positive = λ j p. ground (arith, elem-removed j, v.positive j, v.positive (j + 1), v.counted);
    cleared = λ j p. ground (arith, elem-removed j, v.cleared j, v.cleared (j + 1), v.counted);
  }

  -- No two items are equal.
  elem-injective : (j : ℕ) → j < count list → elem list j ≡ elem list i → j ≡ i
  elem-injective j lt e = ground (arith, v.sorted i j, v.sorted j i)

  pub Holds-removed : (y : ℕ) → Holds removed y ↔ ((y ≢ elem list i) × Holds list y)
  Holds-removed y = (there, back)
    where
      there : Holds removed y → (y ≢ elem list i) × Holds list y
      there (j, lt, e) = elim (Bool-cases (ltb j i)) [
        | inl low ↦ (
          λ q. ground (arith, elem-removed j, elem-injective j),
          (j, omega arith, ground (arith, elem-removed j)),
        )
        | inr high ↦ (
          λ q. ground (arith, elem-removed j, elem-injective (j + 1)),
          (j + 1, omega arith, ground (arith, elem-removed j)),
        )
      ]

      back : (y ≢ elem list i) × Holds list y → Holds removed y
      back (ne, (j, lt, e)) = elim (Bool-cases (ltb j i)) [
        | inl low ↦ (j, ground arith, ground (arith, elem-removed j))
        | inr high ↦ elim (Bool-cases (j == i)) [
          | inl same ↦ absurd (ne (ground arith))
          | inr other ↦
              let z : j - 1 + 1 ≡ j = ground arith in
              (j - 1, ground arith, ground (arith, elem-removed (j - 1), ap (elem list) z))
        ]
      ]
