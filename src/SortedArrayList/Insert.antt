-- ===== src/SortedArrayList/Insert.antt =====
-- The slots after an insertion of `item` at `i`, and that the list stays valid.
use now_os.Base.{
  ℕ, ◌+◌, ◌-◌, ◌≤◌, ◌<◌, ◌≡◌, ◌≢◌, ◌⊎◌, ◌↔◌, inl, inr, true, false, sym, ap, ◌∙◌, ltb, leb, List,
  if◌then◌else◌, get_or, set, length-set, get_or-set_self, get_or-set_ne, arith, ◌==◌, u32,
  Bool-cases, pos,
}
use native.Mathlib.Decide.{ℕ_discrete}
use now_os.SortedArrayList.{SortedArrayList, shift_up, insert_item}
use now_os.SortedArrayList.Inv.{IsValid, count, elem, Holds}
use now_os.SortedArrayList.Shift.{length-shift_up, shift_up_out, shift_up_in}
use now_os.SortedArrayList.Find.{Below, Above}

module _ (list : SortedArrayList) (item i : ℕ) (v : IsValid list)
    (room : list.curr_size ≢ list.arr_size) (i_in : i ≤ count list) where
  abbrev grown : List ℕ
  grown = set (shift_up (count list - i) i list.arr) i item

  abbrev pub inserted : SortedArrayList
  inserted = record list { arr = grown; curr_size = list.curr_size + 1 }

  pub insert_item-eq : insert_item item i list ≡ (pos 0, inserted)
  unfolding insert_item
  insert_item-eq =
      let e : (list.curr_size == list.arr_size) ≡ false = ground arith in
      let z : u32 (list.curr_size + 1) ≡ list.curr_size + 1 = omega (arith, v.small, v.fits) in
      rw (e, z)

  grown_at : get_or grown i 0 ≡ item
  grown_at = get_or-set_self (shift_up (count list - i) i list.arr) i item 0 (
      rw (length-shift_up (count list - i) i list.arr)
        (omega (arith, v.storage, v.fits, v.counted)))

  grown_before : (j : ℕ) → j < i → get_or grown j 0 ≡ elem list j
  grown_before j lt =
      get_or-set_ne (shift_up (count list - i) i list.arr) i j item 0 (omega arith)
      ∙ shift_up_out (count list - i) i list.arr j (omega arith)

  grown_after : (j : ℕ) → i < j → j ≤ count list → get_or grown j 0 ≡ elem list (j - 1)
  grown_after j lt le =
      get_or-set_ne (shift_up (count list - i) i list.arr) i j item 0 (omega arith)
      ∙ shift_up_in (count list - i) i list.arr j
          (omega (arith, v.storage, v.fits, v.counted, room)) lt (omega arith)

  grown_beyond : (j : ℕ) → count list < j → get_or grown j 0 ≡ elem list j
  grown_beyond j lt =
      get_or-set_ne (shift_up (count list - i) i list.arr) i j item 0 (omega arith)
      ∙ shift_up_out (count list - i) i list.arr j (omega arith)

  elem-inserted :
      (j : ℕ)
      → elem inserted j ≡ (
          if ltb j i
          then elem list j
          else if j == i
          then item
          else if leb j (count list)
          then elem list (j - 1)
          else elem list j)
  elem-inserted j = elim (Bool-cases (ltb j i)) [
    | inl lt ↦ rw (lt, grown_before j (ground arith))
    | inr ge ↦ rw ge (elim (ℕ_discrete j i) [
      | yes e ↦ let t : (j == i) ≡ true = ground arith in rw (t, e) grown_at
      | no ne ↦
          let t : (j == i) ≡ false = ground arith in
          rw t (elim (Bool-cases (leb j (count list))) [
            | inl le ↦ rw (le, grown_after j (ground arith) (ground arith))
            | inr gt ↦ rw (gt, grown_beyond j (ground arith))
          ])
    ])
  ]

  module _ (positive : 0 < item) (b : Below list item i) (a : Above list item i) where
    inserted-sorted : (j k : ℕ) → j < k → k < count inserted → elem inserted j < elem inserted k
    inserted-sorted j k p q = ground (
      arith,
      elem-inserted j,
      elem-inserted k,
      v.sorted j k,
      v.sorted j (k - 1),
      v.sorted (j - 1) (k - 1),
      b j,
      a (k - 1),
      v.counted,
    )

    pub inserted-IsValid : IsValid inserted
    inserted-IsValid = record {
      counted = omega arith;
      fits = omega (arith, v.fits, room);
      storage =
          v.storage
          ∙ sym (length-shift_up (count list - i) i list.arr)
          ∙ sym (length-set (shift_up (count list - i) i list.arr) i item);
      small = v.small;
      sorted = inserted-sorted;
      positive =
          λ j p. ground (arith, elem-inserted j, v.positive j, v.positive (j - 1), v.counted);
      cleared = λ j p. ground (arith, elem-inserted j, v.cleared j, v.counted);
    }

  pub Holds-inserted : (y : ℕ) → Holds inserted y ↔ ((y ≡ item) ⊎ Holds list y)
  Holds-inserted y = (there, back)
    where
      there : Holds inserted y → (y ≡ item) ⊎ Holds list y
      there (j, lt, e) = elim (Bool-cases (ltb j i)) [
        | inl low ↦ inr (j, ground arith, ground (arith, elem-inserted j))
        | inr high ↦ elim (Bool-cases (j == i)) [
          | inl same ↦ inl (ground (arith, elem-inserted j))
          | inr other ↦
              inr (j - 1, ground (arith, v.counted), ground (arith, elem-inserted j, v.counted))
        ]
      ]

      back : (y ≡ item) ⊎ Holds list y → Holds inserted y
      back (inl e) = (i, omega (arith, v.counted), ground (arith, elem-inserted i))
      back (inr (j, lt, e)) = elim (Bool-cases (ltb j i)) [
        | inl low ↦ (j, omega arith, ground (arith, elem-inserted j))
        | inr high ↦
            let z : j + 1 - 1 ≡ j = omega arith in
            (
              j + 1,
              omega (arith, v.counted),
              ground (arith, elem-inserted (j + 1), v.counted, ap (elem list) z),
            )
      ]
