-- ===== src/SortedArrayList/Room.antt =====
-- What `remove_list` and `insert_list` do for a caller that knows whether the pointer is there: the
-- room that a removal makes is enough for an insertion.
use now_os.Base.{
  ℕ, ◌+◌, ◌-◌, ◌<◌, ◌≡◌, ◌≢◌, ◌⊎◌, ◌↔◌, refl, arith, Option, ℤ, pos, negsuc, some, none,
}
use now_os.SortedArrayList.{
  SortedArrayList, Found, at, missing, outside, out_of_fuel, find, insert_list, remove_item,
  remove_list,
}
use now_os.SortedArrayList.Inv.{IsValid, Holds}
use now_os.SortedArrayList.Set.{
  Inserted, exists, full, added, Removed, taken, absent, insert_list-Inserted, remove_list-Removed,
}

removed_size :
    (list list' : SortedArrayList) (item : ℕ)
    → remove_list item list ≡ some (pos 0, list')
    → (list'.curr_size ≡ list.curr_size - 1) × (list'.arr_size ≡ list.arr_size)
unfolding remove_list remove_item
removed_size list list' item e =
    go (find (list.curr_size + 1) 0 (list.curr_size - 1) item list) refl
  where
    go :
        (f : Found)
        → find (list.curr_size + 1) 0 (list.curr_size - 1) item list ≡ f
        → (list'.curr_size ≡ list.curr_size - 1) × (list'.arr_size ≡ list.arr_size)
    go (at i) q =
        let k : some (pos 0, remove_item i list) ≡ some (pos 0, list') = rw (remove_list, q) at e in
        ground arith
    go (missing i) q =
        let k : some (pos 1, list) ≡ some (pos 0, list') = rw (remove_list, q) at e in
        absurd (ground arith)
    go outside q =
        let k : some (negsuc 0, list) ≡ some (pos 0, list') = rw (remove_list, q) at e in
        absurd (ground arith)
    go out_of_fuel q =
        let k : ◌≡◌ {A = Option (ℤ × SortedArrayList)} none (some (pos 0, list')) =
          rw (remove_list, q) at e in
        absurd (ground arith)

-- The list after the removal of `item`.
pub record Without (list : SortedArrayList) (item : ℕ) : Type 0 where
  pub rest : SortedArrayList
  pub run : remove_list item list ≡ some (pos 0, rest)
  pub valid : IsValid rest
  pub room : rest.curr_size ≢ rest.arr_size
  pub holds : (y : ℕ) → Holds rest y ↔ ((y ≢ item) × Holds list y)

pub remove_list-Without :
    (list : SortedArrayList) (item : ℕ)
    → IsValid list
    → 0 < item
    → Holds list item
    → Without list item
remove_list-Without list item v p there = go (remove_list-Removed list item v p)
  where
    go :
        (r : ℤ) × (list' : SortedArrayList) × (remove_list item list ≡ some (r, list'))
          × IsValid list'
          × Removed list item r list'
        → Without list item
    go (r, list', e, v', taken z h iff) =
        let e' : remove_list item list ≡ some (pos 0, list') = rw z at e in
        let s = removed_size list list' item e' in
        record {
          rest = list';
          run = e';
          valid = v';
          room = λ k. omega (arith, s.0, s.1, v.fits, v.counted);
          holds = iff;
        }
    go (r, list', e, v', absent z same out) = absurd (out there)

-- The list after the insertion of `item`.
pub record With (list : SortedArrayList) (item : ℕ) : Type 0 where
  pub more : SortedArrayList
  pub run : insert_list item list ≡ some (pos 0, more)
  pub valid : IsValid more
  pub holds : (y : ℕ) → Holds more y ↔ ((y ≡ item) ⊎ Holds list y)

pub insert_list-With :
    (list : SortedArrayList) (item : ℕ)
    → IsValid list
    → 0 < item
    → ¬ Holds list item
    → list.curr_size ≢ list.arr_size
    → With list item
insert_list-With list item v p out room = go (insert_list-Inserted list item v p)
  where
    go :
        (r : ℤ) × (list' : SortedArrayList) × (insert_list item list ≡ some (r, list'))
          × IsValid list'
          × Inserted list item r list'
        → With list item
    go (r, list', e, v', exists z same h) = absurd (out h)
    go (r, list', e, v', full z same h k) = absurd (room h)
    go (r, list', e, v', added z h k iff) = record {
      more = list';
      run = rw z at e;
      valid = v';
      holds = iff;
    }

-- Removing a pointer that is not there changes nothing.
pub remove_list-same :
    (list : SortedArrayList) (item : ℕ)
    → IsValid list
    → 0 < item
    → ¬ Holds list item
    → (r : ℤ) × (remove_list item list ≡ some (r, list))
remove_list-same list item v p out = go (remove_list-Removed list item v p)
  where
    go :
        (r : ℤ) × (list' : SortedArrayList) × (remove_list item list ≡ some (r, list'))
          × IsValid list'
          × Removed list item r list'
        → (r : ℤ) × (remove_list item list ≡ some (r, list))
    go (r, list', e, v', taken z h iff) = absurd (out h)
    go (r, list', e, v', absent z same h) = (r, rw same at e)
