-- ===== src/SortedArrayList/Set.antt =====
-- The list as a set of pointers: what each public function does to it, on every return.
use now_os.Base.{
  ℕ, ◌+◌, ◌-◌, ◌<◌, ◌≡◌, ◌≢◌, ◌⊎◌, ◌↔◌, inl, inr, true, refl, ap, arith, ◌==◌, ℤ, pos, negsuc, some,
}
use native.Mathlib.Decide.{ℕ_discrete}
use now_os.SortedArrayList.{
  SortedArrayList, Found, at, missing, outside, out_of_fuel, find, search, insert_item, insert_list,
  remove_list, search_list,
}
use now_os.SortedArrayList.Inv.{IsValid, count, elem, Holds}
use now_os.SortedArrayList.Find.{
  Below, Above, Located, Searched, find-Located, search-Searched, not-elem_between,
}
use now_os.SortedArrayList.Insert.{inserted, insert_item-eq, inserted-IsValid, Holds-inserted}
use now_os.SortedArrayList.Remove.{removed, removed-IsValid, Holds-removed}

not-Holds :
    (list : SortedArrayList) (item i : ℕ) (v : IsValid list)
    → 0 < item
    → Below list item i
    → Above list item i
    → ¬ Holds list item
not-Holds list item i v p b a (j, lt, e) = not-elem_between v item p i b a j lt e

insert_item_full :
    (list : SortedArrayList) (item i : ℕ)
    → list.curr_size ≡ list.arr_size
    → some (insert_item item i list) ≡ some (negsuc 0, list)
unfolding insert_item
insert_item_full list item i h =
    let t : (list.curr_size == list.arr_size) ≡ true = ground arith in rw t

-- The outcomes of `insert_list`: already there, full, or added.
pub data Inserted (list : SortedArrayList) (item : ℕ) (r : ℤ) (list' : SortedArrayList)
    : Type 0 where
  exists : r ≡ pos 1 → list' ≡ list → Holds list item → Inserted list item r list'
  full :
      r ≡ negsuc 0
      → list' ≡ list
      → list.curr_size ≡ list.arr_size
      → ¬ Holds list item
      → Inserted list item r list'
  added :
      r ≡ pos 0
      → list.curr_size ≢ list.arr_size
      → ¬ Holds list item
      → ((y : ℕ) → Holds list' y ↔ ((y ≡ item) ⊎ Holds list y))
      → Inserted list item r list'

-- The outcomes of `remove_list`: taken out, or not there.
pub data Removed (list : SortedArrayList) (item : ℕ) (r : ℤ) (list' : SortedArrayList)
    : Type 0 where
  taken :
      r ≡ pos 0
      → Holds list item
      → ((y : ℕ) → Holds list' y ↔ ((y ≢ item) × Holds list y))
      → Removed list item r list'
  absent : r ≡ pos 1 → list' ≡ list → ¬ Holds list item → Removed list item r list'

module _ (list : SortedArrayList) (item : ℕ) (v : IsValid list) (p : 0 < item) where
  located : Located list item (find (list.curr_size + 1) 0 (list.curr_size - 1) item list)
  located =
      find-Located v item p (list.curr_size + 1) 0 (count list) (omega arith) (omega arith)
        (omega arith) (λ j h. elim h [ ]) (λ j h k. absurd (omega arith))

  -- `insert_list` ends, keeps the list valid, and adds the pointer unless it is there or the array
  -- is full, which its return value tells.
  pub insert_list-Inserted :
      (r : ℤ) × (list' : SortedArrayList) × (insert_list item list ≡ some (r, list'))
      × IsValid list'
      × Inserted list item r list'
  unfolding insert_list
  insert_list-Inserted =
      go (find (list.curr_size + 1) 0 (list.curr_size - 1) item list) refl located
    where
      go :
          (f : Found)
          → find (list.curr_size + 1) 0 (list.curr_size - 1) item list ≡ f
          → Located list item f
          → (r : ℤ) × (list' : SortedArrayList) × (insert_list item list ≡ some (r, list'))
            × IsValid list'
            × Inserted list item r list'
      go (at i) e l = (pos 1, list, rw (e, insert_list), v, exists refl refl (i, l.0, l.1))
      go (missing i) e l = elim (ℕ_discrete list.curr_size list.arr_size) [
        | yes no_room ↦ (
          negsuc 0,
          list,
          rw (e, insert_list) (insert_item_full list item i no_room),
          v,
          full refl refl no_room (not-Holds list item i v p l.1 l.2),
        )
        | no room ↦ (
          pos 0,
          inserted list item i v room l.0,
          rw (e, insert_list) (ap some (insert_item-eq list item i v room l.0)),
          inserted-IsValid list item i v room l.0 p l.1 l.2,
          added refl room (not-Holds list item i v p l.1 l.2)
              (Holds-inserted list item i v room l.0),
        )
      ]
      go outside e l = absurd l
      go out_of_fuel e l = absurd l

  -- `remove_list` ends, keeps the list valid, and takes out the pointer if it is there.
  pub remove_list-Removed :
      (r : ℤ) × (list' : SortedArrayList) × (remove_list item list ≡ some (r, list'))
      × IsValid list'
      × Removed list item r list'
  unfolding remove_list
  remove_list-Removed = go (find (list.curr_size + 1) 0 (list.curr_size - 1) item list) refl located
    where
      go :
          (f : Found)
          → find (list.curr_size + 1) 0 (list.curr_size - 1) item list ≡ f
          → Located list item f
          → (r : ℤ) × (list' : SortedArrayList) × (remove_list item list ≡ some (r, list'))
            × IsValid list'
            × Removed list item r list'
      go (at i) e l = (
        pos 0,
        removed list i v l.0,
        rw (e, remove_list) refl,
        removed-IsValid list i v l.0,
        taken refl (i, l.0, l.1) (rw (← l.1) (Holds-removed list i v l.0)),
      )
      go (missing i) e l = (
        pos 1,
        list,
        rw (e, remove_list),
        v,
        absent refl refl (not-Holds list item i v p l.1 l.2),
      )
      go outside e l = absurd l
      go out_of_fuel e l = absurd l

  -- `search_list` ends with the index of the pointer, or with -1 exactly if it is not there.
  pub search_list-Holds :
      (r : ℤ) × (search_list item list ≡ some r)
      × (((i : ℕ) × (r ≡ pos i) × (i < count list) × (elem list i ≡ item))
          ⊎ ((r ≡ negsuc 0) × ¬ Holds list item))
  unfolding search_list
  search_list-Holds = go (search (list.curr_size + 1) 0 (list.curr_size - 1) item list) refl (
      search-Searched v item p (list.curr_size + 1) 0 (count list) (omega arith) (omega arith)
        (omega arith) (λ j h. elim h [ ]) (λ j h k. absurd (omega arith)))
    where
      go :
          (f : Found)
          → search (list.curr_size + 1) 0 (list.curr_size - 1) item list ≡ f
          → Searched list item f
          → (r : ℤ) × (search_list item list ≡ some r)
            × (((i : ℕ) × (r ≡ pos i) × (i < count list) × (elem list i ≡ item))
                ⊎ ((r ≡ negsuc 0) × ¬ Holds list item))
      go (at i) e l = (pos i, rw (e, search_list), inl (i, refl, l.0, l.1))
      go (missing i) e l = (negsuc 0, rw (e, search_list), inr (refl, λ (j, h, q). l j h q))
      go outside e l = (negsuc 0, rw (e, search_list), inr (refl, λ (j, h, q). l j h q))
      go out_of_fuel e l = absurd l
