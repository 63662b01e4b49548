-- ===== src/SortedArrayList/Tests.antt =====
-- klib/sorted_array_list.c on a list of two items.
use now_os.Base.{
  ℕ, zero, suc, ◌≤◌, ◌<◌, ◌≡◌, ◌⊎◌, refl, [], ◌∷◌, some, arith, ℤ, pos, negsuc, replicate,
}
use now_os.SortedArrayList.{
  SortedArrayList, init_sorted_list, insert_list, remove_list, search_list,
}
use now_os.SortedArrayList.Inv.{IsValid, elem, Holds, init-IsValid}
use now_os.SortedArrayList.Set.{
  Inserted, Removed, insert_list-Inserted, remove_list-Removed, search_list-Holds,
}

abbrev two : SortedArrayList
two = record { arr = 10 ∷ 30 ∷ 0 ∷ 0 ∷ []; arr_size = 4; curr_size = 3; lock = 0 }

two-sorted : (i j : ℕ) → i < j → j < 2 → elem two i < elem two j
two-sorted zero zero p q = absurd (omega arith)
two-sorted zero (suc zero) p q = omega arith
two-sorted zero (suc (suc j)) p q = absurd (omega arith)
two-sorted (suc i) j p q = absurd (omega arith)

two-positive : (i : ℕ) → i < 2 → 0 < elem two i
two-positive zero p = omega arith
two-positive (suc zero) p = omega arith
two-positive (suc (suc i)) p = absurd (omega arith)

two-cleared : (i : ℕ) → 2 ≤ i → elem two i ≡ 0
two-cleared zero p = absurd (omega arith)
two-cleared (suc zero) p = absurd (omega arith)
two-cleared (suc (suc zero)) p = refl
two-cleared (suc (suc (suc zero))) p = refl
two-cleared (suc (suc (suc (suc i)))) p = refl

two-IsValid : IsValid two
two-IsValid = record {
  counted = omega arith;
  fits = omega arith;
  storage = refl;
  small = omega arith;
  sorted = two-sorted;
  positive = two-positive;
  cleared = two-cleared;
}

insert_between :
    insert_list 20 two
    ≡ some (pos 0, record { arr = 10 ∷ 20 ∷ 30 ∷ 0 ∷ []; arr_size = 4; curr_size = 4; lock = 0 })
unfolding insert_list
insert_between = refl

remove_first :
    remove_list 10 two
    ≡ some (pos 0, record { arr = 30 ∷ 0 ∷ 0 ∷ 0 ∷ []; arr_size = 4; curr_size = 2; lock = 0 })
unfolding remove_list
remove_first = refl

-- The left end of `search_list` goes below zero, and the probe leaves the array.
search_below : search_list 5 two ≡ some (negsuc 0)
unfolding search_list
search_below = refl

init-IsValid_list_example :
    IsValid (init_sorted_list (replicate 4 0) 4)
    × ((x : ℕ) → ¬ Holds (init_sorted_list (replicate 4 0) 4) x)
init-IsValid_list_example = init-IsValid 4 (omega arith) (omega arith)

insert_list-Inserted_example :
    (r : ℤ) × (list' : SortedArrayList) × (insert_list 20 two ≡ some (r, list'))
    × IsValid list'
    × Inserted two 20 r list'
insert_list-Inserted_example = insert_list-Inserted two 20 two-IsValid (omega arith)

remove_list-Removed_example :
    (r : ℤ) × (list' : SortedArrayList) × (remove_list 10 two ≡ some (r, list'))
    × IsValid list'
    × Removed two 10 r list'
remove_list-Removed_example = remove_list-Removed two 10 two-IsValid (omega arith)

search_list-Holds_example :
    (r : ℤ) × (search_list 5 two ≡ some r)
    × (((i : ℕ) × (r ≡ pos i) × (i < 2) × (elem two i ≡ 5)) ⊎ ((r ≡ negsuc 0) × ¬ Holds two 5))
search_list-Holds_example = search_list-Holds two 5 two-IsValid (omega arith)
