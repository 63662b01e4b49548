-- ===== src/SortedArrayList.antt =====
-- klib/sorted_array_list.c: a sorted array of pointers with binary search. `curr_size` is one more
-- than the number of items. The array is a list of `arr_size` words; a read or write out of its
-- range does not occur in a valid list, and reads as 0 and writes nothing here. `curr_size` starts at
-- 1, and `remove_item` runs only on an item that was found, so `curr_size - 1` does not wrap.
mod Tests
pub mod Inv
pub mod Shift
pub mod Find
pub mod Insert
pub mod Remove
pub mod Set
pub mod Room
use now_os.Base.{
  ℕ, zero, suc, ◌+◌, ◌-◌, ◌/◌, ◌^◌, ◌%◌, List, Bool, true, false, ltb, ◌==◌, if◌then◌else◌, ℤ, pos,
  negsuc, u32, get_or, set, Option, none, some,
}

pub record SortedArrayList : Type 0 where
  pub arr : List ℕ
  pub arr_size : ℕ
  pub curr_size : ℕ
  pub lock : ℕ

-- `array` is the memory at `arr_ptr`.
unfoldable pub init_sorted_list : (array : List ℕ) → (array_size : ℕ) → SortedArrayList
init_sorted_list array array_size = record {
  arr = array;
  arr_size = array_size;
  curr_size = 1;
  lock = 0;
}

-- `for (i = from; i > index; i--) arr[i] = arr[i - 1];`, in `from - index` rounds.
pub shift_up : (rounds index : ℕ) → List ℕ → List ℕ
shift_up zero index arr = arr
shift_up (suc n) index arr = shift_up n index (set arr (index + suc n) (get_or arr (index + n) 0))

-- `for (i = index; i < end; i++) arr[i] = arr[i + 1];`, in `end - index` rounds.
pub shift_down : (rounds index : ℕ) → List ℕ → List ℕ
shift_down zero index arr = arr
shift_down (suc n) index arr = shift_down n (index + 1) (set arr index (get_or arr (index + 1) 0))

pub insert_item : (item index : ℕ) → SortedArrayList → ℤ × SortedArrayList
unfolding shift_up
insert_item item index list = if list.curr_size == list.arr_size then (negsuc 0, list) else (
  pos 0,
  record list {
    arr = set (shift_up (list.curr_size - 1 - index) index list.arr) index item;
    curr_size = u32 (list.curr_size + 1);
  },
)

pub remove_item : (index : ℕ) → SortedArrayList → SortedArrayList
unfolding shift_down
remove_item index list = record list {
  arr = shift_down (list.curr_size - 1 - index) index list.arr;
  curr_size = list.curr_size - 1;
}

-- `l + (r - l) / 2` on `unsigned int`.
abbrev pub middle : (l r : ℕ) → ℕ
middle l r = u32 (l + u32 (r + 2 ^ 32 - l) / 2)

-- Where a search ended.
pub data Found : Type 0 where
  at : ℕ → Found
  missing : ℕ → Found
  outside : Found
  out_of_fuel : Found

-- The loop that `insert_list` and `remove_list` share: `at i` is its first return, `missing i` the
-- return under `l == r`, `outside` the exit by the loop's test.
pub find : (fuel l r item : ℕ) → SortedArrayList → Found
find zero l r item list = out_of_fuel
find (suc f) l r item list =
    let i = middle l r in
    let a = get_or list.arr i 0 in
    let left = find f l i item list in
    let right = find f (i + 1) r item list in
    if ltb i list.arr_size
    then (if item == a
        then at i
        else if l == r
        then missing i
        else if ltb item a
        then left
        else right)
    else outside

-- The loop of `search_list`, whose left half ends at `curr_index - 1`, which wraps at 0.
pub search : (fuel l r item : ℕ) → SortedArrayList → Found
search zero l r item list = out_of_fuel
search (suc f) l r item list =
    let i = middle l r in
    let a = get_or list.arr i 0 in
    let left = search f l (u32 (i + 2 ^ 32 - 1)) item list in
    let right = search f (u32 (i + 1)) r item list in
    if ltb i list.arr_size
    then (if item == a
        then at i
        else if l == r
        then missing i
        else if ltb item a
        then left
        else right)
    else outside

-- `none` is a search that used up its fuel.
pub search_list : (item : ℕ) → SortedArrayList → Option ℤ
unfolding search
search_list item list = elim (search (list.curr_size + 1) 0 (list.curr_size - 1) item list) [
  | at i ↦ some (pos i)
  | missing i ↦ some (negsuc 0)
  | outside ↦ some (negsuc 0)
  | out_of_fuel ↦ none
]

unfoldable pub insert_list : (item : ℕ) → SortedArrayList → Option (ℤ × SortedArrayList)
unfolding find insert_item
insert_list item list = elim (find (list.curr_size + 1) 0 (list.curr_size - 1) item list) [
  | at i ↦ some (pos 1, list)
  | missing i ↦ some (insert_item item i list)
  | outside ↦ some (negsuc 0, list)
  | out_of_fuel ↦ none
]

unfoldable pub remove_list : (item : ℕ) → SortedArrayList → Option (ℤ × SortedArrayList)
unfolding find remove_item
remove_list item list = elim (find (list.curr_size + 1) 0 (list.curr_size - 1) item list) [
  | at i ↦ some (pos 0, remove_item i list)
  | missing i ↦ some (pos 1, list)
  | outside ↦ some (negsuc 0, list)
  | out_of_fuel ↦ none
]
