-- ===== src/SortedArrayList/Inv.antt =====
-- The invariant of a sorted list of non-null pointers whose unused slots are null.
use now_os.Base.{
  ℕ, zero, suc, ◌-◌, ◌≤◌, ◌<◌, ◌^◌, ◌≡◌, ◌≢◌, refl, sym, List, replicate, length, length-replicate,
  get_or, arith,
}
use now_os.SortedArrayList.{SortedArrayList, init_sorted_list}

abbrev pub count : SortedArrayList → ℕ
count list = list.curr_size - 1

abbrev pub elem : SortedArrayList → ℕ → ℕ
elem list i = get_or list.arr i 0

pub record IsValid (list : SortedArrayList) : Type 0 where
  pub counted : 1 ≤ list.curr_size
  pub fits : list.curr_size ≤ list.arr_size
  pub storage : list.arr_size ≡ length list.arr
  pub small : list.arr_size < 2 ^ 31
  pub sorted : (i j : ℕ) → i < j → j < count list → elem list i < elem list j
  pub positive : (i : ℕ) → i < count list → 0 < elem list i
  pub cleared : (i : ℕ) → count list ≤ i → elem list i ≡ 0

-- The list holds `x`.
abbrev pub Holds : SortedArrayList → ℕ → Type 0
Holds list x = (i : ℕ) × (i < count list) × (elem list i ≡ x)

abbrev zeros : ℕ → List ℕ
zeros n = replicate n 0

get_or-zeros : (n i : ℕ) → get_or (zeros n) i 0 ≡ 0
get_or-zeros zero i = refl
get_or-zeros (suc n) zero = refl
get_or-zeros (suc n) (suc i) = get_or-zeros n i

-- Over cleared memory `init_sorted_list` makes a valid list that holds nothing.
pub init-IsValid :
    (n : ℕ)
    → 1 ≤ n
    → n < 2 ^ 31
    → IsValid (init_sorted_list (replicate n 0) n)
      × ((x : ℕ) → ¬ Holds (init_sorted_list (replicate n 0) n) x)
unfolding init_sorted_list
init-IsValid n h k = (
  record {
    counted = omega arith;
    fits = h;
    storage = sym (length-replicate n 0);
    small = k;
    sorted = λ i j p q. absurd (omega arith);
    positive = λ i p. absurd (omega arith);
    cleared = λ i p. get_or-zeros n i;
  },
  λ x (i, p, q). omega arith,
)

pub init-room :
    (n : ℕ)
    → 2 ≤ n
    → (init_sorted_list (replicate n 0) n).curr_size ≢ (init_sorted_list (replicate n 0) n).arr_size
unfolding init_sorted_list
init-room n h k = omega arith
