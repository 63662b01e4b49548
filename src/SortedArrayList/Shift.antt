-- ===== src/SortedArrayList/Shift.antt =====
-- What the two shifting loops make of each slot.
use now_os.Base.{
  ℕ, zero, suc, ◌+◌, ◌-◌, ◌≤◌, ◌<◌, ◌≡◌, ◌⊎◌, refl, ap, ◌∙◌, List, get_or, set, length, length-set,
  get_or-set_self, get_or-set_ne, arith,
}
use native.Mathlib.Decide.{ℕ_discrete}
use now_os.SortedArrayList.{shift_up, shift_down}

pub length-shift_up : (n index : ℕ) (arr : List ℕ) → length (shift_up n index arr) ≡ length arr
unfolding shift_up
length-shift_up zero index arr = refl
length-shift_up (suc n) index arr =
    length-shift_up n index (set arr (index + suc n) (get_or arr (index + n) 0))
    ∙ length-set arr (index + suc n) (get_or arr (index + n) 0)

pub length-shift_down : (n index : ℕ) (arr : List ℕ) → length (shift_down n index arr) ≡ length arr
unfolding shift_down
length-shift_down zero index arr = refl
length-shift_down (suc n) index arr =
    length-shift_down n (index + 1) (set arr index (get_or arr (index + 1) 0))
    ∙ length-set arr index (get_or arr (index + 1) 0)

pub shift_up_out :
    (n index : ℕ) (arr : List ℕ) (j : ℕ)
    → (j ≤ index) ⊎ (index + n < j)
    → get_or (shift_up n index arr) j 0 ≡ get_or arr j 0
unfolding shift_up
shift_up_out zero index arr j h = refl
shift_up_out (suc n) index arr j h =
    shift_up_out n index (set arr (index + suc n) (get_or arr (index + n) 0)) j (omega arith)
    ∙ get_or-set_ne arr (index + suc n) j (get_or arr (index + n) 0) 0 (omega arith)

pub shift_up_in :
    (n index : ℕ) (arr : List ℕ) (j : ℕ)
    → index + n < length arr
    → index < j
    → j ≤ index + n
    → get_or (shift_up n index arr) j 0 ≡ get_or arr (j - 1) 0
unfolding shift_up
shift_up_in zero index arr j h p q = absurd (omega arith)
shift_up_in (suc n) index arr j h p q = elim (ℕ_discrete j (index + suc n)) [
  | yes e ↦
      let d : index + n ≡ j - 1 = omega arith in
      shift_up_out n index (set arr (index + suc n) v) j (omega arith)
      ∙ rw e (get_or-set_self arr (index + suc n) v 0 h)
      ∙ ap (λ k. get_or arr k 0) d
  | no ne ↦
      shift_up_in n index (set arr (index + suc n) v) j
        (rw (length-set arr (index + suc n) v) (omega arith)) p (omega arith)
      ∙ get_or-set_ne arr (index + suc n) (j - 1) v 0 (omega arith)
]
  where
    v : ℕ
    v = get_or arr (index + n) 0

pub shift_down_out :
    (n index : ℕ) (arr : List ℕ) (j : ℕ)
    → (j < index) ⊎ (index + n ≤ j)
    → get_or (shift_down n index arr) j 0 ≡ get_or arr j 0
unfolding shift_down
shift_down_out zero index arr j h = refl
shift_down_out (suc n) index arr j h =
    shift_down_out n (index + 1) (set arr index (get_or arr (index + 1) 0)) j (omega arith)
    ∙ get_or-set_ne arr index j (get_or arr (index + 1) 0) 0 (omega arith)

pub shift_down_in :
    (n index : ℕ) (arr : List ℕ) (j : ℕ)
    → index + n ≤ length arr
    → index ≤ j
    → j < index + n
    → get_or (shift_down n index arr) j 0 ≡ get_or arr (j + 1) 0
unfolding shift_down
shift_down_in zero index arr j h p q = absurd (omega arith)
shift_down_in (suc n) index arr j h p q = elim (ℕ_discrete j index) [
  | yes e ↦
      shift_down_out n (index + 1) (set arr index v) j (omega arith)
      ∙ rw e (get_or-set_self arr index v 0 (omega arith))
  | no ne ↦
      shift_down_in n (index + 1) (set arr index v) j (rw (length-set arr index v) (omega arith))
        (omega arith) (omega arith)
      ∙ get_or-set_ne arr index (j + 1) v 0 (omega arith)
]
  where
    v : ℕ
    v = get_or arr (index + 1) 0
