-- ===== src/Base/Words.antt =====
-- The bits of words of any width, from the digit recursion that the native operations stand for.
use Prim.Native.Nat.{
  ℕ, zero, suc, ◌+◌, ◌-◌, ◌*◌, ◌/◌, ◌%◌, ◌^◌, ◌≤◌, ◌<◌, min, max, bit_and, bit_or, digits,
  bit_and-bitwise, bit_or-bitwise,
}
use mathlib.Core.Path.{◌≡◌, refl, sym, ap, ◌∙◌}
use mathlib.Core.Bool.{true}
use native.Mathlib.Omega.{arith}
use now_os.Base.Tests.{◌==◌, ltb, ==_iff, if◌then◌else◌, Bool-cases}
use mathlib.Core.Logic.{inl, inr}
use now_os.Base.Table.{all_below, all_below_sound}

-- Bit `i` of a word.
unfoldable pub bit : (w i : ℕ) → ℕ
bit w zero = w % 2
bit w (suc i) = bit (w / 2) i

pub bit-lt : (w i : ℕ) → bit w i < 2
unfolding bit
bit-lt w zero = omega arith
bit-lt w (suc i) = bit-lt (w / 2) i

pub bit-zero : (i : ℕ) → bit 0 i ≡ 0
unfolding bit
bit-zero zero = refl
bit-zero (suc i) = bit-zero i

pub bit-pow : (j i : ℕ) → bit (2 ^ j) i ≡ (if i == j then 1 else 0)
unfolding bit
bit-pow zero zero = refl
bit-pow zero (suc i) = ground (arith, bit-zero i)
bit-pow (suc j) zero = let z : 2 ^ suc j % 2 ≡ 0 = omega arith in rw z (ground arith)
bit-pow (suc j) (suc i) =
    let z : 2 ^ suc j / 2 ≡ 2 ^ j = omega arith in rw z (ground (arith, bit-pow j i))

-- Bits above the width of a word are clear.
pub bit_above : (n w i : ℕ) → w < 2 ^ n → n ≤ i → bit w i ≡ 0
unfolding bit
bit_above zero w i h k = let z : w ≡ 0 = omega arith in rw z (bit-zero i)
bit_above (suc n) w zero h k = absurd (omega arith)
bit_above (suc n) w (suc i) h k = bit_above n (w / 2) i (omega arith) (omega arith)

-- Words with the same bits are the same.
ext_fuel : (n a b : ℕ) → a ≤ n → b ≤ n → ((i : ℕ) → bit a i ≡ bit b i) → a ≡ b
unfolding bit
ext_fuel zero a b p q h = omega arith
ext_fuel (suc n) a b p q h =
    let half : a / 2 ≡ b / 2 =
      ext_fuel n (a / 2) (b / 2) (omega arith) (omega arith) (λ i. h (suc i)) in
    omega (arith, h 0, half)

pub bit_ext : (a b : ℕ) → ((i : ℕ) → bit a i ≡ bit b i) → a ≡ b
bit_ext a b h = ext_fuel (a + b) a b (omega arith) (omega arith) h

-- The operations on digits: `z` is what is left when the first word has run out.
module _ (z : ℕ → ℕ) (f : ℕ → ℕ → ℕ) where
  fuel_enough : (n m a b : ℕ) → a ≤ n → a ≤ m → digits z f n a b ≡ digits z f m a b
  fuel_enough zero zero a b p q = refl
  fuel_enough zero (suc m) zero b p q = refl
  fuel_enough (suc n) zero zero b p q = refl
  fuel_enough (suc n) (suc m) zero b p q = refl
  fuel_enough zero m (suc a) b p q = absurd (omega arith)
  fuel_enough (suc n) zero (suc a) b p q = absurd (omega arith)
  fuel_enough (suc n) (suc m) (suc a) b p q =
      ap (λ t. t * 2 + f (suc a % 2) (b % 2))
        (fuel_enough n m (suc a / 2) (b / 2) (omega arith) (omega arith))

  digits_step :
      ((b : ℕ) → z b ≡ z (b / 2) * 2 + f 0 (b % 2))
      → (a b : ℕ) → digits z f a a b ≡ digits z f (a / 2) (a / 2) (b / 2) * 2 + f (a % 2) (b % 2)
  digits_step h zero b = h b
  digits_step h (suc a) b =
      ap (λ t. t * 2 + f (suc a % 2) (b % 2))
        (fuel_enough a (suc a / 2) (suc a / 2) (b / 2) (omega arith) (omega arith))

pub or_step : (a b : ℕ) → bit_or a b ≡ bit_or (a / 2) (b / 2) * 2 + max (a % 2) (b % 2)
or_step a b =
    bit_or-bitwise a b
    ∙ digits_step (λ b. b) max (λ b. omega arith) a b
    ∙ ap (λ t. t * 2 + max (a % 2) (b % 2)) (sym (bit_or-bitwise (a / 2) (b / 2)))

and_step : (a b : ℕ) → bit_and a b ≡ bit_and (a / 2) (b / 2) * 2 + min (a % 2) (b % 2)
and_step a b =
    bit_and-bitwise a b
    ∙ digits_step (λ b. zero) min (λ b. omega arith) a b
    ∙ ap (λ t. t * 2 + min (a % 2) (b % 2)) (sym (bit_and-bitwise (a / 2) (b / 2)))

pub bit-bit_or : (a b i : ℕ) → bit (bit_or a b) i ≡ max (bit a i) (bit b i)
unfolding bit
bit-bit_or a b zero = omega (arith, or_step a b)
bit-bit_or a b (suc i) =
    let half : bit_or a b / 2 ≡ bit_or (a / 2) (b / 2) = omega (arith, or_step a b) in
    rw half (bit-bit_or (a / 2) (b / 2) i)

pub bit-bit_and : (a b i : ℕ) → bit (bit_and a b) i ≡ min (bit a i) (bit b i)
unfolding bit
bit-bit_and a b zero = omega (arith, and_step a b)
bit-bit_and a b (suc i) =
    let half : bit_and a b / 2 ≡ bit_and (a / 2) (b / 2) = omega (arith, and_step a b) in
    rw half (bit-bit_and (a / 2) (b / 2) i)

pub bit_or-lt : (n a b : ℕ) → a < 2 ^ n → b < 2 ^ n → bit_or a b < 2 ^ n
bit_or-lt zero a b p q =
    let ea : a ≡ 0 = omega arith in let eb : b ≡ 0 = omega arith in rw (ea, eb) (omega arith)
bit_or-lt (suc n) a b p q =
    omega (arith, or_step a b, bit_or-lt n (a / 2) (b / 2) (omega arith) (omega arith))

pub bit_and-le : (n a b : ℕ) → a ≤ n → bit_and a b ≤ a
bit_and-le zero a b p =
    let e : a ≡ 0 = omega arith in rw e (omega (arith, and_step 0 b, bit_and-bitwise 0 b))
bit_and-le (suc n) a b p = elim (Bool-cases (a == 0)) [
  | inl e ↦ (let e' : a ≡ 0 = ground arith in rw e' (omega (arith, bit_and-bitwise 0 b)))
  | inr e ↦ omega (arith, and_step a b, bit_and-le n (a / 2) (b / 2) (ground arith))
]

-- What a word with one bit set, or with one of its 32 bits cleared, has.
pub bit-set : (w j i : ℕ) → bit (bit_or w (2 ^ j)) i ≡ (if i == j then 1 else bit w i)
bit-set w j i = ground (arith, bit-bit_or w (2 ^ j) i, bit-pow j i, bit-lt w i)

mask_table :
    all_below 32 (λ j. all_below 32 (λ i. bit (2 ^ 32 - 1 - 2 ^ j) i == (if i == j then 0 else 1)))
    ≡ true
unfolding all_below bit
mask_table = refl

bit-mask : (j i : ℕ) → j < 32 → i < 32 → bit (2 ^ 32 - 1 - 2 ^ j) i ≡ (if i == j then 0 else 1)
bit-mask j i p q =
    let t =
      all_below_sound 32
        (λ j. all_below 32 (λ i. bit (2 ^ 32 - 1 - 2 ^ j) i == (if i == j then 0 else 1))) j
        mask_table p in
    (==_iff (bit (2 ^ 32 - 1 - 2 ^ j) i) (if i == j then 0 else 1)).0
      (all_below_sound 32 (λ i. bit (2 ^ 32 - 1 - 2 ^ j) i == (if i == j then 0 else 1)) i t q)

pub bit-clear :
    (w j i : ℕ)
    → j < 32
    → i < 32
    → bit (bit_and w (2 ^ 32 - 1 - 2 ^ j)) i ≡ (if i == j then 0 else bit w i)
bit-clear w j i p q =
    ground (arith, bit-bit_and w (2 ^ 32 - 1 - 2 ^ j) i, bit-mask j i p q, bit-lt w i)

-- Setting a bit changes nothing exactly if it is set.
pub set_same : (w j : ℕ) → (bit_or w (2 ^ j) == w) ≡ (bit w j == 1)
set_same w j = elim (Bool-cases (bit w j == 1)) [
  | inl e ↦
      (let same : bit_or w (2 ^ j) ≡ w =
          bit_ext (bit_or w (2 ^ j)) w (λ i. ground (arith, bit-set w j i)) in
        rw same (ground arith))
  | inr e ↦ ground (arith, bit-set w j j)
]

-- A test of one bit.
pub test_clear : (w j : ℕ) → (bit_and w (2 ^ j) == 0) ≡ (bit w j == 0)
test_clear w j = elim (Bool-cases (bit w j == 0)) [
  | inl e ↦
      (let none : bit_and w (2 ^ j) ≡ 0 =
          bit_ext (bit_and w (2 ^ j)) 0
            (λ i. ground (arith, bit-bit_and w (2 ^ j) i, bit-pow j i, bit-zero i, bit-lt w i)) in
        rw none (ground arith))
  | inr e ↦
      (let set : bit (bit_and w (2 ^ j)) j ≡ 1 =
          ground (arith, bit-bit_and w (2 ^ j) j, bit-pow j j, bit-lt w j) in
        elim (Bool-cases (bit_and w (2 ^ j) == 0)) [
          | inl z ↦
              (let zero_word : bit_and w (2 ^ j) ≡ 0 = ground (arith, z) in
                absurd (omega (arith, set, ap (λ x. bit x j) zero_word, bit-zero j)))
          | inr z ↦ ground (arith, z, e)
        ])
]

double_pow : (k x : ℕ) → x * 2 ^ suc k ≡ 2 * (x * 2 ^ k)
double_pow k x = grind arith

pub bit_shift : (k x i : ℕ) → bit (x * 2 ^ k) i ≡ (if ltb i k then 0 else bit x (i - k))
unfolding bit
bit_shift zero x i = let e : x * 2 ^ 0 ≡ x = omega arith in rw e (ground arith)
bit_shift (suc k) x zero =
    let e : x * 2 ^ suc k ≡ 2 * (x * 2 ^ k) = double_pow k x in rw e (ground arith)
bit_shift (suc k) x (suc i) =
    let e : x * 2 ^ suc k / 2 ≡ x * 2 ^ k =
      (let d : x * 2 ^ suc k ≡ 2 * (x * 2 ^ k) = grind arith in rw d (omega arith)) in
    rw e (ground (arith, bit_shift k x i))

or_zero : (x : ℕ) → bit_or x 0 ≡ x
or_zero x = bit_ext (bit_or x 0) x (λ i. ground (arith, bit-bit_or x 0 i, bit-zero i))

-- Bits below those of a multiple of a power of two.
pub bit_or_low :
    (k y a b : ℕ) → a < 2 ^ k → b < 2 ^ k → bit_or (y * 2 ^ k + a) b ≡ y * 2 ^ k + bit_or a b
bit_or_low zero y a b p q =
    let ea : a ≡ 0 = omega arith in
    let eb : b ≡ 0 = omega arith in
    let plus : y * 2 ^ 0 + 0 ≡ y * 2 ^ 0 = omega arith in rw (ea, eb, plus) (or_zero (y * 2 ^ 0))
bit_or_low (suc k) y a b p q =
    let double : y * 2 ^ suc k ≡ 2 * (y * 2 ^ k) = double_pow k y in
    let e : (2 * (y * 2 ^ k) + a) / 2 ≡ y * 2 ^ k + a / 2 = omega arith in
    let l = or_step (2 * (y * 2 ^ k) + a) b in
    let l' : bit_or (2 * (y * 2 ^ k) + a) b
        ≡ bit_or (y * 2 ^ k + a / 2) (b / 2) * 2 + max ((2 * (y * 2 ^ k) + a) % 2) (b % 2) =
      rw e at l in
    rw double
      (omega (arith, l', or_step a b, bit_or_low k y (a / 2) (b / 2) (omega arith) (omega arith)))
