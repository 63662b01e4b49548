-- ===== src/ByteIndexList/Bits.antt =====
-- The bits of a byte under the operations of the bitmap, from tables over all bytes.
use now_os.Base.{
  ℕ, ◌<◌, ◌≡◌, ◌≢◌, refl, Bool, true, ◌&&◌, not, ==_iff, Option, none, some, ltb, ◌==◌,
  if◌then◌else◌, all_below, all_below_sound, arith,
}
use now_os.ByteIndexList.{set_bit, clear_bit, get_bit, first_clear}

-- For one byte and two bit numbers: what setting and clearing the first does to the second.
bits_ok : (x i j : ℕ) → Bool
bits_ok x i j =
    (get_bit (set_bit x i) j == (if i == j then 1 else get_bit x j))
    && (get_bit (clear_bit x i) j == (if i == j then 0 else get_bit x j))
    && ltb (set_bit x i) 256
    && ltb (clear_bit x i) 256
    && ltb (get_bit x j) 2

bits_table : all_below 256 (λ x. all_below 8 (λ i. all_below 8 (λ j. bits_ok x i j))) ≡ true
unfolding bits_ok all_below
bits_table = refl

bits-ok : (x i j : ℕ) → x < 256 → i < 8 → j < 8 → bits_ok x i j ≡ true
bits-ok x i j p q r =
    all_below_sound 8 (λ k. bits_ok x i k) j
      (all_below_sound 8 (λ k. all_below 8 (λ l. bits_ok x k l)) i
        (all_below_sound 256 (λ y. all_below 8 (λ k. all_below 8 (λ l. bits_ok y k l))) x bits_table
          p)
        q)
      r

module _ (x i j : ℕ) (p : x < 256) (q : i < 8) (r : j < 8) where
  pub get_bit-set_bit : get_bit (set_bit x i) j ≡ (if i == j then 1 else get_bit x j)
  unfolding bits_ok
  get_bit-set_bit = ground (arith, bits-ok x i j p q r)

  pub get_bit-clear_bit : get_bit (clear_bit x i) j ≡ (if i == j then 0 else get_bit x j)
  unfolding bits_ok
  get_bit-clear_bit = ground (arith, bits-ok x i j p q r)

pub set_bit-lt : (x i : ℕ) → x < 256 → i < 8 → set_bit x i < 256
unfolding bits_ok
set_bit-lt x i p q = ground (arith, bits-ok x i 0 p q (omega arith))

pub clear_bit-lt : (x i : ℕ) → x < 256 → i < 8 → clear_bit x i < 256
unfolding bits_ok
clear_bit-lt x i p q = ground (arith, bits-ok x i 0 p q (omega arith))

pub get_bit-lt : (x j : ℕ) → x < 256 → j < 8 → get_bit x j < 2
unfolding bits_ok
get_bit-lt x j p q = ground (arith, bits-ok x 0 j p (omega arith) q)

-- For a byte: the loop of `byte_index_get_free_slot` finds its lowest clear bit, if it is not full.
first_clear_ok : (x : ℕ) → Bool
first_clear_ok x = elim (first_clear 8 0 x) [
  | none ↦ x == 0xFF
  | some b ↦ ltb b 8 && (get_bit x b == 0) && all_below b (λ j. get_bit x j == 1) && not (x == 0xFF)
]

first_clear_table : all_below 256 first_clear_ok ≡ true
unfolding first_clear_ok first_clear all_below
first_clear_table = refl

-- The lowest clear bit of a byte that is not full.
pub record IsFirstClear (x b : ℕ) : Type 0 where
  pub small : b < 8
  pub clear : get_bit x b ≡ 0
  pub lowest : (j : ℕ) → j < b → get_bit x j ≡ 1

first_clear_found :
    (x : ℕ)
    → x ≢ 0xFF
    → (o : Option ℕ) → first_clear 8 0 x ≡ o
    → first_clear_ok x ≡ true
    → (b : ℕ) × (first_clear 8 0 x ≡ some b) × IsFirstClear x b
unfolding first_clear_ok
first_clear_found x h none e t = absurd (h ((==_iff x 0xFF).0 (rw (e, first_clear_ok) at t)))
first_clear_found x h (some b) e t =
    let used : ℕ → Bool = λ j. get_bit x j == 1 in
    let t' : (ltb b 8 && (get_bit x b == 0) && all_below b used && not (x == 0xFF)) ≡ true =
      rw (e, first_clear_ok) at t in
    (
      b,
      e,
      record {
        small = ground arith;
        clear = ground arith;
        lowest = λ j lt. (==_iff (get_bit x j) 1).0 (all_below_sound b used j (ground arith) lt);
      },
    )

full_table : all_below 8 (λ j. get_bit 0xFF j == 1) ≡ true
unfolding all_below
full_table = refl

pub first_clear-IsFirstClear :
    (x : ℕ) → x < 256 → x ≢ 0xFF → (b : ℕ) × (first_clear 8 0 x ≡ some b) × IsFirstClear x b
first_clear-IsFirstClear x p h =
    first_clear_found x h (first_clear 8 0 x) refl
      (all_below_sound 256 first_clear_ok x first_clear_table p)

pub full-get_bit : (j : ℕ) → j < 8 → get_bit 0xFF j ≡ 1
full-get_bit j h =
    (==_iff (get_bit 0xFF j) 1).0 (all_below_sound 8 (λ k. get_bit 0xFF k == 1) j full_table h)

stays_full_table : all_below 8 (λ j. set_bit 0xFF j == 0xFF) ≡ true
unfolding all_below
stays_full_table = refl

pub set_bit_full : (j : ℕ) → j < 8 → set_bit 0xFF j ≡ 0xFF
set_bit_full j h =
    (==_iff (set_bit 0xFF j) 0xFF).0
      (all_below_sound 8 (λ k. set_bit 0xFF k == 0xFF) j stays_full_table h)
