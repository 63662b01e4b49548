-- ===== src/SharedPool/Bitmap.antt =====
-- The bit map as a set of taken entries.
use now_os.Base.{
  ℕ, ◌+◌, ◌-◌, ◌*◌, ◌/◌, ◌%◌, ◌^◌, ◌≤◌, ◌<◌, ◌≡◌, refl, true, arith, ◌==◌, if◌then◌else◌,
  Bool-cases, inl, inr, ap, ltb, ltb→lt, ==_iff, all_below, all_below_sound, bit, bit-set,
  bit-clear, bit_or-lt, bit_and-le,
}
use Prim.Native.Nat.{bit_and, bit_or}
use now_os.SharedPool.{SharedPool, max_int, write_word}

pow_table : all_below 32 (λ i. ltb (2 ^ i) (2 ^ 32)) ≡ true
unfolding all_below
pow_table = refl

pow_small : (i : ℕ) → i < 32 → 2 ^ i < 2 ^ 32
pow_small i small =
    ltb→lt (2 ^ i) (2 ^ 32) (all_below_sound 32 (λ i. ltb (2 ^ i) (2 ^ 32)) i pow_table small)

-- 1 for a taken entry and 0 for a free one.
unfoldable pub slot : SharedPool → ℕ → ℕ
slot pool k = bit (pool.free_list (k / 32)) (k % 32)

-- The pool after entry `k` is taken, and after it is given back.
unfoldable pub claim : (k : ℕ) → SharedPool → SharedPool
claim k pool = write_word (k / 32) (bit_or (pool.free_list (k / 32)) (2 ^ (k % 32))) pool

unfoldable pub give_back : (k : ℕ) → SharedPool → SharedPool
give_back k pool =
    write_word (k / 32) (bit_and (pool.free_list (k / 32)) (2 ^ 32 - 1 - 2 ^ (k % 32))) pool

slot-write_word :
    (pool : SharedPool) (i word m : ℕ)
    → slot (write_word i word pool) m ≡ (if m / 32 == i then bit word (m % 32) else slot pool m)
unfolding slot
slot-write_word pool i word m = elim (Bool-cases (m / 32 == i)) [
  | inl e ↦ rw (e) refl
  | inr e ↦ rw (e) refl
]

-- A word changed in one bit changes one entry.
pub slot_change :
    (pool : SharedPool) (k m word value : ℕ)
    → ((i : ℕ)
        → i < 32
        → bit word i ≡ (if i == k % 32 then value else bit (pool.free_list (k / 32)) i))
    → slot (write_word (k / 32) word pool) m ≡ (if m == k then value else slot pool m)
unfolding slot
slot_change pool k m word value change = elim (Bool-cases (m / 32 == k / 32)) [
  | inl e ↦
      (let w : m / 32 ≡ k / 32 = ground (arith, e) in
        ground (
          arith,
          slot-write_word pool (k / 32) word m,
          change (m % 32) (omega arith),
          ap pool.free_list w,
        ))
  | inr e ↦ ground (arith, slot-write_word pool (k / 32) word m)
]

pub slot-claim :
    (pool : SharedPool) (k m : ℕ) → slot (claim k pool) m ≡ (if m == k then 1 else slot pool m)
unfolding claim
slot-claim pool k m =
    slot_change pool k m (bit_or (pool.free_list (k / 32)) (2 ^ (k % 32))) 1
      (λ i small. bit-set (pool.free_list (k / 32)) (k % 32) i)

pub slot-give_back :
    (pool : SharedPool) (k m : ℕ) → slot (give_back k pool) m ≡ (if m == k then 0 else slot pool m)
unfolding give_back
slot-give_back pool k m =
    slot_change pool k m (bit_and (pool.free_list (k / 32)) (2 ^ 32 - 1 - 2 ^ (k % 32))) 0
      (λ i small. bit-clear (pool.free_list (k / 32)) (k % 32) i (omega arith) small)

-- A word is full exactly if all its bits are set.
full_table : all_below 32 (λ i. bit (2 ^ 32 - 1) i == 1) ≡ true
unfolding all_below bit
full_table = refl

pub bit-max_int : (i : ℕ) → i < 32 → bit max_int i ≡ 1
bit-max_int i small =
    (==_iff (bit (2 ^ 32 - 1) i) 1).0
      (all_below_sound 32 (λ i. bit (2 ^ 32 - 1) i == 1) i full_table small)

-- A pool over a buffer that is not at the null pointer and does not reach over the end of memory,
-- with a bit map of 32-bit words.
pub record IsPool (pool : SharedPool) : Type 0 where
  pub not_null : 1 ≤ pool.buf
  pub some_bytes : 1 ≤ pool.type_size
  pub in_memory : pool.buf + pool.max_obj_num * pool.type_size < 2 ^ 32
  pub few : pool.max_obj_num < 2 ^ 32 - 64
  pub is_word : (i : ℕ) → pool.free_list i < 2 ^ 32

pub claim-IsPool : (pool : SharedPool) (k : ℕ) → IsPool pool → IsPool (claim k pool)
unfolding claim
claim-IsPool pool k v = record {
  not_null = v.not_null;
  some_bytes = v.some_bytes;
  in_memory = v.in_memory;
  few = v.few;
  is_word = λ i. ground (arith, v.is_word i, or_word);
}
  where
    or_word : bit_or (pool.free_list (k / 32)) (2 ^ (k % 32)) < 2 ^ 32
    or_word =
        bit_or-lt 32 (pool.free_list (k / 32)) (2 ^ (k % 32)) (v.is_word (k / 32))
          (pow_small (k % 32) (omega arith))

pub give_back-IsPool : (pool : SharedPool) (k : ℕ) → IsPool pool → IsPool (give_back k pool)
unfolding give_back
give_back-IsPool pool k v = record {
  not_null = v.not_null;
  some_bytes = v.some_bytes;
  in_memory = v.in_memory;
  few = v.few;
  is_word = λ i. ground (arith, v.is_word i, v.is_word (k / 32), and_word);
}
  where
    and_word :
        bit_and (pool.free_list (k / 32)) (2 ^ 32 - 1 - 2 ^ (k % 32)) ≤ pool.free_list (k / 32)
    and_word =
        bit_and-le (pool.free_list (k / 32)) (pool.free_list (k / 32)) (2 ^ 32 - 1 - 2 ^ (k % 32))
          (omega arith)
