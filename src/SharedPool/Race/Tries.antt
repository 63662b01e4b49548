-- ===== src/SharedPool/Race/Tries.antt =====
-- What a round over the bits of a word does, when other threads have had turns since the read.
use mathlib.Core.Path.{fun_ext}
use now_os.Base.{
  ℕ, ◌+◌, ◌*◌, ◌^◌, ◌≤◌, ◌<◌, ◌≡◌, inl, inr, refl, ap, ◌∙◌, false, arith, u32, leb, ◌==◌,
  if◌then◌else◌, Bool-cases, bit, bit-lt, set_same,
}
use Prim.Native.Nat.{bit_or}
use now_os.SharedPool.{SharedPool, Round, returned, goes_on, max_int, try_bit, write_word}
use now_os.SharedPool.Bitmap.{slot, claim, IsPool}
use now_os.SharedPool.Search.{try_end, try_taken, try_free, slot_at}

pub write_same : (pool : SharedPool) (i : ℕ) → write_word i (pool.free_list i) pool ≡ pool
write_same pool i = ap (λ f. record pool { free_list = f }) (fun_ext same)
  where
    same : (k : ℕ) → (if k == i then pool.free_list i else pool.free_list k) ≡ pool.free_list k
    same k = elim (Bool-cases (k == i)) [
      | inl e ↦ (let w : k ≡ i = ground (arith, e) in rw (e, w) refl)
      | inr e ↦ rw e refl
    ]

-- A round ends the search, goes on in the same pool, or takes a free entry.
pub data Tried (pool : SharedPool) (k : ℕ) (r : Round × SharedPool) : Type 0 where
  ended : r ≡ (returned max_int, pool) → Tried pool k r
  went_on : (found mask : ℕ) → r ≡ (goes_on found mask, pool) → Tried pool k r
  took : slot pool k ≡ 0 → r ≡ (returned k, claim k pool) → Tried pool k r

try_lost :
    (pool : SharedPool) (j i found mask : ℕ)
    → found < pool.max_obj_num
    → bit mask j ≡ 0
    → (pool.free_list i == mask) ≡ false
    → try_bit j i found mask pool ≡ (goes_on found (pool.free_list i), pool)
unfolding try_bit
try_lost pool j i found mask under free changed =
    let e : leb pool.max_obj_num found ≡ false = ground arith in
    let s : (bit_or mask (2 ^ j) == mask) ≡ false = ground (arith, set_same mask j) in
    rw (e, s, changed, write_same pool i) refl

pub try_bit-Tried :
    (pool : SharedPool) (j i found mask : ℕ)
    → IsPool pool
    → j < 32
    → i * 32 ≤ pool.max_obj_num
    → Tried pool (j + i * 32) (try_bit j i found mask pool)
try_bit-Tried pool j i found mask v small low =
    let few = v.few in
    elim (Bool-cases (leb pool.max_obj_num found)) [
      | inl e ↦ ended (try_end pool j i found mask (ground (arith, e)))
      | inr e ↦
          (let under : found < pool.max_obj_num = ground (arith, e) in
            elim (Bool-cases (bit mask j == 1)) [
              | inl b ↦
                  went_on (u32 (found + 1)) mask
                    (try_taken pool j i found mask under (ground (arith, b)))
              | inr b ↦
                  (let free : bit mask j ≡ 0 = ground (arith, b, bit-lt mask j) in
                    elim (Bool-cases (pool.free_list i == mask)) [
                      | inl w ↦
                          (let at : mask ≡ pool.free_list i = ground (arith, w) in
                            let free' : bit (pool.free_list i) j ≡ 0 = rw at at free in
                            took (slot_at pool j i small ∙ free')
                              (rw at (try_free pool j i found under small free' (omega arith))))
                      | inr w ↦
                          went_on found (pool.free_list i)
                            (try_lost pool j i found mask under free w)
                    ])
            ])
    ]
