-- ===== src/SharedPool/Search.antt =====
-- `set_next_index` is the search for the first free entry.
use now_os.Base.{
  ℕ, zero, suc, ◌+◌, ◌*◌, ◌/◌, ◌%◌, ◌^◌, ◌≤◌, ◌<◌, ◌≡◌, inl, inr, refl, ap, ◌∙◌, Bool, true, false,
  arith, u32, leb, ◌==◌, Bool-cases, bit, set_same, bit-lt,
}
use Prim.Native.Nat.{bit_or}
use now_os.SharedPool.{
  SharedPool, Round, returned, goes_on, max_int, free_entry_size, try_bit, try_bits, scan_words,
  set_next_index,
}
use now_os.SharedPool.Bitmap.{slot, claim, bit-max_int, IsPool}

-- What the search may give: no index if every entry is taken, else the first free one, taken.
pub data Found (pool : SharedPool) (r : ℕ × SharedPool) : Type 0 where
  full : ((k : ℕ) → k < pool.max_obj_num → slot pool k ≡ 1) → r ≡ (max_int, pool) → Found pool r
  first :
      (k : ℕ)
      → k < pool.max_obj_num
      → slot pool k ≡ 0
      → ((m : ℕ) → m < k → slot pool m ≡ 1)
      → r ≡ (k, claim k pool)
      → Found pool r

-- The loop over a word's bits: it has found, or every entry of the word is taken.
data Tried (pool : SharedPool) (next : ℕ) (r : Round × SharedPool) : Type 0 where
  done :
      (index : ℕ) (pool' : SharedPool)
      → Found pool (index, pool')
      → r ≡ (returned index, pool')
      → Tried pool next r
  none_left :
      (mask : ℕ)
      → ((m : ℕ) → m < next → slot pool m ≡ 1)
      → r ≡ (goes_on next mask, pool)
      → Tried pool next r

-- A round at an entry that is over the end, taken, or free.
pub try_end :
    (pool : SharedPool) (j i found mask : ℕ)
    → pool.max_obj_num ≤ found
    → try_bit j i found mask pool ≡ (returned max_int, pool)
unfolding try_bit
try_end pool j i found mask over =
    let e : leb pool.max_obj_num found ≡ true = ground arith in rw e refl

pub try_taken :
    (pool : SharedPool) (j i found mask : ℕ)
    → found < pool.max_obj_num
    → bit mask j ≡ 1
    → try_bit j i found mask pool ≡ (goes_on (u32 (found + 1)) mask, pool)
unfolding try_bit
try_taken pool j i found mask under taken =
    let e : leb pool.max_obj_num found ≡ false = ground arith in
    let s : (bit_or mask (2 ^ j) == mask) ≡ true = ground (arith, set_same mask j) in rw (e, s) refl

pub try_free :
    (pool : SharedPool) (j i found : ℕ)
    → found < pool.max_obj_num
    → j < 32
    → bit (pool.free_list i) j ≡ 0
    → j + i * 32 < 2 ^ 32
    → try_bit j i found (pool.free_list i) pool ≡ (returned (j + i * 32), claim (j + i * 32) pool)
unfolding try_bit claim
try_free pool j i found under small free fits =
    let e : leb pool.max_obj_num found ≡ false = ground arith in
    let s : (bit_or (pool.free_list i) (2 ^ j) == pool.free_list i) ≡ false =
      ground (arith, set_same (pool.free_list i) j) in
    let w : (pool.free_list i == pool.free_list i) ≡ true = ground arith in
    let q : (j + i * 32) / 32 ≡ i = omega arith in
    let r : (j + i * 32) % 32 ≡ j = omega arith in
    let u : u32 (j + i * 32) ≡ j + i * 32 = omega arith in rw (e, s, w, q, r, u) refl

-- The first `n` entries are taken.
abbrev AllTaken : SharedPool → ℕ → Type 0
AllTaken pool n = (m : ℕ) → m < n → slot pool m ≡ 1

pub slot_at :
    (pool : SharedPool) (j i : ℕ) → j < 32 → slot pool (j + i * 32) ≡ bit (pool.free_list i) j
unfolding slot
slot_at pool j i small =
    let q : (j + i * 32) / 32 ≡ i = omega arith in
    let r : (j + i * 32) % 32 ≡ j = omega arith in rw (q, r) refl

one_more : (pool : SharedPool) (n : ℕ) → AllTaken pool n → slot pool n ≡ 1 → AllTaken pool (n + 1)
one_more pool n all e m small = elim (Bool-cases (m == n)) [
  | inl h ↦ (let w : m ≡ n = ground (arith, h) in rw w e)
  | inr h ↦ all m (ground (arith, h))
]

-- A round decides how the loop goes on.
bits_return :
    (n j i found mask index : ℕ) (pool pool' : SharedPool)
    → try_bit j i found mask pool ≡ (returned index, pool')
    → try_bits (suc n) j i found mask pool ≡ (returned index, pool')
unfolding try_bits
bits_return n j i found mask index pool pool' e =
    ap
      (λ r. elim r.0 [
        | returned k ↦ (returned k, r.1)
        | goes_on f m ↦ try_bits n (j + 1) i f m r.1
      ])
      e

bits_go :
    (n j i found mask found' : ℕ) (pool : SharedPool)
    → try_bit j i found mask pool ≡ (goes_on found' mask, pool)
    → try_bits (suc n) j i found mask pool ≡ try_bits n (j + 1) i found' mask pool
unfolding try_bits
bits_go n j i found mask found' pool e =
    ap
      (λ r. elim r.0 [
        | returned k ↦ (returned k, r.1)
        | goes_on f m ↦ try_bits n (j + 1) i f m r.1
      ])
      e

bits-Tried :
    (n j i found : ℕ) (pool : SharedPool)
    → IsPool pool
    → n + j ≡ 32
    → found ≡ j + i * 32
    → i * 32 ≤ pool.max_obj_num
    → AllTaken pool found
    → Tried pool (i * 32 + 32) (try_bits n j i found (pool.free_list i) pool)
unfolding try_bits
bits-Tried zero j i found pool v total at low all =
    let e : found ≡ i * 32 + 32 = omega arith in
    none_left (pool.free_list i) (λ m small. all m (omega arith)) (rw (try_bits, e) refl)
bits-Tried (suc n) j i found pool v total at low all =
    let small : j < 32 = omega arith in
    let few = v.few in
    elim (Bool-cases (leb pool.max_obj_num found)) [
      | inl over ↦ done max_int pool (full (λ k under. all k (ground (arith, over))) refl) (
          bits_return n j i found (pool.free_list i) max_int pool pool
            (try_end pool j i found (pool.free_list i) (ground (arith, over))))
      | inr under ↦
          (let within : found < pool.max_obj_num = ground (arith, under) in
            elim (Bool-cases (bit (pool.free_list i) j == 1)) [
              | inl b ↦
                  (let taken : bit (pool.free_list i) j ≡ 1 = ground (arith, b) in
                    let there : slot pool found ≡ 1 = rw at (slot_at pool j i small ∙ taken) in
                    rw
                      (bits_go n j i found (pool.free_list i) (u32 (found + 1)) pool
                        (try_taken pool j i found (pool.free_list i) within taken))
                      (bits-Tried n (j + 1) i (u32 (found + 1)) pool v (omega arith) (omega arith)
                        low (λ m k. one_more pool found all there m (omega arith))))
              | inr b ↦
                  (let free : bit (pool.free_list i) j ≡ 0 =
                      ground (arith, b, bit-lt (pool.free_list i) j) in
                    done (j + i * 32) (claim (j + i * 32) pool)
                      (first (j + i * 32) (omega arith) (slot_at pool j i small ∙ free)
                        (λ m k. all m (omega arith)) refl)
                      (bits_return n j i found (pool.free_list i) (j + i * 32) pool
                        (claim (j + i * 32) pool)
                        (try_free pool j i found within small free (omega arith))))
            ])
    ]

full_word :
    (pool : SharedPool) (i : ℕ)
    → pool.free_list i ≡ max_int
    → AllTaken pool (i * 32)
    → AllTaken pool (i * 32 + 32)
unfolding slot
full_word pool i e all m small = elim (Bool-cases (m / 32 == i)) [
  | inl h ↦
      (let q : m / 32 ≡ i = ground (arith, h) in rw (q, e) (bit-max_int (m % 32) (omega arith)))
  | inr h ↦ all m (ground (arith, h))
]

-- A word decides how the loop goes on.
abbrev after_word : (n i : ℕ) → Round × SharedPool → ℕ × SharedPool
after_word n i r = elim r.0 [
  | returned index ↦ (index, r.1)
  | goes_on found mask ↦ scan_words n (i + 1) found r.1
]

abbrev word_test : (n i found : ℕ) → SharedPool → Bool → ℕ × SharedPool
word_test n i found pool b = elim b [
  | true ↦ scan_words n (i + 1) (u32 (found + free_entry_size)) pool
  | false ↦ after_word n i (try_bits free_entry_size 0 i found (pool.free_list i) pool)
]

scan_step :
    (n i found : ℕ) (pool : SharedPool)
    → scan_words (suc n) i found pool ≡ word_test n i found pool (pool.free_list i == max_int)
unfolding scan_words
scan_step n i found pool = refl

after_word-Found :
    (n i : ℕ) (pool : SharedPool) (r : Round × SharedPool)
    → Tried pool (i * 32 + 32) r
    → (AllTaken pool (i * 32 + 32) → Found pool (scan_words n (i + 1) (i * 32 + 32) pool))
    → Found pool (after_word n i r)
after_word-Found n i pool r (done index pool' found_it e) go_on = rw e found_it
after_word-Found n i pool r (none_left mask all e) go_on = rw e (go_on all)

scan-Found :
    (n i found : ℕ) (pool : SharedPool)
    → IsPool pool
    → n + i ≡ pool.max_obj_num / 32 + 1
    → found ≡ i * 32
    → AllTaken pool found
    → Found pool (scan_words n i found pool)
unfolding scan_words
scan-Found zero i found pool v total at all = full (λ k under. all k (omega arith)) refl
scan-Found (suc n) i found pool v total at all =
    let few = v.few in
    let all' : AllTaken pool (i * 32) = λ m k. all m (omega arith) in
    rw (scan_step n i found pool) (elim (Bool-cases (pool.free_list i == max_int)) [
      | inl e ↦ rw e (
          scan-Found n (i + 1) (u32 (found + free_entry_size)) pool v (omega arith) (omega arith)
            (λ m k. full_word pool i (ground (arith, e)) all' m (omega arith)))
      | inr e ↦ rw e (
          after_word-Found n i pool (try_bits free_entry_size 0 i found (pool.free_list i) pool)
            (bits-Tried 32 0 i found pool v refl (omega arith) (omega arith) all)
            (λ all''. scan-Found n (i + 1) (i * 32 + 32) pool v (omega arith) (omega arith) all''))
    ])

-- On a pool in memory, `set_next_index` gives `MAX_INT` and leaves the pool if all its entries are
-- taken; else it gives the first free entry, which is then taken, and no other entry changes.
pub set_next_index-Found : (pool : SharedPool) → IsPool pool → Found pool (set_next_index pool)
unfolding set_next_index
set_next_index-Found pool v =
    scan-Found (pool.max_obj_num / 32 + 1) 0 0 pool v (omega arith) refl
      (λ m k. absurd (omega arith))
