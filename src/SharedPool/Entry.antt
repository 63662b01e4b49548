-- ===== src/SharedPool/Entry.antt =====
-- Entries by their address: getting the next one, its index, and giving it back.
use now_os.Base.{
  ℕ, suc, ◌+◌, ◌*◌, ◌/◌, ◌^◌, ◌≤◌, ◌<◌, ◌≡◌, inl, inr, refl, true, false, arith, u32, sub32, ltb,
  leb, ◌==◌, if◌then◌else◌, Bool-cases, Run, ok, ◌>>=◌,
}
use native.Mathlib.Nat.{mul-le-mul_right, mul-div_cancel}
use now_os.SharedPool.{
  SharedPool, max_int, set_next_index, shared_pool_get_next, shared_pool_get_index,
  shared_pool_free_entry, shared_pool_free_index,
}
use now_os.SharedPool.Bitmap.{slot, claim, give_back, slot-give_back, IsPool}
use now_os.SharedPool.Search.{full, first, set_next_index-Found}

-- Where entry `k` stands.
unfoldable pub address : SharedPool → ℕ → ℕ
address pool k = pool.buf + k * pool.type_size

pub entry_room :
    (pool : SharedPool) (k : ℕ)
    → k < pool.max_obj_num
    → k * pool.type_size + pool.type_size ≤ pool.max_obj_num * pool.type_size
entry_room pool k small =
    let m : suc k * pool.type_size ≤ pool.max_obj_num * pool.type_size =
      mul-le-mul_right pool.type_size small in
    grind arith

-- What a call of `shared_pool_get_next` may give.
pub data Given (pool : SharedPool) (r : Run (ℕ × SharedPool)) : Type 0 where
  no_entry : ((k : ℕ) → k < pool.max_obj_num → slot pool k ≡ 1) → r ≡ ok (0, pool) → Given pool r
  next_entry :
      (k : ℕ)
      → k < pool.max_obj_num
      → slot pool k ≡ 0
      → ((m : ℕ) → m < k → slot pool m ≡ 1)
      → r ≡ ok (address pool k, claim k pool)
      → Given pool r

given_entry :
    (pool : SharedPool) (k : ℕ)
    → IsPool pool
    → k < pool.max_obj_num
    → set_next_index pool ≡ (k, claim k pool)
    → shared_pool_get_next pool ≡ ok (address pool k, claim k pool)
unfolding shared_pool_get_next address
given_entry pool k v small e =
    let few = v.few in
    let mem = v.in_memory in
    let room = entry_room pool k small in
    let n : (k == max_int) ≡ false = ground arith in
    let b : ltb k pool.max_obj_num ≡ true = ground arith in
    let w : u32 (k * pool.type_size) ≡ k * pool.type_size = omega arith in
    let u : u32 (pool.buf + k * pool.type_size) ≡ pool.buf + k * pool.type_size = omega arith in
    rw (shared_pool_get_next, e, n, b, w, u) refl

out_of_entries :
    (pool : SharedPool)
    → set_next_index pool ≡ (max_int, pool)
    → shared_pool_get_next pool ≡ ok (0, pool)
unfolding shared_pool_get_next
out_of_entries pool e = rw (shared_pool_get_next, e) refl

-- On a pool in memory, `shared_pool_get_next` meets no failed assertion. It gives the null pointer and
-- leaves the pool if every entry is taken; else it gives the address of the first free entry, and takes
-- this entry.
pub get_next-Given : (pool : SharedPool) → IsPool pool → Given pool (shared_pool_get_next pool)
get_next-Given pool v = elim (set_next_index-Found pool v) [
  | full all e ↦ no_entry all (out_of_entries pool e)
  | first k small free before e ↦ next_entry k small free before (given_entry pool k v small e)
]

pub address_in :
    (pool : SharedPool) (k : ℕ)
    → IsPool pool
    → k < pool.max_obj_num
    → (1 ≤ address pool k)
      × (address pool k < 2 ^ 32)
      × (sub32 (address pool k) pool.buf ≡ k * pool.type_size)
unfolding address
address_in pool k v small =
    let nn = v.not_null in
    let mem = v.in_memory in
    let room = entry_room pool k small in (omega arith, omega arith, omega arith)

-- The index of the entry at the address that `shared_pool_get_next` gives for entry `k` is `k`.
pub get_index-address :
    (pool : SharedPool) (k : ℕ)
    → IsPool pool
    → k < pool.max_obj_num
    → shared_pool_get_index (address pool k) pool ≡ ok k
unfolding shared_pool_get_index
get_index-address pool k v small =
    let (up, down, s) = address_in pool k v small in
    let mem = v.in_memory in
    let room = entry_room pool k small in
    let n : (address pool k == 0) ≡ false = ground (arith, up) in
    let b : leb (k * pool.type_size) (u32 (pool.max_obj_num * pool.type_size)) ≡ true =
      ground arith in
    rw (shared_pool_get_index, n, s, b, mul-div_cancel k v.some_bytes) refl

-- Whatever index an address has, its bit is cleared.
pub free_entry-get_index :
    (pool : SharedPool) (entry : ℕ)
    → shared_pool_free_entry entry pool
      ≡ (shared_pool_get_index entry pool >>= λ k. ok (true, give_back k pool))
unfolding shared_pool_free_entry shared_pool_get_index give_back
free_entry-get_index pool entry =
    let start = sub32 entry pool.buf in
    let k = start / pool.type_size in
    let same : (pool.free_list (k / 32) == pool.free_list (k / 32)) ≡ true = ground arith in
    elim (Bool-cases (entry == 0)) [
      | inl e ↦ rw e refl
      | inr e ↦ elim (Bool-cases (leb start (u32 (pool.max_obj_num * pool.type_size)))) [
        | inl b ↦ rw (e, b, same) refl
        | inr b ↦ rw (e, b) refl
      ]
    ]

free_entry-address :
    (pool : SharedPool) (k : ℕ)
    → IsPool pool
    → k < pool.max_obj_num
    → shared_pool_free_entry (address pool k) pool ≡ ok (true, give_back k pool)
free_entry-address pool k v small =
    rw (free_entry-get_index pool (address pool k), get_index-address pool k v small) refl

-- Giving back an entry by its address or by its index answers true, and frees this entry and no other.
pub free-give_back :
    (pool : SharedPool) (k : ℕ)
    → IsPool pool
    → k < pool.max_obj_num
    → (shared_pool_free_entry (address pool k) pool ≡ ok (true, give_back k pool))
      × (shared_pool_free_index k pool ≡ ok (true, give_back k pool))
      × ((m : ℕ) → slot (give_back k pool) m ≡ (if m == k then 0 else slot pool m))
unfolding shared_pool_free_index address
free-give_back pool k v small =
    let mem = v.in_memory in
    let room = entry_room pool k small in
    let b : ltb k pool.max_obj_num ≡ true = ground arith in
    let w : u32 (k * pool.type_size) ≡ k * pool.type_size = omega arith in
    let u : u32 (pool.buf + k * pool.type_size) ≡ pool.buf + k * pool.type_size = omega arith in
    (
      free_entry-address pool k v small,
      rw (shared_pool_free_index, b, w, u) (free_entry-address pool k v small),
      slot-give_back pool k,
    )
