-- ===== src/SharedPool.antt =====
-- klib/shared_pool.c: a pool of objects of one size, whose entries threads take and give back by
-- compare and exchange on a bit map. The bit map is a function from its word's index to the word,
-- and the objects stand at `buf`. Here one call runs alone; SharedPool/Race.antt takes the
-- same accesses in turns. `kmalloc` and `kfree` are those of the kernel heap.
pub mod Bitmap
pub mod Search
pub mod Entry
pub mod Nodes
pub mod Race
mod Tests
use now_os.Base.{
  ℕ, zero, suc, ◌+◌, ◌-◌, ◌*◌, ◌/◌, ◌%◌, ◌^◌, ◌≡◌, Bool, true, false, not, Run, ok, ◌>>=◌, ◌>>◌,
  assert, u32, sub32, ltb, leb, ◌==◌, if◌then◌else◌,
}
use Prim.Native.Nat.{bit_and, bit_or}
use now_os.Kheap.{Kheap}
use now_os.Kheap.Alloc.{kmalloc, kfree}

-- FREE_ENTRY_SIZE
abbrev pub free_entry_size : ℕ
free_entry_size = 32

abbrev pub max_int : ℕ
max_int = 2 ^ 32 - 1

pub record SharedPool : Type 0 where
  pub buf : ℕ
  pub free_list : ℕ → ℕ
  pub max_obj_num : ℕ
  pub type_size : ℕ

abbrev pub write_word : (i word : ℕ) → SharedPool → SharedPool
write_word i word pool = record pool { free_list = λ k. if k == i then word else pool.free_list k }

-- What `atomic_cmpxchg_strong_32` answers, leaves in `expected`, and leaves in the word.
abbrev pub atomic_cmpxchg_strong_32 : (expected desired word : ℕ) → Bool × ℕ × ℕ
atomic_cmpxchg_strong_32 expected desired word =
    if word == expected then (true, expected, desired) else (false, word, word)

-- One round of the loop over a word's bits: it returns an index, or goes on with its variables.
pub data Round : Type 0 where
  returned : (index : ℕ) → Round
  goes_on : (found free_mask : ℕ) → Round

pub try_bit : (j i found free_mask : ℕ) → SharedPool → Round × SharedPool
try_bit j i found free_mask pool =
    let try_mask = bit_or free_mask (2 ^ j) in
    if leb pool.max_obj_num found
    then (returned max_int, pool)
    else if try_mask == free_mask
    then (goes_on (u32 (found + 1)) free_mask, pool)
    else (let (swapped, mask, word) =
          atomic_cmpxchg_strong_32 free_mask try_mask (pool.free_list i) in
        (
          if swapped then returned (u32 (j + i * free_entry_size)) else goes_on found mask,
          write_word i word pool,
        ))

-- `rounds` more rounds over the bits of word `i`.
pub try_bits : (rounds j i found free_mask : ℕ) → SharedPool → Round × SharedPool
unfolding try_bit
try_bits zero j i found free_mask pool = (goes_on found free_mask, pool)
try_bits (suc n) j i found free_mask pool =
    let (round, pool') = try_bit j i found free_mask pool in
    elim round [
      | returned index ↦ (returned index, pool')
      | goes_on found' mask ↦ try_bits n (j + 1) i found' mask pool'
    ]

-- `rounds` more words; a full one is passed over.
pub scan_words : (rounds i found : ℕ) → SharedPool → ℕ × SharedPool
unfolding try_bits
scan_words zero i found pool = (max_int, pool)
scan_words (suc n) i found pool = elim (pool.free_list i == max_int) [
  | true ↦ scan_words n (i + 1) (u32 (found + free_entry_size)) pool
  | false ↦
      (let (round, pool') = try_bits free_entry_size 0 i found (pool.free_list i) pool in
        elim round [
          | returned index ↦ (index, pool')
          | goes_on found' mask ↦ scan_words n (i + 1) found' pool'
        ])
]

pub set_next_index : SharedPool → ℕ × SharedPool
unfolding scan_words
set_next_index pool = scan_words (pool.max_obj_num / free_entry_size + 1) 0 0 pool

-- `shared_pool_init` on a heap that ends at `heap_top`. What stands behind the cleared words of the
-- bit map, or in it when it is not cleared, is `behind`.
abbrev pub cleared : (words : ℕ) → (behind : ℕ → ℕ) → ℕ → ℕ
cleared words behind i = if ltb i words then 0 else behind i

pub shared_pool_init :
    (heap_top max_obj_num type_size : ℕ)
    → (behind : ℕ → ℕ) → SharedPool
    → Kheap
    → Run (Bool × SharedPool × Kheap)
shared_pool_init heap_top max_obj_num type_size behind pool h = do
  assert (leb 1 type_size)
  (buf, h') ← kmalloc heap_top (u32 (max_obj_num * type_size)) h
  if buf == 0 then ok (false, pool, h') else (do
    let words = max_obj_num / free_entry_size + 1
    (list, h'') ← kmalloc heap_top (words * 4) h'
    ok (
        if list == 0 then (false, record pool { buf = buf }, h'') else (
          true,
          record {
            buf = buf;
            free_list = cleared words behind;
            max_obj_num = max_obj_num;
            type_size = type_size;
          },
          h'',
        )))

-- `free_list` is the address of the bit map.
pub shared_pool_destroy : (free_list : ℕ) → SharedPool → Kheap → Run Kheap
shared_pool_destroy free_list pool h = do h' ← kfree pool.buf h; kfree free_list h'

pub shared_pool_get_next : SharedPool → Run (ℕ × SharedPool)
unfolding set_next_index
shared_pool_get_next pool =
    let (next_index, pool') = set_next_index pool in
    if next_index == max_int then ok (0, pool') else (do
      assert (ltb next_index pool.max_obj_num)
      ok (u32 (pool.buf + u32 (next_index * pool.type_size)), pool'))

pub shared_pool_get_index : (entry : ℕ) → SharedPool → Run ℕ
shared_pool_get_index entry pool = do
  assert (not (entry == 0))
  let start_byte = sub32 entry pool.buf
  assert (leb start_byte (u32 (pool.max_obj_num * pool.type_size)))
  ok (start_byte / pool.type_size)

pub shared_pool_free_entry : (entry : ℕ) → SharedPool → Run (Bool × SharedPool)
shared_pool_free_entry entry pool = do
  assert (not (entry == 0))
  index ← shared_pool_get_index entry pool
  let i = index / free_entry_size
  let free_list = pool.free_list i
  let try_list = bit_and free_list (2 ^ 32 - 1 - 2 ^ (index % free_entry_size))
  let (swapped, expected, word) = atomic_cmpxchg_strong_32 free_list try_list (pool.free_list i)
  ok (swapped, write_word i word pool)

pub shared_pool_free_index : (index : ℕ) → SharedPool → Run (Bool × SharedPool)
unfolding shared_pool_free_entry
shared_pool_free_index index pool = do
  assert (ltb index pool.max_obj_num)
  shared_pool_free_entry (u32 (pool.buf + u32 (index * pool.type_size))) pool
