-- ===== src/SharedPool/Race.antt =====
-- klib/shared_pool.c with several threads: each step of a thread is at most one access to the bit
-- map. A thread gives back only an entry that it holds. Memory is sequentially consistent. The
-- assertion of `shared_pool_get_next` after the search is not here: a thread that holds an index behind
-- the last entry is one that it stops.
pub mod Tries
pub mod Owners
mod Tests
use now_os.Base.{
  ℕ, zero, suc, ◌+◌, ◌-◌, ◌*◌, ◌/◌, ◌%◌, ◌^◌, ◌≡◌, Bool, true, false, Option, none, some, u32, leb,
  ◌==◌, if◌then◌else◌,
}
use Prim.Native.Nat.{bit_and}
use now_os.SharedPool.{
  SharedPool, Round, returned, goes_on, max_int, free_entry_size, try_bit, write_word,
  atomic_cmpxchg_strong_32,
}

-- `reading` is before the read of a word in `set_next_index`, `trying` is in the loop over its bits;
-- `freeing` is between the read and the exchange of `shared_pool_free_entry`.
pub data Phase : Type 0 where
  idle refused : Phase
  reading : (i found : ℕ) → Phase
  trying : (j i found free_mask : ℕ) → Phase
  holding : (index : ℕ) → Phase
  freeing : (index free_list : ℕ) → Phase

pub record System : Type 0 where
  pub pool : SharedPool
  pub phase : ℕ → Phase

abbrev pub moved : (thread : ℕ) → Phase → SharedPool → System → System
moved thread p pool s = record { pool = pool; phase = λ t. if t == thread then p else s.phase t }

-- Where a thread is after it has read `free_mask` in word `i`.
pub read_word : (i found free_mask : ℕ) → Phase
read_word i found free_mask =
    if free_mask == max_int
    then reading (i + 1) (u32 (found + free_entry_size))
    else trying 0 i found free_mask

-- Where it is after a round of the loop over the bits.
pub after_round : (j i : ℕ) → Round → Phase
after_round j i (returned index) = if index == max_int then refused else holding index
after_round j i (goes_on found free_mask) = trying (j + 1) i found free_mask

-- The next step of a thread inside `set_next_index`, where `none` is a thread that is not inside.
pub search_step : (thread : ℕ) → System → Option System
unfolding read_word after_round try_bit
search_step thread s = elim (s.phase thread) [
  | idle ↦ none
  | refused ↦ none
  | reading i found ↦ some (
      moved thread
        (if leb (s.pool.max_obj_num / free_entry_size + 1) i
          then refused
          else read_word i found (s.pool.free_list i))
        s.pool s)
  | trying j i found free_mask ↦ some (
      if j == free_entry_size
      then moved thread (reading (i + 1) found) s.pool s
      else (let (round, pool) = try_bit j i found free_mask s.pool in
          moved thread (after_round j i round) pool s))
  | holding index ↦ none
  | freeing index free_list ↦ none
]

-- The exchange at the end of `shared_pool_free_entry`: when the word has changed since the read, the
-- call answers false, and the thread still holds the entry.
pub free_step : (thread index free_list : ℕ) → System → System
free_step thread index free_list s =
    let i = index / free_entry_size in
    let try_list = bit_and free_list (2 ^ 32 - 1 - 2 ^ (index % free_entry_size)) in
    let (swapped, expected, word) =
      atomic_cmpxchg_strong_32 free_list try_list (s.pool.free_list i) in
    moved thread (if swapped then idle else holding index) (write_word i word s.pool) s

pub data Step (s : System) : System → Type 0 where
  calls_get : (t : ℕ) → s.phase t ≡ idle → Step s (moved t (reading 0 0) s.pool s)
  searches : (t : ℕ) (s' : System) → search_step t s ≡ some s' → Step s s'
  gives_up : (t : ℕ) → s.phase t ≡ refused → Step s (moved t idle s.pool s)
  calls_free :
      (t k : ℕ)
      → s.phase t ≡ holding k
      → Step s (moved t (freeing k (s.pool.free_list (k / free_entry_size))) s.pool s)
  ends_free : (t k word : ℕ) → s.phase t ≡ freeing k word → Step s (free_step t k word s)

-- What the threads can reach from a pool that no thread uses.
pub data Reachable (pool : SharedPool) : System → Type 0 where
  start : Reachable pool (record { pool = pool; phase = λ t. idle })
  next : (s s' : System) → Reachable pool s → Step s s' → Reachable pool s'
