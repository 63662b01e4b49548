-- ===== src/CString/Copy.antt =====
-- What the block operations of klib/string.c leave in memory.
use now_os.Base.{
  ℕ, zero, suc, ◌+◌, ◌-◌, ◌%◌, ◌≤◌, ◌≡◌, ◌⊎◌, Bool, ◌&&◌, arith, ltb, leb, if◌then◌else◌,
}
use now_os.CString.{Mem, write_byte, copy_up, copy_down, fill, memcpy, memmove, memset}

-- Whether the address `b` lies in the `n` bytes from `a` on.
abbrev pub within : (a n b : ℕ) → Bool
within a n b = leb a b && ltb b (a + n)

-- Memory after the `size` bytes at `src` have gone to `dst` at once.
abbrev pub moved : (dst src size : ℕ) → Mem → Mem
moved dst src size m b = if within dst size b then m (src + (b - dst)) else m b

copy_up_lem :
    (n i dst src : ℕ) (m : Mem) (b : ℕ)
    → (dst ≤ src) ⊎ (src + i + n ≤ dst)
    → copy_up n i dst src m b ≡ (if within (dst + i) n b then m (src + (b - dst)) else m b)
unfolding copy_up
copy_up_lem zero i dst src m b h = ground arith
copy_up_lem (suc n) i dst src m b h =
    ground (arith, copy_up_lem n (i + 1) dst src (write_byte m (dst + i) (m (src + i))) b)

copy_down_lem :
    (n dst src : ℕ) (m : Mem) (b : ℕ) → src ≤ dst → copy_down n dst src m b ≡ moved dst src n m b
unfolding copy_down
copy_down_lem zero dst src m b h = ground arith
copy_down_lem (suc n) dst src m b h =
    ground (arith, copy_down_lem n dst src (write_byte m (dst + n) (m (src + n))) b)

fill_lem :
    (n i buf v : ℕ) (m : Mem) (b : ℕ)
    → fill n i buf v m b ≡ (if within (buf + i) n b then v % 256 else m b)
unfolding fill
fill_lem zero i buf v m b = ground arith
fill_lem (suc n) i buf v m b =
    ground (arith, fill_lem n (i + 1) buf v (write_byte m (buf + i) (v % 256)) b)

-- `memmove` moves its bytes as if all were read before any is written, however the two areas
-- overlap.
pub memmove-moved :
    (dst src size : ℕ) (m : Mem) (b : ℕ) → memmove dst src size m b ≡ moved dst src size m b
unfolding memmove
memmove-moved dst src size m b =
    ground (arith, copy_up_lem size 0 dst src m b, copy_down_lem size dst src m b)

-- `memcpy` does the same where the areas do not overlap or the target lies below.
pub memcpy-moved :
    (dst src size : ℕ) (m : Mem) (b : ℕ)
    → (dst ≤ src) ⊎ (src + size ≤ dst)
    → memcpy dst src size m b ≡ moved dst src size m b
unfolding memcpy
memcpy-moved dst src size m b h = ground (arith, copy_up_lem size 0 dst src m b)

-- `memset` fills its area with the low byte of the value and writes nowhere else.
pub memset_lem :
    (buf v size : ℕ) (m : Mem) (b : ℕ)
    → memset buf v size m b ≡ (if within buf size b then v % 256 else m b)
unfolding memset
memset_lem buf v size m b = ground (arith, fill_lem size 0 buf v m b)
