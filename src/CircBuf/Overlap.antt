-- ===== src/CircBuf/Overlap.antt =====
-- Entries whose size is not that of a pointer: slots are spaced by `sizeof(void *)`, while
-- `init_circ_buf` asks for `size * type_size` bytes.
use now_os.Base.{ℕ, ◌+◌, ◌-◌, ◌*◌, ◌≤◌, ◌<◌, ◌≡◌, ◌≢◌, ◌⊎◌, some, arith, Returns}
use now_os.CString.{Mem}
use now_os.CString.Copy.{memcpy-moved}
use now_os.CircBuf.{CircBuf, slot, push_index, push_circ_buf, storage_size}
use now_os.CircBuf.Inv.{IsValid, push_entry-eq}

-- Entries of more than four bytes overlap: a push that does not wrap round replaces the bytes of
-- the slot before it from the fifth on by the first bytes of the new entry.
pub push-overwrites :
    (src : ℕ) (c : CircBuf) (m : Mem)
    → IsValid c
    → c.curr_size ≢ c.size
    → push_index c ≢ 0
    → (src + c.type_size ≤ c.buf) ⊎ (slot c (push_index c) ≤ src)
    → Returns (push_circ_buf src (some c) m) (λ (s, o, m').
      (k : ℕ) → 4 + k < c.type_size → m' (slot c (push_index c - 1) + (4 + k)) ≡ m (src + k))
unfolding push_circ_buf
push-overwrites src c m v h nz far = rw (push_entry-eq src c m v h) λ k q.
    let e : slot c (push_index c - 1) + (4 + k) ≡ slot c (push_index c) + k = omega arith in
    rw e (
      ground
        (arith, memcpy-moved (slot c (push_index c)) src c.type_size m (slot c (push_index c) + k)))

-- Entries of fewer than four bytes leave the storage: from four slots on, the last slot lies
-- wholly behind the bytes that `kmalloc` was asked for.
pub last_slot_escapes :
    (c : CircBuf)
    → IsValid c
    → c.type_size < 4
    → 4 ≤ c.size
    → c.buf + storage_size c ≤ slot c (c.size - 1)
unfolding storage_size
last_slot_escapes c v h k = ground (arith, mul_le_three c.size c.type_size)
  where
    mul_le_three : (s t : ℕ) → t < 4 → s * t ≤ 3 * s
    mul_le_three s t q = grind arith
