-- ===== src/CircBuf/Inv.antt =====
-- The representation invariant of `circ_buf_t`, and what it gives.
use now_os.Base.{
  ℕ, ◌+◌, ◌-◌, ◌*◌, ◌%◌, ◌^◌, ◌≤◌, ◌<◌, ◌≡◌, ◌≢◌, refl, ap, true, false, some, ok, arith, leb, ◌==◌,
  u32, Returns,
}
use native.Mathlib.Decide.{ℕ_discrete}
use now_os.CString.{Mem, memcpy}
use now_os.CircBuf.{
  CircBuf, success, failure, slot, push_index, push_circ_buf, push_entry, pop_circ_buf,
  init_circ_buf, storage_size,
}

-- The storage lies in the address space, so no index computation wraps.
pub record IsValid (c : CircBuf) : Type 0 where
  pub index_in : c.curr_index < c.size
  pub size_in : c.curr_size ≤ c.size
  pub small : c.buf + 4 * c.size < 2 ^ 32

-- A new buffer with at least one slot is valid and empty.
pub init-IsValid :
    (size type_size buf : ℕ)
    → 0 < size
    → buf + 4 * size < 2 ^ 32
    → IsValid (init_circ_buf size type_size buf)
unfolding init_circ_buf
init-IsValid size type_size buf h k = omega arith

-- With entries of one pointer each, a push and a pop touch only the bytes that `kmalloc` gave.
pub entry_bounds :
    (c : CircBuf)
    → IsValid c
    → c.type_size ≡ 4
    → (c.size * c.type_size ≡ storage_size c)
      × (slot c (push_index c) + c.type_size ≤ c.buf + storage_size c)
      × (slot c c.curr_index + c.type_size ≤ c.buf + storage_size c)
unfolding storage_size
entry_bounds c v h = omega (arith, ap (λ (t : ℕ). c.size * t) h)

module _ (src : ℕ) (c : CircBuf) (m : Mem) where
  -- The state after a push into a buffer that is not full.
  abbrev pub pushed : CircBuf
  pushed = record c { curr_size = c.curr_size + 1 }

  pub push_entry-eq :
      IsValid c
      → c.curr_size ≢ c.size
      → push_entry src c m ≡ ok (success, pushed, memcpy (slot c (push_index c)) src c.type_size m)
  unfolding push_entry
  push_entry-eq v h =
      let e : (c.curr_size == c.size) ≡ false = ground arith in
      let g : leb (u32 (c.curr_size + 1)) c.size ≡ true = ground arith in
      let z : u32 (c.curr_size + 1) ≡ c.curr_size + 1 = omega arith in rw (e, g, z)

  pub push_entry_full : c.curr_size ≡ c.size → push_entry src c m ≡ ok (failure, c, m)
  unfolding push_entry
  push_entry_full h = let e : (c.curr_size == c.size) ≡ true = ground arith in rw e

  -- A push keeps the invariant; its ASSERT does not fail.
  pub push-IsValid :
      IsValid c
      → Returns
          (push_circ_buf src (some c) m)
          (λ (s, o, m'). (c' : CircBuf) × (o ≡ some c') × IsValid c')
  unfolding push_circ_buf
  push-IsValid v = elim (ℕ_discrete c.curr_size c.size) [
    | yes e ↦ rw (push_entry_full e) (c, refl, v)
    | no h ↦ rw (push_entry-eq v h) (pushed, refl, omega arith)
  ]

  abbrev pub popped : CircBuf
  popped = record c { curr_index = (c.curr_index + 1) % c.size; curr_size = c.curr_size - 1 }

  pub pop_circ_buf-eq :
      IsValid c
      → c.curr_size ≢ 0
      → pop_circ_buf src c m ≡ (success, popped, memcpy src (slot c c.curr_index) c.type_size m)
  unfolding pop_circ_buf
  pop_circ_buf-eq v h =
      let e : (c.curr_size == 0) ≡ false = ground arith in
      let z : u32 (c.curr_index + 1) ≡ c.curr_index + 1 = omega arith in rw (e, z)

  pub pop_circ_buf_empty : c.curr_size ≡ 0 → pop_circ_buf src c m ≡ (failure, c, m)
  unfolding pop_circ_buf
  pop_circ_buf_empty h = let e : (c.curr_size == 0) ≡ true = ground arith in rw e

  -- A pop keeps the invariant.
  pub pop-IsValid : IsValid c → IsValid (pop_circ_buf src c m).1
  unfolding pop_circ_buf
  pop-IsValid v = ground arith
