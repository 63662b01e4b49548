-- ===== src/CircBuf.antt =====
-- klib/circ_buf.c: a ring of entries over memory. `buf` is a `void **`, so slot `i` starts at
-- `buf + 4 * i` whatever `type_size` is. The lock field is set once and not used by these functions.
mod Tests
pub mod Inv
pub mod Refine
pub mod Overlap
use now_os.Base.{
  ℕ, ◌+◌, ◌-◌, ◌*◌, ◌%◌, Option, none, some, Bool, Run, ok, ◌>>=◌, ◌>>◌, assert, u32, leb, ◌==◌,
  if◌then◌else◌,
}
use now_os.CString.{Mem, memcpy}

pub record CircBuf : Type 0 where
  pub curr_size : ℕ
  pub curr_index : ℕ
  pub size : ℕ
  pub type_size : ℕ
  pub buf : ℕ
  pub lock : ℕ

pub data Status : Type 0 where
  success failure : Status

-- `sizeof(void *)`
abbrev pub ptr_size : ℕ
ptr_size = 4

-- `&circ_buf->buf[i]`
abbrev pub slot : CircBuf → ℕ → ℕ
slot c i = c.buf + ptr_size * i

-- The index that the next push writes.
abbrev pub push_index : CircBuf → ℕ
push_index c = u32 (c.curr_index + c.curr_size) % c.size

pub push_entry : (entry_src : ℕ) → CircBuf → Mem → Run (Status × CircBuf × Mem)
push_entry entry_src c m = if c.curr_size == c.size then ok (failure, c, m) else (do
  let m' = memcpy (slot c (push_index c)) entry_src c.type_size m
  let c' = record c { curr_size = u32 (c.curr_size + 1) }
  assert (leb c'.curr_size c.size)
  ok (success, c', m'))

-- `none` is the null pointer, which the function tests first.
pub push_circ_buf : (entry_src : ℕ) → Option CircBuf → Mem → Run (Status × Option CircBuf × Mem)
unfolding push_entry
push_circ_buf entry_src none m = ok (failure, none, m)
push_circ_buf entry_src (some c) m = do (s, c', m') ← push_entry entry_src c m; ok (s, some c', m')

pub pop_circ_buf : (entry_dst : ℕ) → CircBuf → Mem → Status × CircBuf × Mem
pop_circ_buf entry_dst c m = if c.curr_size == 0 then (failure, c, m) else (
  success,
  record c { curr_index = u32 (c.curr_index + 1) % c.size; curr_size = c.curr_size - 1 },
  memcpy entry_dst (slot c c.curr_index) c.type_size m,
)

-- `buf` is what `kmalloc(size * type_size)` returned; `memset` and `init_spinlock` leave zeros.
pub init_circ_buf : (size type_size buf : ℕ) → CircBuf
init_circ_buf size type_size buf = record {
  curr_size = 0;
  curr_index = 0;
  size = size;
  type_size = type_size;
  buf = buf;
  lock = 0;
}

-- The number of bytes that `init_circ_buf` asks `kmalloc` for.
pub storage_size : CircBuf → ℕ
storage_size c = u32 (c.size * c.type_size)
