-- ===== src/Base/Kdef.antt =====
-- The address macros of include/kdef.h. On `uint32_t` operands a sum wraps.
use Prim.Native.Nat.{ℕ, ◌+◌, ◌-◌, ◌/◌, ◌%◌, ◌^◌}
use mathlib.Core.Bool.{Bool}
use now_os.Base.Outcome.{u32}
use now_os.Base.Tests.{◌==◌, if◌then◌else◌}

abbrev pub page_size : ℕ
page_size = 4096

abbrev pub kern_virtual_addr : ℕ
kern_virtual_addr = 0xC000_0000

-- IS_ALIGNED
abbrev pub is_aligned : (x size : ℕ) → Bool
is_aligned x size = x % size == 0

-- ROUND_DOWN
abbrev pub round_down : (x size : ℕ) → ℕ
round_down x size = x - x % size

-- ALIGN_UP, which is ROUND_UP
abbrev pub align_up : (x size : ℕ) → ℕ
align_up x size = if is_aligned x size then x else u32 (x + (size - x % size))

-- ALIGN_DOWN
abbrev pub align_down : (x size : ℕ) → ℕ
align_down x size = round_down (u32 (x + size - 1)) size

-- PHYS_ADDR_TO_PAGE_INDEX: the mask clears the low twelve bits.
abbrev pub page_index : ℕ → ℕ
page_index x = (x - x % 2 ^ 12) / 2 ^ 12
