-- ===== src/ByteIndexList.antt =====
-- klib/byte_index_list.c: a bitmap of slots, eight to a byte. `byte i` is the byte at `array + i`
-- and `free` is `free_ptr - array`; memory behind the `size` bytes is read and written as it is.
mod Tests
pub mod Bits
pub mod Slots
pub mod FreeSlot
use Prim.Native.Nat.{bit_and, bit_or}
use now_os.Base.{
  ℕ, zero, suc, ◌+◌, ◌-◌, ◌*◌, ◌/◌, ◌%◌, ◌^◌, Option, none, some, Run, ok, panic, ◌>>=◌, u32, ltb,
  ◌==◌, if◌then◌else◌,
}

pub record ByteIndexList : Type 0 where
  pub byte : ℕ → ℕ
  pub size : ℕ
  pub free : ℕ
  pub lock : ℕ

-- `array` is the memory from the array's address on.
unfoldable pub init_byte_index_list : (array : ℕ → ℕ) (size : ℕ) → ByteIndexList
init_byte_index_list array size = record { byte = array; size = size; free = 0; lock = 0 }

abbrev pub update : (ℕ → ℕ) → ℕ → ℕ → ℕ → ℕ
update f i v j = if j == i then v else f j

-- The loop of `update_free_ptr`, in `array + size - free_ptr` rounds.
pub advance : (rounds free temp_entry : ℕ) → (ℕ → ℕ) → Run ℕ
advance zero free temp_entry byte = panic
advance (suc n) free temp_entry byte =
    let rest = advance n (free + 1) (byte (free + 1)) byte in
    if temp_entry == 0xFF then rest else ok free

pub update_free_ptr : ByteIndexList → Run ByteIndexList
unfolding advance
update_free_ptr list = do
  free ← advance (list.size - list.free) list.free (list.byte list.free) list.byte
  ok (record list { free = free })

-- `temp_entry | (1 << byte_index)`
abbrev pub set_bit : (entry b : ℕ) → ℕ
set_bit entry b = bit_or entry (2 ^ b)

-- `temp_entry & ~(1 << byte_index)`, on 32 bits
abbrev pub clear_bit : (entry b : ℕ) → ℕ
clear_bit entry b = bit_and entry (2 ^ 32 - 1 - 2 ^ b)

-- `(temp_entry & (1 << byte_index)) >> byte_index`
abbrev pub get_bit : (entry b : ℕ) → ℕ
get_bit entry b = bit_and entry (2 ^ b) / 2 ^ b

pub byte_index_set_tbl : (index : ℕ) → ByteIndexList → ByteIndexList
byte_index_set_tbl index list =
    let i = index / 8 in
    record list { byte = update list.byte i (set_bit (list.byte i) (index % 8)) }

pub byte_index_release_tbl : (index : ℕ) → ByteIndexList → ByteIndexList
byte_index_release_tbl index list =
    let i = index / 8 in
    record list {
      byte = update list.byte i (clear_bit (list.byte i) (index % 8));
      free = if ltb i list.free then i else list.free;
    }

unfoldable pub byte_index_check_tbl : (index : ℕ) → ByteIndexList → ℕ
byte_index_check_tbl index list = get_bit (list.byte (index / 8)) (index % 8)

-- `for (i = 0; i < 8; i++)`; `none` leaves `byte_index` at -1.
pub first_clear : (rounds i temp_entry : ℕ) → Option ℕ
first_clear zero i temp_entry = none
first_clear (suc n) i temp_entry =
    let rest = first_clear n (i + 1) temp_entry in
    if bit_and temp_entry (2 ^ i) == 0 then some i else rest

-- The second half of `byte_index_get_free_slot`, from the second read of `tbl_index` on.
pub take_lowest : ByteIndexList → Run (ℕ × ByteIndexList)
take_lowest list =
    if list.byte list.free == 0xFF then panic else (elim (first_clear 8 0 (list.byte list.free)) [
      | none ↦ panic
      | some b ↦ (let ret = u32 (list.free * 8 + b) in ok (ret, byte_index_set_tbl ret list))
    ])

pub byte_index_get_free_slot : ByteIndexList → Run (ℕ × ByteIndexList)
unfolding update_free_ptr take_lowest
byte_index_get_free_slot list = do
  list' ← if list.byte list.free == 0xFF then update_free_ptr list else ok list
  take_lowest list'
