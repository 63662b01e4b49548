-- ===== src/ByteIndexList/Tests.antt =====
-- klib/byte_index_list.c on a table of two bytes whose first eleven slots are used.
use now_os.Base.{ℕ, zero, suc, ◌<◌, ◌≡◌, refl, ok, panic, arith}
use now_os.ByteIndexList.{
  ByteIndexList, init_byte_index_list, byte_index_get_free_slot, byte_index_set_tbl,
  byte_index_release_tbl, byte_index_check_tbl, first_clear,
}
use now_os.ByteIndexList.Slots.{IsValid, check-set, check-release, set-IsValid, release-IsValid}
use now_os.ByteIndexList.FreeSlot.{GotSlot, get_free_slot-GotSlot}

abbrev eleven : ℕ → ℕ
eleven zero = 0xFF
eleven (suc zero) = 7
eleven (suc (suc i)) = 0

eleven-lt : (i : ℕ) → eleven i < 256
eleven-lt zero = omega arith
eleven-lt (suc zero) = omega arith
eleven-lt (suc (suc i)) = omega arith

abbrev table : ByteIndexList
table = record { byte = eleven; size = 2; free = 0; lock = 0 }

table-IsValid : IsValid table
table-IsValid = record { bytes = eleven-lt; free_in = omega arith; full_before = λ i p. elim p [ ] }

next_slot :
    byte_index_get_free_slot table ≡ ok (11, byte_index_set_tbl 11 (record table { free = 1 }))
unfolding byte_index_get_free_slot first_clear
next_slot = refl

no_slot_left : byte_index_get_free_slot (init_byte_index_list (λ i. 0xFF) 2) ≡ panic
unfolding byte_index_get_free_slot init_byte_index_list
no_slot_left = refl

check-set_example :
    byte_index_check_tbl 3 (byte_index_set_tbl 12 table) ≡ byte_index_check_tbl 3 table
check-set_example = check-set table table-IsValid 12 3

check-release_example : byte_index_check_tbl 3 (byte_index_release_tbl 3 table) ≡ 0
check-release_example = check-release table table-IsValid 3 3

set-IsValid_example : IsValid (byte_index_set_tbl 12 table)
set-IsValid_example = set-IsValid table table-IsValid 12

release-IsValid_example : IsValid (byte_index_release_tbl 3 table)
release-IsValid_example = release-IsValid table table-IsValid 3

get_free_slot-GotSlot_example : GotSlot table (byte_index_get_free_slot table)
get_free_slot-GotSlot_example = get_free_slot-GotSlot table table-IsValid (omega arith)
