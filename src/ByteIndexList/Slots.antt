-- ===== src/ByteIndexList/Slots.antt =====
-- The slots that the bitmap stands for, and what marking and releasing one does to the others.
use now_os.Base.{ℕ, ◌/◌, ◌%◌, ◌<◌, ◌≡◌, refl, ◌==◌, if◌then◌else◌, arith}
use now_os.ByteIndexList.{
  ByteIndexList, byte_index_set_tbl, byte_index_release_tbl, byte_index_check_tbl,
  init_byte_index_list,
}
use now_os.ByteIndexList.Bits.{
  get_bit-set_bit, get_bit-clear_bit, set_bit-lt, clear_bit-lt, get_bit-lt, set_bit_full,
}

-- Every entry is a byte, `free_ptr` is in the array, and all bytes before it are full.
pub record IsValid (list : ByteIndexList) : Type 0 where
  pub bytes : (i : ℕ) → list.byte i < 256
  pub free_in : list.free < list.size
  pub full_before : (i : ℕ) → i < list.free → list.byte i ≡ 0xFF

-- A list over at least one byte is valid when it is made.
pub init-IsValid :
    (array : ℕ → ℕ) (size : ℕ)
    → 0 < size
    → ((i : ℕ) → array i < 256)
    → IsValid (init_byte_index_list array size)
unfolding init_byte_index_list
init-IsValid array size p h = record { bytes = h; free_in = p; full_before = λ i q. elim q [ ] }

module _ (list : ByteIndexList) (v : IsValid list) (index : ℕ) where
  -- A slot is used or free.
  pub check-lt : byte_index_check_tbl index list < 2
  unfolding byte_index_check_tbl
  check-lt = get_bit-lt (list.byte (index / 8)) (index % 8) (v.bytes (index / 8)) (omega arith)

  -- After `byte_index_set_tbl` the slot is used, and every other slot is as before.
  pub check-set :
      (j : ℕ)
      → byte_index_check_tbl j (byte_index_set_tbl index list)
        ≡ (if index == j then 1 else byte_index_check_tbl j list)
  unfolding byte_index_check_tbl byte_index_set_tbl
  check-set j =
      ground
        (arith, get_bit-set_bit (list.byte (index / 8)) (index % 8) (j % 8) (v.bytes (index / 8)))

  -- After `byte_index_release_tbl` the slot is free, and every other slot is as before.
  pub check-release :
      (j : ℕ)
      → byte_index_check_tbl j (byte_index_release_tbl index list)
        ≡ (if index == j then 0 else byte_index_check_tbl j list)
  unfolding byte_index_check_tbl byte_index_release_tbl
  check-release j =
      ground
        (arith, get_bit-clear_bit (list.byte (index / 8)) (index % 8) (j % 8) (v.bytes (index / 8)))

  -- Marking any slot keeps the list valid.
  pub set-IsValid : IsValid (byte_index_set_tbl index list)
  unfolding byte_index_set_tbl
  set-IsValid = record {
    bytes = λ i.
        ground
          (arith, v.bytes i, set_bit-lt (list.byte (index / 8)) (index % 8) (v.bytes (index / 8)));
    free_in = v.free_in;
    full_before = λ i p. ground (arith, v.full_before i, set_bit_full (index % 8));
  }

  pub set-size : (byte_index_set_tbl index list).size ≡ list.size
  unfolding byte_index_set_tbl
  set-size = refl

  -- Releasing any slot keeps the list valid.
  pub release-IsValid : IsValid (byte_index_release_tbl index list)
  unfolding byte_index_release_tbl
  release-IsValid = record {
    bytes = λ i.
        ground (
          arith,
          v.bytes i,
          clear_bit-lt (list.byte (index / 8)) (index % 8) (v.bytes (index / 8)),
        );
    free_in = ground (arith, v.free_in);
    full_before = λ i p. ground (arith, v.full_before i);
  }
