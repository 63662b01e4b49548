-- ===== src/ByteIndexList/FreeSlot.antt =====
-- `byte_index_get_free_slot` hands out the lowest free slot, and halts only when there is none.
use now_os.Base.{
  ℕ, zero, suc, ◌+◌, ◌-◌, ◌*◌, ◌/◌, ◌%◌, ◌^◌, ◌≤◌, ◌<◌, ◌≡◌, ◌≢◌, inl, inr, false, refl, ◌==◌,
  Bool-cases, Run, ok, panic, ◌>>=◌, u32, if◌then◌else◌, arith,
}
use native.Mathlib.Decide.{ℕ_discrete}
use now_os.ByteIndexList.{
  ByteIndexList, advance, update_free_ptr, take_lowest, byte_index_get_free_slot,
  byte_index_set_tbl, byte_index_check_tbl,
}
use now_os.ByteIndexList.Bits.{IsFirstClear, first_clear-IsFirstClear, full-get_bit}
use now_os.ByteIndexList.Slots.{IsValid, check-set, set-IsValid}

-- Where the search for a byte that is not full ends.
data Advanced (byte : ℕ → ℕ) (from to : ℕ) (r : Run ℕ) : Type 0 where
  stops :
      (f : ℕ)
      → r ≡ ok f
      → from ≤ f
      → f < to
      → byte f ≢ 0xFF
      → ((k : ℕ) → k < f → byte k ≡ 0xFF)
      → Advanced byte from to r
  halts : r ≡ panic → ((k : ℕ) → k < to → byte k ≡ 0xFF) → Advanced byte from to r

advance-Advanced :
    (n from to : ℕ) (byte : ℕ → ℕ)
    → from + n ≡ to
    → ((k : ℕ) → k < from → byte k ≡ 0xFF)
    → Advanced byte from to (advance n from (byte from) byte)
unfolding advance
advance-Advanced zero from to byte e full = halts refl (λ k p. full k (omega arith))
advance-Advanced (suc n) from to byte e full = elim (Bool-cases (byte from == 0xFF)) [
  | inl f ↦ rw f (
      weaken (
        advance-Advanced n (from + 1) to byte (omega arith) λ k p. elim (ℕ_discrete k from) [
          | yes same ↦ rw same (ground arith)
          | no other ↦ full k (omega arith)
        ]))
  | inr nf ↦ rw nf (stops from refl (omega arith) (omega arith) (ground arith) full)
]
  where
    weaken :
        Advanced byte (from + 1) to (advance n (from + 1) (byte (from + 1)) byte)
        → Advanced byte from to (advance n (from + 1) (byte (from + 1)) byte)
    weaken (stops f e p q r s) = stops f e (omega arith) q r s
    weaken (halts e s) = halts e s

-- The lowest free slot was taken, or all slots are used and the kernel halts.
pub data GotSlot (list : ByteIndexList) (r : Run (ℕ × ByteIndexList)) : Type 0 where
  got :
      (slot : ℕ) (list' : ByteIndexList)
      → r ≡ ok (slot, list')
      → slot < list.size * 8
      → byte_index_check_tbl slot list ≡ 0
      → ((j : ℕ) → j < slot → byte_index_check_tbl j list ≡ 1)
      → ((j : ℕ)
          → byte_index_check_tbl j list' ≡ (if slot == j then 1 else byte_index_check_tbl j list))
      → IsValid list'
      → GotSlot list r
  none_left :
      r ≡ panic → ((j : ℕ) → j < list.size * 8 → byte_index_check_tbl j list ≡ 1) → GotSlot list r

-- Slots of full bytes are used.
used_of_full :
    (list : ByteIndexList) (j : ℕ) → list.byte (j / 8) ≡ 0xFF → byte_index_check_tbl j list ≡ 1
unfolding byte_index_check_tbl
used_of_full list j h = rw h (full-get_bit (j % 8) (omega arith))

module _ (list : ByteIndexList) (v : IsValid list) (b : ℕ)
    (w : IsFirstClear (list.byte list.free) b) where
  lowest_is_free : byte_index_check_tbl (list.free * 8 + b) list ≡ 0
  unfolding byte_index_check_tbl
  lowest_is_free =
      let d : (list.free * 8 + b) / 8 ≡ list.free = omega (arith, w.small) in
      let m : (list.free * 8 + b) % 8 ≡ b = omega (arith, w.small) in rw (d, m) w.clear

  lower_is_used : (j : ℕ) → j < list.free * 8 + b → byte_index_check_tbl j list ≡ 1
  unfolding byte_index_check_tbl
  lower_is_used j lt = elim (ℕ_discrete (j / 8) list.free) [
    | yes e ↦ rw e (w.lowest (j % 8) (omega arith))
    | no ne ↦ used_of_full list j (v.full_before (j / 8) (omega (arith, w.small)))
  ]

take_lowest-GotSlot :
    (list : ByteIndexList)
    → IsValid list
    → list.size * 8 ≤ 2 ^ 32
    → list.byte list.free ≢ 0xFF
    → GotSlot list (take_lowest list)
unfolding take_lowest
take_lowest-GotSlot list v small h =
    let (b, e, w) = first_clear-IsFirstClear (list.byte list.free) (v.bytes list.free) h in
    let nf : (list.byte list.free == 0xFF) ≡ false = ground arith in
    let z : u32 (list.free * 8 + b) ≡ list.free * 8 + b = omega (arith, w.small, v.free_in) in
    let slot : ℕ = list.free * 8 + b in
    got slot (byte_index_set_tbl slot list) (rw (nf, e, z)) (omega (arith, w.small, v.free_in))
      (lowest_is_free list v b w) (lower_is_used list v b w) (check-set list v slot)
      (set-IsValid list v slot)

-- What moving `free_ptr` up to a byte that is not full keeps.
GotSlot-moved :
    (list : ByteIndexList) (f : ℕ) {r : Run (ℕ × ByteIndexList)}
    → GotSlot (record list { free = f }) r
    → GotSlot list r
unfolding byte_index_check_tbl
GotSlot-moved list f (got slot l e p q u c w) = got slot l e p q u c w
GotSlot-moved list f (none_left e u) = none_left e u

-- `byte_index_get_free_slot` takes the lowest free slot, marks it and changes no other slot; it
-- halts exactly when every slot of the table is used.
pub get_free_slot-GotSlot :
    (list : ByteIndexList)
    → IsValid list
    → list.size * 8 ≤ 2 ^ 32
    → GotSlot list (byte_index_get_free_slot list)
unfolding byte_index_get_free_slot
get_free_slot-GotSlot list v small = elim (Bool-cases (list.byte list.free == 0xFF)) [
  | inl f ↦ rw f (
      from_search (
        advance-Advanced (list.size - list.free) list.free list.size list.byte
          (omega (arith, v.free_in)) v.full_before))
  | inr nf ↦ rw nf (take_lowest-GotSlot list v small (ground arith))
]
  where
    from_search :
        Advanced list.byte list.free list.size
          (advance (list.size - list.free) list.free (list.byte list.free) list.byte)
        → GotSlot list (update_free_ptr list >>= take_lowest)
    from_search (stops f e p q nf full) =
        rw (e, update_free_ptr)
          (GotSlot-moved list f (
            take_lowest-GotSlot (record list { free = f })
              (record { bytes = v.bytes; free_in = q; full_before = full }) small nf))
    from_search (halts e full) =
        rw (e, update_free_ptr)
          (none_left refl λ j p. used_of_full list j (full (j / 8) (omega arith)))
