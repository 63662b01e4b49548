-- ===== src/Ioapic/Entry.antt =====
-- The words of a redirection entry.
use Prim.Native.Nat.{bit_or}
use now_os.Base.{
  ℕ, ◌-◌, ◌*◌, ◌%◌, ◌^◌, ◌<◌, ◌≡◌, Bool, true, false, ◌==◌, if◌then◌else◌, arith, bit, bit_above,
  bit_shift, bit-bit_or, bit-pow, bit-zero, ltb,
}
use now_os.Ioapic.{flag, redirection_entry1}

-- A flag at its place.
bit-flag : (b : Bool) (k i : ℕ) → bit (flag b * 2 ^ k) i ≡ (if i == k then flag b else 0)
bit-flag true k i = let e : 1 * 2 ^ k ≡ 2 ^ k = omega arith in rw e (bit-pow k i)
bit-flag false k i = let e : 0 * 2 ^ k ≡ 0 = omega arith in rw e (ground (arith, bit-zero i))

-- Each bit of the first word: the vector in bits 0 to 7, the delivery mode in 8 to 10, and the four
-- flags in their bits; all others are clear. The vector is a byte.
pub entry1-bits :
    (vector mode i : ℕ) (logical active_low trigger_level masked : Bool)
    → vector < 2 ^ 8
    → bit (redirection_entry1 vector mode logical active_low trigger_level masked) i ≡ (
        if ltb i 8
        then bit vector i
        else if ltb i 11
        then bit (mode % 8) (i - 8)
        else if i == 11
        then flag logical
        else if i == 13
        then flag active_low
        else if i == 15
        then flag trigger_level
        else if i == 16
        then flag masked
        else 0)
unfolding redirection_entry1
entry1-bits vector mode i logical active_low trigger_level masked small =
    let with_mode = bit_or vector (mode % 8 * 2 ^ 8) in
    let with_logical = bit_or with_mode (flag logical * 2 ^ 11) in
    let with_low = bit_or with_logical (flag active_low * 2 ^ 13) in
    let with_level = bit_or with_low (flag trigger_level * 2 ^ 15) in
    let all = bit_or with_level (flag masked * 2 ^ 16) in
    rw
      (
        bit-bit_or with_level (flag masked * 2 ^ 16) i,
        bit-bit_or with_low (flag trigger_level * 2 ^ 15) i,
        bit-bit_or with_logical (flag active_low * 2 ^ 13) i,
        bit-bit_or with_mode (flag logical * 2 ^ 11) i,
        bit-bit_or vector (mode % 8 * 2 ^ 8) i,
        bit-flag logical 11 i,
        bit-flag active_low 13 i,
        bit-flag trigger_level 15 i,
        bit-flag masked 16 i,
        bit_shift 8 (mode % 8) i,
      )
      (ground (arith, bit_above 8 vector i small, bit_above 3 (mode % 8) (i - 8) (omega arith)))
