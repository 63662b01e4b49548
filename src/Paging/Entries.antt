-- ===== src/Paging/Entries.antt =====
-- The words of the entries.
use Prim.Native.Nat.{bit_or}
use now_os.Base.{
  ℕ, ◌+◌, ◌*◌, ◌/◌, ◌%◌, ◌^◌, ◌<◌, ◌≡◌, refl, arith, bit_or_low, bit_or-lt, or_step, page_size,
  is_aligned, true,
}
use now_os.Paging.{tbl_flags, page_dir_entry, page_tbl_entry, mask10}

or_frame :
    (x a b : ℕ) → x % 2 ^ 10 ≡ 0 → a < 2 ^ 10 → b < 2 ^ 10 → bit_or (x + a) b ≡ x + bit_or a b
or_frame x a b h p q =
    let e : x / 2 ^ 10 * 2 ^ 10 ≡ x = omega arith in rw e at (bit_or_low 10 (x / 2 ^ 10) a b p q)

module _ (r p w c : ℕ) (h1 : r < 2) (h2 : p < 2) (h3 : w < 2) (h4 : c < 2) where
  abbrev low1 : ℕ
  low1 = bit_or 1 (r * 2)

  abbrev low2 : ℕ
  low2 = bit_or low1 (p * 4)

  abbrev low3 : ℕ
  low3 = bit_or low2 (w * 8)

  abbrev low4 : ℕ
  low4 = bit_or low3 (c * 16)

  small1 : low1 < 2 ^ 10
  small1 = bit_or-lt 10 1 (r * 2) (omega arith) (omega arith)

  small2 : low2 < 2 ^ 10
  small2 = bit_or-lt 10 low1 (p * 4) small1 (omega arith)

  small3 : low3 < 2 ^ 10
  small3 = bit_or-lt 10 low2 (w * 8) small2 (omega arith)

  small4 : low4 < 2 ^ 10
  small4 = bit_or-lt 10 low3 (c * 16) small3 (omega arith)

  odd4 : low4 % 2 ≡ 1
  odd4 =
      omega (
        arith,
        or_step 1 (r * 2),
        or_step low1 (p * 4),
        or_step low2 (w * 8),
        or_step low3 (c * 16),
      )

  -- An entry is its frame and, below it, flags with the present bit.
  flags-frame : (x : ℕ) → x % 2 ^ 10 ≡ 0 → tbl_flags x r p w c ≡ x + low4
  unfolding tbl_flags
  flags-frame x h =
      let z : x + 0 ≡ x = omega arith in
      let e0 : bit_or x 1 ≡ x + 1 = rw z at (or_frame x 0 1 h (omega arith) (omega arith)) in
      rw
        (
          e0,
          or_frame x 1 (r * 2) h (omega arith) (omega arith),
          or_frame x low1 (p * 4) h small1 (omega arith),
          or_frame x low2 (w * 8) h small2 (omega arith),
          or_frame x low3 (c * 16) h small3 (omega arith),
        )
        refl

  pub tbl_entry-frame :
      (phys_addr : ℕ)
      → phys_addr % page_size ≡ 0
      → (low : ℕ) × (page_tbl_entry phys_addr r p w c ≡ phys_addr + low)
        × (low < 2 ^ 10)
        × (low % 2 ≡ 1)
  unfolding page_tbl_entry
  tbl_entry-frame phys_addr h =
      let m : mask10 phys_addr ≡ phys_addr = omega arith in
      (low4, rw m (flags-frame phys_addr (omega arith)), small4, odd4)

-- The entry of a new table.
pub dir_entry-frame :
    (phys_addr : ℕ) → phys_addr % page_size ≡ 0 → page_dir_entry phys_addr 1 0 0 0 0 ≡ phys_addr + 3
unfolding page_dir_entry
dir_entry-frame phys_addr h =
    let a : is_aligned phys_addr page_size ≡ true = ground (arith, h) in
    let m : mask10 phys_addr ≡ phys_addr = omega arith in
    let e =
      flags-frame 1 0 0 0 (omega arith) (omega arith) (omega arith) (omega arith) phys_addr
        (omega arith) in
    rw (a, m, e) (or_frame phys_addr 3 0 (omega arith) (omega arith) (omega arith))
