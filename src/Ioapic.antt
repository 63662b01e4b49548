-- ===== src/Ioapic.antt =====
-- arch/apic.c, the I/O APIC: its redirection entries, two registers each, are reached through a
-- select register and a window. A device is what a read of an address gives after the writes so far;
-- the writes are a list, the last one first. The addresses and the overrides come from kernel/acpi.c.
pub mod Masks
pub mod Entry
mod Tests
use Prim.Native.Nat.{bit_and, bit_or}
use now_os.Base.{
  ℕ, zero, suc, ◌+◌, ◌-◌, ◌*◌, ◌/◌, ◌%◌, ◌^◌, Bool, true, false, List, [], ◌∷◌, ◌==◌, if◌then◌else◌,
  u32, sub32,
}

abbrev pub Writes : Type 0
Writes = List (ℕ × ℕ)

-- apic_int_override
pub record Override : Type 0 where
  pub source : ℕ
  pub interrupt : ℕ
  pub flags : ℕ

-- What the functions read of kernel/acpi.c, and the device. `overrides` are those before the first
-- null pointer of the table.
pub record Ioapic : Type 0 where
  pub io_addr : ℕ
  pub gsi_base : ℕ
  pub overrides : List Override
  pub read : Writes → ℕ → ℕ

abbrev pub ioapic_win : ℕ
ioapic_win = 0x10

abbrev pub ioapic_redir : ℕ
ioapic_redir = 0x10

abbrev pub irq_base : ℕ
irq_base = 32

-- A `uint8_t`.
abbrev pub u8 : ℕ → ℕ
u8 n = n % 2 ^ 8

abbrev pub flag : Bool → ℕ
flag b = if b then 1 else 0

-- The first word of an entry.
pub redirection_entry1 :
    (interrupt_vector delivery_mode : ℕ)
    (logical_destination active_low trigger_level masked : Bool)
    → ℕ
redirection_entry1 interrupt_vector delivery_mode logical_destination active_low trigger_level
      masked =
    bit_or
      (bit_or
        (bit_or
          (bit_or (bit_or interrupt_vector (delivery_mode % 8 * 2 ^ 8))
            (flag logical_destination * 2 ^ 11))
          (flag active_low * 2 ^ 13))
        (flag trigger_level * 2 ^ 15))
      (flag masked * 2 ^ 16)

module _ (io : Ioapic) where
  abbrev pub select : (reg : ℕ) → Writes → Writes
  select reg w = (io.io_addr, reg) ∷ w

  pub ioapic_out : (reg val : ℕ) → Writes → Writes
  ioapic_out reg val w = (io.io_addr + ioapic_win, val) ∷ select (u8 reg) w

  pub ioapic_in : (reg : ℕ) → Writes → ℕ × Writes
  ioapic_in reg w = let w' = select (u8 reg) w in (io.read w' (io.io_addr + ioapic_win), w')

  pub ioapic_read_redirection_entry : (index : ℕ) → Writes → ℕ × Writes
  ioapic_read_redirection_entry index w =
      let (val, w') = ioapic_in (index * 2 + ioapic_redir) w in (val % 2 ^ 8, w')

  pub set_redirection_entry :
      (index interrupt_vector delivery_mode : ℕ)
      (logical_destination active_low trigger_level masked : Bool) (destination : ℕ)
      → Writes
      → Writes
  set_redirection_entry index interrupt_vector delivery_mode logical_destination active_low
        trigger_level masked destination w =
      ioapic_out (index * 2 + ioapic_redir + 1) (destination * 2 ^ 24) (
        ioapic_out (index * 2 + ioapic_redir)
          (redirection_entry1 interrupt_vector delivery_mode logical_destination active_low
            trigger_level masked)
          w)

  pub ioapic_identitymap_interrupts : (vector : ℕ) → Writes → Writes
  ioapic_identitymap_interrupts vector w =
      set_redirection_entry vector (u8 (vector + irq_base)) 0 false false false true 0 w

  -- The two switches on the flags: only 3 changes a default.
  pub ioapic_override_interrupts : (src gsi flags : ℕ) → Writes → Writes
  ioapic_override_interrupts src gsi flags w =
      let active_low = flags % 4 == 3 in
      let trigger_level = flags / 4 % 4 == 3 in
      set_redirection_entry (sub32 gsi io.gsi_base) (u8 (src + irq_base)) 0 false active_low
        trigger_level true 0 w

  -- The override of a vector if there is one, else the identity.
  pub map_redirection : (vector : ℕ) → List Override → Writes → Writes
  map_redirection vector [] w =
      let (low, w') = ioapic_read_redirection_entry vector w in
      if low == 0 then ioapic_identitymap_interrupts vector w' else w'
  map_redirection vector (o ∷ rest) w =
      let later = map_redirection vector rest w in
      if o.source == vector
      then ioapic_override_interrupts o.source (u8 o.interrupt) o.flags w
      else later

  pub map_redirection_interrupts : (vector : ℕ) → Writes → Writes
  unfolding map_redirection
  map_redirection_interrupts vector w = map_redirection vector io.overrides w

  pub ioapic_mask_redirection_entry : (index : ℕ) → Writes → Writes
  ioapic_mask_redirection_entry index w =
      let (entry, w') = ioapic_in (index * 2 + ioapic_redir) w in
      if bit_and entry (2 ^ 16) == 0
      then ioapic_out (index * 2 + ioapic_redir) (bit_or entry (2 ^ 16)) w'
      else w'

  pub ioapic_unmask_redirection_entry : (index : ℕ) → Writes → Writes
  ioapic_unmask_redirection_entry index w =
      let (entry, w') = ioapic_in (index * 2 + ioapic_redir) w in
      if bit_and entry (2 ^ 16) == 0
      then w'
      else ioapic_out (index * 2 + ioapic_redir) (bit_and entry (2 ^ 32 - 1 - 2 ^ 16)) w'

  -- A loop over the entries from `i` on, for the three below.
  pub each_entry : (rounds i : ℕ) → (body : ℕ → Writes → Writes) → Writes → Writes
  each_entry zero i body w = w
  each_entry (suc n) i body w = each_entry n (i + 1) body (body i w)

  pub ioapic_mask_all : (redirection_entry_count : ℕ) → Writes → Writes
  unfolding each_entry ioapic_mask_redirection_entry
  ioapic_mask_all count w = each_entry count 0 ioapic_mask_redirection_entry w

  pub ioapic_unmask_all : (redirection_entry_count : ℕ) → Writes → Writes
  unfolding each_entry ioapic_unmask_redirection_entry
  ioapic_unmask_all count w = each_entry count 0 ioapic_unmask_redirection_entry w

  -- After the registers are mapped: the count of entries and the writes.
  pub ioapic_init : Writes → ℕ × Writes
  unfolding each_entry map_redirection_interrupts ioapic_mask_all
  ioapic_init w =
      let (version, w') = ioapic_in 0x01 w in
      let count = u8 (version / 2 ^ 16 % 2 ^ 8 + 1) in
      (count, ioapic_mask_all count (each_entry count 0 map_redirection_interrupts w'))
