-- ===== src/Ioapic/Tests.antt =====
-- An I/O APIC of 24 entries that keeps what is written to its registers.
use now_os.Base.{ℕ, ◌≡◌, refl, true, false, [], ◌∷◌, ◌==◌, if◌then◌else◌, arith, u32, bit}
use now_os.Ioapic.{
  Writes, Ioapic, redirection_entry1, ioapic_out, set_redirection_entry, ioapic_override_interrupts,
  map_redirection, map_redirection_interrupts,
}
use now_os.Ioapic.Masks.{register}
use now_os.Ioapic.Entry.{entry1-bits}

abbrev base : ℕ
base = 0xFEC0_0000

abbrev win : ℕ
win = 0xFEC0_0010

abbrev selected : Writes → ℕ
selected [] = 0
selected ((a, v) ∷ w) = let before = selected w in if a == base then v else before

-- Register 1 holds the number of the last entry in bits 16 to 23.
abbrev stored : Writes → (reg : ℕ) → ℕ
stored [] reg = if reg == 1 then 0x17_0020 else 0
stored ((a, v) ∷ w) reg =
    let before = stored w reg in
    if a == win then (if selected w == reg then v else before) else before

-- The timer's line 0 stands at entry 2, as on a PC.
abbrev device : Ioapic
device = record {
  io_addr = base;
  gsi_base = 0;
  overrides = record { source = 0; interrupt = 2; flags = 0 } ∷ [];
  read = λ w a. if a == win then u32 (stored w (selected w)) else 0;
}

-- The override puts vector 32 into entry 2.
routed : register device (map_redirection_interrupts device 0 []) 20 ≡ 0x1_0020
unfolding map_redirection_interrupts map_redirection ioapic_override_interrupts
    set_redirection_entry ioapic_out redirection_entry1
routed = refl

entry1-bits_example : bit (redirection_entry1 0x31 0 false true true true) 13 ≡ 1
entry1-bits_example = entry1-bits 0x31 0 13 false true true true (omega arith)
