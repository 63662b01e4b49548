-- ===== src/Pic.antt =====
-- arch/pic.c and arch/pit.c: the two interrupt controllers and the timer chip. A device is what a read
-- of a port gives after the writes so far; the writes are a list, the last one first.
pub mod Masks
pub mod Clock
mod Tests
use Prim.Native.Nat.{bit_and, bit_or}
use now_os.Base.{
  ℕ, zero, suc, ◌+◌, ◌-◌, ◌*◌, ◌/◌, ◌%◌, ◌^◌, Bool, true, false, List, [], ◌∷◌, ltb, leb,
  if◌then◌else◌, u32, sub32, Run, ok, out_of_fuel,
}
use now_os.ByteIndexList.{set_bit, clear_bit}

abbrev pub Writes : Type 0
Writes = List (ℕ × ℕ)

abbrev pub outb : (port value : ℕ) → Writes → Writes
outb port value w = (port, value) ∷ w

abbrev pub pic1_command : ℕ
pic1_command = 0x20

abbrev pub pic1_data : ℕ
pic1_data = 0x21

abbrev pub pic2_command : ℕ
pic2_command = 0xA0

abbrev pub pic2_data : ℕ
pic2_data = 0xA1

abbrev pub pic_eoi : ℕ
pic_eoi = 0x20

pub pic_remap : Writes → Writes
pic_remap w =
    let icw1 = outb 0xA0 0x11 (outb 0x20 0x11 w) in
    let icw2 = outb 0xA1 40 (outb 0x21 0x20 icw1) in
    let icw3 = outb 0xA1 0x02 (outb 0x21 0x04 icw2) in
    let icw4 = outb 0xA1 0x01 (outb 0x21 0x01 icw3) in outb 0xA1 0x0 (outb 0x21 0x0 icw4)

pub pic_disable : Writes → Writes
pic_disable w =
    let icw1 = outb 0xA0 0x11 (outb 0x20 0x11 w) in
    let icw2 = outb 0xA1 0xE8 (outb 0x21 0xE0 icw1) in
    let icw3 = outb 0xA1 2 (outb 0x21 4 icw2) in
    let icw4 = outb 0xA1 1 (outb 0x21 1 icw3) in outb 0xA1 0xFF (outb 0x21 0xFF icw4)

pub pic_send_eoi : (irq : ℕ) → Writes → Writes
pic_send_eoi irq w =
    outb pic1_command pic_eoi (if leb 8 irq then outb pic2_command pic_eoi w else w)

-- The port and the bit that `pic_set_mask` and `pic_clear_mask` choose.
abbrev pub data_port : (irq : ℕ) → ℕ
data_port irq = if ltb irq 8 then pic1_data else pic2_data

abbrev pub data_bit : (irq : ℕ) → ℕ
data_bit irq = if ltb irq 8 then irq else irq - 8

-- `inb` is the device. A `uint8_t` keeps its value modulo 2 ^ 8.
pub pic_set_mask : (inb : Writes → ℕ → ℕ) (irq : ℕ) → Writes → Writes
pic_set_mask inb irq w =
    outb (data_port irq) (set_bit (inb w (data_port irq)) (data_bit irq) % 2 ^ 8) w

pub pic_clear_mask : (inb : Writes → ℕ → ℕ) (irq : ℕ) → Writes → Writes
pic_clear_mask inb irq w =
    outb (data_port irq) (clear_bit (inb w (data_port irq)) (data_bit irq) % 2 ^ 8) w

pub pic_get_irq_reg : (inb : Writes → ℕ → ℕ) (ocw3 : ℕ) → Writes → ℕ × Writes
pic_get_irq_reg inb ocw3 w =
    let w' = outb pic2_command ocw3 (outb pic1_command ocw3 w) in
    (bit_or (inb w' pic2_command * 2 ^ 8) (inb w' pic1_command) % 2 ^ 16, w')

pub pic_get_irr : (inb : Writes → ℕ → ℕ) → Writes → ℕ × Writes
pic_get_irr inb w = pic_get_irq_reg inb 0x0A w

pub pic_get_isr : (inb : Writes → ℕ → ℕ) → Writes → ℕ × Writes
pic_get_isr inb w = pic_get_irq_reg inb 0x0B w

-- The counters of arch/pit.c. The handler that `pit_interrupt_handler` calls at its end is not here.
pub record Pit : Type 0 where
  pub ns_ticks : ℕ
  pub ns_counter : ℕ
  pub ticks : ℕ

pub pit_interrupt_handler : Pit → Pit
pit_interrupt_handler p = record p {
  ns_counter = u32 (p.ns_counter + p.ns_ticks);
  ticks = u32 (p.ticks + 1);
}

abbrev pub pit_divisor : ℕ
pit_divisor = 1193181 / 1000

pub init_pit : Writes → Pit × Writes
init_pit w = (
  record { ns_ticks = 1000; ns_counter = 0; ticks = 0 },
  outb 0x40 (bit_and (pit_divisor / 2 ^ 8) 0xFF)
      (outb 0x40 (bit_and pit_divisor 0xFF) (outb 0x43 (bit_or (bit_or 0x6 0x30) 0) w)),
)

pub pit_reset_ticks : Pit → Pit
pit_reset_ticks p = record p { ticks = 0 }

pub pit_get_ms : Pit → ℕ
pit_get_ms p = p.ns_counter / 1000000

-- The loop of `pit_wait_ms` on fuel, where `clock k` is the counters at its reading `k`; it ends at a
-- reading.
pub wait_from : (fuel k start_time ms : ℕ) (clock : ℕ → Pit) → Run ℕ
unfolding pit_get_ms
wait_from zero k start_time ms clock = out_of_fuel
wait_from (suc f) k start_time ms clock =
    let rest = wait_from f (k + 1) start_time ms clock in
    if ltb (sub32 (pit_get_ms (clock k)) start_time) ms then rest else ok k

pub pit_wait_ms : (fuel ms : ℕ) (clock : ℕ → Pit) → Run ℕ
unfolding wait_from
pit_wait_ms fuel ms clock = wait_from fuel 1 (pit_get_ms (clock 0)) ms clock
