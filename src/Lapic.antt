-- ===== src/Lapic.antt =====
-- arch/apic.c, the local APIC of a processor, and kernel/timer.c, which sets up its timer. The device
-- is what a read of an address gives after the writes and the reads so far. The writes are a list, the
-- last one first.
pub mod Registers
pub mod Ipi
pub mod TimerSetup
mod Tests
use Prim.Native.Nat.{bit_and, bit_or}
use now_os.Base.{
  ℕ, zero, suc, ◌+◌, ◌-◌, ◌*◌, ◌/◌, ◌%◌, ◌^◌, Bool, true, false, not, List, [], ◌∷◌, ◌==◌,
  if◌then◌else◌, u32, Run, ok, out_of_fuel, panic, ◌>>=◌, ◌>>◌, assert,
}
use now_os.Lapic.Registers.{
  lapic_id, lapic_tpr, lapic_eoi_reg, lapic_ldr, lapic_dfr, lapic_svr, lapic_icrlo, lapic_icrhi,
  lapic_timer, lapic_thermal, lapic_perf, lapic_lint0, lapic_lint1, lapic_error, lapic_ticr,
  lapic_tccr, lapic_tdcr, icr_init, icr_startup, icr_send_pending, icr_assert,
  icr_all_excluding_self, lapic_time_divisor,
}
use now_os.Interrupt.Handlers.{apic_timer_irq, apic_ipi_irq, apic_err_irq, apic_spurious_irq}

-- `local_addr` is what `get_apic_localaddr` of kernel/acpi.c gives.
pub record Device : Type 0 where
  pub local_addr : ℕ
  pub read : (writes : List (ℕ × ℕ)) → (reads : ℕ) → ℕ → ℕ

pub record Bus : Type 0 where
  pub writes : List (ℕ × ℕ)
  pub reads : ℕ

-- LAPIC_ENABLE, LAPIC_LVT_TIMER_PERIODIC, LAPIC_LVT_TIMER_TSCDEADLINE, LAPIC_LVT_MASKED and
-- LAPIC_LVT_TRIGGER_LEVEL
abbrev pub lapic_enable : ℕ
lapic_enable = 2 ^ 8

abbrev pub lapic_lvt_timer_periodic : ℕ
lapic_lvt_timer_periodic = 2 ^ 17

abbrev pub lapic_lvt_timer_tscdeadline : ℕ
lapic_lvt_timer_tscdeadline = 2 ^ 18

abbrev pub lapic_lvt_masked : ℕ
lapic_lvt_masked = 2 ^ 16

abbrev pub lapic_lvt_trigger_level : ℕ
lapic_lvt_trigger_level = 2 ^ 14

abbrev pub lapic_lvt : (iv dm : ℕ) → ℕ
lapic_lvt iv dm = bit_or (iv % 2 ^ 8) (dm % 8 * 2 ^ 8)

pub data LapicTimermode : Type 0 where
  one_shot periodic tscdeadline : LapicTimermode

-- timer_t
pub record Timer : Type 0 where
  pub handler : ℕ
  pub ticks_per_call : ℕ

abbrev pub lapic_timer_ticks : ℕ
lapic_timer_ticks = 128000 * 64

abbrev pub mode_flags : LapicTimermode → ℕ
mode_flags periodic = lapic_lvt_timer_periodic
mode_flags one_shot = 0
mode_flags tscdeadline = lapic_lvt_timer_tscdeadline

module _ (d : Device) where
  abbrev pub lapic_out : (reg value : ℕ) → Bus → Bus
  lapic_out reg value b = record b { writes = (u32 (d.local_addr + reg), value) ∷ b.writes }

  abbrev pub lapic_in : (reg : ℕ) → Bus → ℕ × Bus
  lapic_in reg b =
      (d.read b.writes b.reads (u32 (d.local_addr + reg)), record b { reads = b.reads + 1 })

  -- `lapic_out(to, f(lapic_in(from)))`
  abbrev pub update : (from to : ℕ) → (f : ℕ → ℕ) → Bus → Bus
  update from to f b = let (old, b') = lapic_in from b in lapic_out to (f old) b'

  pub lapic_write_icr : (low high : ℕ) → Bus → Bus
  lapic_write_icr low high b = lapic_out lapic_icrlo low (lapic_out lapic_icrhi high b)

  pub lapic_waitfor_pending_icr : (fuel : ℕ) → Bus → Run Bus
  lapic_waitfor_pending_icr zero b = out_of_fuel
  lapic_waitfor_pending_icr (suc f) b =
      let (low, b') = lapic_in lapic_icrlo b in
      let again = lapic_waitfor_pending_icr f b' in
      if bit_and low icr_send_pending == 0 then ok b' else again

  pub lapic_set_lvt : (reg vector : ℕ) → Bus → Bus
  lapic_set_lvt reg vector b = update reg reg (λ old. bit_or (bit_and old (2 ^ 32 - 1)) vector) b

  pub lapic_cpu_init : (cpu : ℕ) → Bus → Bus
  unfolding lapic_set_lvt
  lapic_cpu_init cpu b =
      let b1 =
        update lapic_ldr lapic_ldr (λ old. bit_or (bit_and old 0xFF_FFFF) (cpu * 2 ^ 24)) b in
      let b2 = (lapic_in lapic_ldr b1).1 in
      let b3 = if cpu == 0 then lapic_set_lvt lapic_error apic_err_irq b2 else b2 in
      let b4 = lapic_out lapic_dfr 0xF000_0000 (lapic_set_lvt lapic_svr apic_spurious_irq b3) in
      let b5 = lapic_out lapic_timer (bit_or (lapic_lvt 0 0) lapic_lvt_masked) b4 in
      let b6 = lapic_out lapic_thermal (bit_or (lapic_lvt 0 0) lapic_lvt_masked) b5 in
      let b7 = lapic_out lapic_perf (bit_or (lapic_lvt 0 0) lapic_lvt_masked) b6 in
      let b8 = lapic_out lapic_lint0 (bit_or (lapic_lvt 0 7) lapic_lvt_masked) b7 in
      let b9 = lapic_out lapic_lint1 (bit_or (lapic_lvt 0 0) lapic_lvt_trigger_level) b8 in
      update lapic_svr lapic_svr (λ old. bit_or old lapic_enable) (lapic_out lapic_tpr 0 b9)

  pub lapic_get_id : Bus → ℕ × Bus
  lapic_get_id b = let (id, b') = lapic_in lapic_id b in (id / 2 ^ 24 % 2 ^ 8, b')

  -- `lapic_bsp_init` after the pages of the registers are mapped.
  pub lapic_bsp_init : Bus → Run Bus
  unfolding lapic_get_id lapic_cpu_init
  lapic_bsp_init b = do
    let b1 = lapic_out lapic_svr (bit_or lapic_enable apic_spurious_irq) (lapic_out lapic_tpr 0 b)
    let (id, b2) = lapic_get_id b1
    assert (id == 0)
    ok (lapic_cpu_init 0 b2)

  pub lapic_timer_enable : (enable : Bool) → Bus → Bus
  lapic_timer_enable enable b =
      if enable
      then lapic_out lapic_timer (bit_or (lapic_lvt apic_timer_irq 0) lapic_lvt_timer_periodic) b
      else lapic_out lapic_timer
          (bit_or (bit_or (lapic_lvt apic_timer_irq 0) lapic_lvt_masked) lapic_lvt_timer_periodic) b

  -- The divisor is 16, so the second switch takes the case that sets 3.
  pub lapic_setup_timer : (ticks : ℕ) → LapicTimermode → (enable : Bool) → Bus → Bus
  lapic_setup_timer ticks mode enable b =
      let flags = if enable then mode_flags mode else bit_or (mode_flags mode) lapic_lvt_masked in
      let b1 = lapic_out lapic_timer (bit_or (lapic_lvt apic_timer_irq 0) flags) b in
      let b2 = update lapic_tdcr lapic_tdcr (λ old. bit_or (bit_and old (2 ^ 32 - 2 ^ 4)) 3) b1 in
      elim mode [
        | periodic ↦ lapic_out lapic_ticr (ticks / lapic_time_divisor) b2
        | one_shot ↦ b2
        | tscdeadline ↦ b2
      ]

  pub lapic_get_timer_currcount : Bus → ℕ × Bus
  lapic_get_timer_currcount b = lapic_in lapic_tccr b

  pub lapic_eoi : Bus → Bus
  lapic_eoi b = lapic_out lapic_eoi_reg 0 b

  pub lapic_broadcast_ipi : (fuel : ℕ) → Bus → Run Bus
  unfolding lapic_waitfor_pending_icr lapic_write_icr
  lapic_broadcast_ipi fuel b = do
    b' ← lapic_waitfor_pending_icr fuel b
    ok (lapic_write_icr (bit_or (bit_or apic_ipi_irq icr_assert) icr_all_excluding_self) 0 b')

  pub lapic_send_ipi : (fuel cpu : ℕ) → Bus → Run Bus
  unfolding lapic_waitfor_pending_icr lapic_write_icr
  lapic_send_ipi fuel cpu b = do
    b' ← lapic_waitfor_pending_icr fuel b
    ok (lapic_write_icr (bit_or apic_ipi_irq icr_assert) (cpu * 2 ^ 24) b')

  pub lapic_send_init : (fuel apic_id : ℕ) → Bus → Run Bus
  unfolding lapic_waitfor_pending_icr
  lapic_send_init fuel apic_id b = lapic_waitfor_pending_icr fuel (
      lapic_out lapic_icrlo (bit_or icr_init icr_assert)
        (lapic_out lapic_icrhi (apic_id * 2 ^ 24) b))

  pub lapic_send_startup : (fuel apic_id vector : ℕ) → Bus → Run Bus
  unfolding lapic_waitfor_pending_icr
  lapic_send_startup fuel apic_id vector b = lapic_waitfor_pending_icr fuel (
      lapic_out lapic_icrlo (bit_or (bit_or vector icr_startup) icr_assert)
        (lapic_out lapic_icrhi (apic_id * 2 ^ 24) b))

  -- kernel/timer.c: the timer of the processor, and the writes.
  pub timer_setup_lapic_timer : (handler : ℕ) → Bus → Timer × Bus
  unfolding lapic_setup_timer
  timer_setup_lapic_timer handler b = (
    record { handler = handler; ticks_per_call = lapic_timer_ticks / lapic_time_divisor },
    lapic_setup_timer lapic_timer_ticks periodic false b,
  )

  pub timer_lapic_start : Bus → Bus
  unfolding lapic_timer_enable
  timer_lapic_start b = lapic_timer_enable true b
