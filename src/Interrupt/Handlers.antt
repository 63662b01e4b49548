-- ===== src/Interrupt/Handlers.antt =====
-- The handlers of arch/irq_handle.c, and `interrupt_handler`, which takes one by its vector.
use now_os.Base.{ℕ, List, [], ◌∷◌, ◌++◌, none, some, ltb, ◌==◌, if◌then◌else◌}
use now_os.Kprint.{info, warn, error}
use now_os.Interrupt.{
  IntState, Effect, kprint, lapic_eoi, hlt, Machine, max_cpu_count, panic, interrupt_register_dump,
}

abbrev pub Handler : Type 0
Handler = Machine → IntState → List Effect

abbrev pub divide_by_zero_handler : Handler
divide_by_zero_handler m state = kprint error [] ∷ interrupt_register_dump m state ++ hlt ∷ []

abbrev pub nmi_handler : Handler
nmi_handler m state = interrupt_register_dump m state ++ kprint warn [] ∷ []

abbrev pub overflow_handler : Handler
overflow_handler m state = interrupt_register_dump m state ++ kprint error [] ∷ hlt ∷ []

abbrev pub bound_range_exceeded_handler : Handler
bound_range_exceeded_handler m state = interrupt_register_dump m state ++ kprint error [] ∷ hlt ∷ []

abbrev pub invalid_opcode_handler : Handler
invalid_opcode_handler m state = interrupt_register_dump m state ++ kprint error [] ∷ hlt ∷ []

abbrev pub device_not_available_handler : Handler
device_not_available_handler m state = interrupt_register_dump m state ++ kprint warn [] ∷ []

abbrev pub double_fault_handler : Handler
double_fault_handler m state = interrupt_register_dump m state ++ kprint error [] ∷ hlt ∷ []

abbrev pub invalid_tss_handler : Handler
invalid_tss_handler m state = interrupt_register_dump m state ++ kprint error [] ∷ hlt ∷ []

abbrev pub segment_not_present_handler : Handler
segment_not_present_handler m state = interrupt_register_dump m state ++ kprint error [] ∷ hlt ∷ []

abbrev pub stack_segment_fault_handler : Handler
stack_segment_fault_handler m state = interrupt_register_dump m state ++ kprint error [] ∷ hlt ∷ []

abbrev pub gpf_handler : Handler
gpf_handler m state = interrupt_register_dump m state ++ kprint error [] ∷ hlt ∷ []

abbrev pub page_fault_handler : Handler
page_fault_handler m state =
    kprint error [] ∷ interrupt_register_dump m state ++ kprint info (m.cr2 ∷ []) ∷ panic 106

abbrev pub default_handler : Handler
default_handler m state = kprint error (state.int_num ∷ []) ∷ []

abbrev pub irq0_handler : Handler
irq0_handler m state = lapic_eoi ∷ []

abbrev pub irq1_handler : Handler
irq1_handler m state = kprint info [] ∷ interrupt_register_dump m state ++ lapic_eoi ∷ []

abbrev pub irq2_handler : Handler
irq2_handler m state = kprint info [] ∷ lapic_eoi ∷ []

abbrev pub irq3_handler : Handler
irq3_handler m state = kprint info [] ∷ lapic_eoi ∷ []

abbrev pub irq4_handler : Handler
irq4_handler m state = kprint info [] ∷ lapic_eoi ∷ []

abbrev pub irq5_handler : Handler
irq5_handler m state = kprint info [] ∷ lapic_eoi ∷ []

abbrev pub irq6_handler : Handler
irq6_handler m state = kprint info [] ∷ lapic_eoi ∷ []

abbrev pub irq7_handler : Handler
irq7_handler m state = kprint info [] ∷ lapic_eoi ∷ []

abbrev pub irq8_handler : Handler
irq8_handler m state = kprint info [] ∷ lapic_eoi ∷ []

abbrev pub irq9_handler : Handler
irq9_handler m state = kprint info [] ∷ lapic_eoi ∷ []

abbrev pub irq10_handler : Handler
irq10_handler m state = kprint info [] ∷ lapic_eoi ∷ []

abbrev pub irq11_handler : Handler
irq11_handler m state = kprint info [] ∷ lapic_eoi ∷ []

abbrev pub irq12_handler : Handler
irq12_handler m state = kprint info [] ∷ lapic_eoi ∷ []

abbrev pub irq13_handler : Handler
irq13_handler m state = kprint info [] ∷ lapic_eoi ∷ []

abbrev pub irq14_handler : Handler
irq14_handler m state = kprint info [] ∷ lapic_eoi ∷ []

abbrev pub irq15_handler : Handler
irq15_handler m state = kprint info [] ∷ lapic_eoi ∷ []

abbrev pub ipi_handler : Handler
ipi_handler m state = kprint warn (m.apic_id ∷ []) ∷ lapic_eoi ∷ []

abbrev pub apic_err_handler : Handler
apic_err_handler m state = kprint warn (m.apic_id ∷ []) ∷ lapic_eoi ∷ []

abbrev pub spurious_handler : Handler
spurious_handler m state = kprint warn (m.apic_id ∷ []) ∷ lapic_eoi ∷ []

-- `processor_get_info` stops on a processor behind the table and never returns null.
abbrev pub lapic_timer_handler : Handler
lapic_timer_handler m state =
    if ltb m.apic_id max_cpu_count
    then lapic_eoi ∷ (elim (m.timer_handler m.apic_id) [ none ↦ [] | some handler ↦ handler state ])
    else panic 26

abbrev pub apic_timer_irq : ℕ
apic_timer_irq = 0xfc

abbrev pub apic_ipi_irq : ℕ
apic_ipi_irq = 0xfd

abbrev pub apic_err_irq : ℕ
apic_err_irq = 0xfe

abbrev pub apic_spurious_irq : ℕ
apic_spurious_irq = 0xff

-- The cases of the switch, in order.
abbrev pub cases : List (ℕ × Handler)
cases =
    (0, divide_by_zero_handler)
    ∷ (2, nmi_handler)
    ∷ (4, overflow_handler)
    ∷ (5, bound_range_exceeded_handler)
    ∷ (6, invalid_opcode_handler)
    ∷ (7, device_not_available_handler)
    ∷ (8, double_fault_handler)
    ∷ (10, invalid_tss_handler)
    ∷ (11, segment_not_present_handler)
    ∷ (12, stack_segment_fault_handler)
    ∷ (13, gpf_handler)
    ∷ (14, page_fault_handler)
    ∷ (32, irq0_handler)
    ∷ (33, irq1_handler)
    ∷ (34, irq2_handler)
    ∷ (35, irq3_handler)
    ∷ (36, irq4_handler)
    ∷ (37, irq5_handler)
    ∷ (38, irq6_handler)
    ∷ (39, irq7_handler)
    ∷ (40, irq8_handler)
    ∷ (41, irq9_handler)
    ∷ (42, irq10_handler)
    ∷ (43, irq11_handler)
    ∷ (44, irq12_handler)
    ∷ (45, irq13_handler)
    ∷ (46, irq14_handler)
    ∷ (47, irq15_handler)
    ∷ (apic_ipi_irq, ipi_handler)
    ∷ (apic_err_irq, apic_err_handler)
    ∷ (apic_spurious_irq, spurious_handler)
    ∷ (apic_timer_irq, lapic_timer_handler)
    ∷ []

unfoldable pub switch : (int_num : ℕ) → List (ℕ × Handler) → Handler
switch int_num [] = default_handler
switch int_num ((v, handler) ∷ rest) =
    let other = switch int_num rest in if int_num == v then handler else other

unfoldable pub interrupt_handler : Handler
unfolding switch
interrupt_handler m state = switch state.int_num cases m state
