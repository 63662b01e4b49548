-- ===== src/Interrupt.antt =====
-- arch/irq_handle.c and arch/machine.c: what the kernel does for each interrupt vector, as the list of
-- its effects in order. The text of a message is left out; its level and its arguments stay.
pub mod Handlers
pub mod Answer
mod Tests
use now_os.Base.{ℕ, ◌+◌, ◌/◌, ◌^◌, Bool, List, [], ◌∷◌, Option}
use now_os.Kprint.{LogLevel, info, warn, error}

-- int_state_t
pub record IntState : Type 0 where
  pub cr0 : ℕ
  pub cr2 : ℕ
  pub cr3 : ℕ
  pub esp : ℕ
  pub ebp : ℕ
  pub edi : ℕ
  pub esi : ℕ
  pub edx : ℕ
  pub ecx : ℕ
  pub ebx : ℕ
  pub eax : ℕ
  pub int_num : ℕ
  pub error_code : ℕ
  pub eip : ℕ
  pub cs : ℕ
  pub eflags : ℕ

pub data Effect : Type 0 where
  kprint : (level : LogLevel) (args : List ℕ) → Effect
  lapic_eoi : Effect
  disable_int : Effect
  hlt : Effect

-- What a handler reads of the processor it runs on: its local APIC's number, its control registers,
-- and the timer handlers of `processor_tbl`, where a null pointer is `none`.
pub record Machine : Type 0 where
  pub apic_id : ℕ
  pub cr0 : ℕ
  pub cr2 : ℕ
  pub cr3 : ℕ
  pub timer_handler : ℕ → Option (IntState → List Effect)

abbrev pub max_cpu_count : ℕ
max_cpu_count = 8

-- PANIC of include/kprint.h, which does not return.
abbrev pub panic : (line : ℕ) → List Effect
panic line = kprint error (line ∷ []) ∷ disable_int ∷ hlt ∷ []

abbrev pub interrupt_register_dump : Machine → IntState → List Effect
interrupt_register_dump m state =
    kprint warn (state.int_num ∷ m.apic_id ∷ [])
    ∷ kprint info (state.eax ∷ state.ebx ∷ state.ecx ∷ state.edx ∷ [])
    ∷ kprint info (state.esi ∷ state.edi ∷ state.ebp ∷ state.esp ∷ [])
    ∷ kprint info (state.error_code ∷ state.eip ∷ state.cs ∷ state.eflags ∷ [])
    ∷ kprint info (m.cr0 ∷ m.cr2 ∷ m.cr3 ∷ [])
    ∷ []
