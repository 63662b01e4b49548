-- ===== src/Interrupt/Tests.antt =====
-- arch/irq_handle.c on single vectors.
use now_os.Base.{ℕ, ◌≡◌, refl, List, [], ◌∷◌, none, some, if◌then◌else◌, arith, ◌==◌}
use now_os.Kprint.{info, error}
use now_os.Interrupt.{IntState, Effect, kprint, lapic_eoi, Machine}
use now_os.Interrupt.Handlers.{interrupt_handler}
use now_os.Interrupt.Answer.{
  eois, halts, is_acknowledged, is_fatal, one_if, interrupt_handler-answers,
}

abbrev state_of : ℕ → IntState
state_of v = record {
  cr0 = 0;
  cr2 = 0;
  cr3 = 0;
  esp = 0;
  ebp = 0;
  edi = 0;
  esi = 0;
  edx = 0;
  ecx = 0;
  ebx = 0;
  eax = 0;
  int_num = v;
  error_code = 0;
  eip = 0;
  cs = 0;
  eflags = 0;
}

abbrev prints : IntState → List Effect
prints state = kprint info (state.eip ∷ []) ∷ []

abbrev cpu : Machine
cpu = record {
  apic_id = 1;
  cr0 = 0;
  cr2 = 0xdead;
  cr3 = 0;
  timer_handler = λ id. if id == 1 then some prints else none;
}

timer_acknowledges_first :
    interrupt_handler cpu (state_of 0xfc) ≡ lapic_eoi ∷ kprint info (0 ∷ []) ∷ []
unfolding interrupt_handler
timer_acknowledges_first = refl

unknown_vector : interrupt_handler cpu (state_of 200) ≡ kprint error (200 ∷ []) ∷ []
unfolding interrupt_handler
unknown_vector = refl

interrupt_handler-answers_example :
    (eois (interrupt_handler cpu (state_of 14)) ≡ one_if (is_acknowledged 14))
    × (halts (interrupt_handler cpu (state_of 14)) ≡ one_if (is_fatal 14))
interrupt_handler-answers_example =
    interrupt_handler-answers cpu (omega arith) (λ state handler e. ground arith) (state_of 14)
