-- ===== src/Idt.antt =====
-- arch/idt.c: the table of interrupt gates. The masks that take a half of an address are written as
-- remainders and quotients by 2 ^ 16. The addresses of the handlers of arch/irq.s are a parameter,
-- and so is the address of the table.
pub mod Gates
mod Tests
use now_os.Base.{
  ℕ, zero, suc, ◌+◌, ◌-◌, ◌*◌, ◌/◌, ◌%◌, ◌^◌, Bool, true, false, List, [], ◌∷◌, ◌++◌, ◌==◌,
  if◌then◌else◌,
}

pub record IdtEntry : Type 0 where
  pub offset_lower : ℕ
  pub selector : ℕ
  pub zero_byte : ℕ
  pub type : ℕ
  pub offset_higher : ℕ

-- idt_reg_desc_t
pub record IdtDesc : Type 0 where
  pub limit : ℕ
  pub base : ℕ

abbrev pub kern_code_segment : ℕ
kern_code_segment = 0x08

abbrev pub type_32_int_gate : ℕ
type_32_int_gate = 0x8E

abbrev pub set_idt_entry : (int_num address selector type : ℕ) → (idt : ℕ → IdtEntry) → ℕ → IdtEntry
set_idt_entry int_num address selector type idt i =
    let entry : IdtEntry = record {
      offset_lower = address % 2 ^ 16;
      selector = selector;
      zero_byte = 0;
      type = type;
      offset_higher = address / 2 ^ 16 % 2 ^ 16;
    } in
    if i == int_num then entry else idt i

abbrev pub set_kern_interrupt : (int_num address : ℕ) → (ℕ → IdtEntry) → ℕ → IdtEntry
set_kern_interrupt int_num address idt =
    set_idt_entry int_num address kern_code_segment type_32_int_gate idt

-- `n` numbers from `a` on.
pub count_up : (n a : ℕ) → List ℕ
count_up zero a = []
count_up (suc n) a = a ∷ count_up n (a + 1)

-- The vectors that `set_idt` names, in its order: 0 to 8, 10 to 14, 16 to 20, 30, and 32 to 255.
abbrev pub named_vectors : List ℕ
named_vectors = count_up 9 0 ++ count_up 5 10 ++ count_up 5 16 ++ 30 ∷ count_up 224 32

pub set_named : (interrupt_handler : ℕ → ℕ) → List ℕ → (ℕ → IdtEntry) → ℕ → IdtEntry
set_named interrupt_handler [] idt = idt
set_named interrupt_handler (v ∷ vs) idt =
    set_named interrupt_handler vs (set_kern_interrupt v (interrupt_handler v) idt)

-- `for (int i = ...; i < 256; i++)`, in `256 - i` rounds.
pub fill_null : (rounds i : ℕ) (interrupt_handler : ℕ → ℕ) → (ℕ → IdtEntry) → ℕ → IdtEntry
fill_null zero i interrupt_handler idt = idt
fill_null (suc n) i interrupt_handler idt =
    let filled =
      if (idt i).offset_lower == 0 then set_kern_interrupt i (interrupt_handler 1) idt else idt in
    fill_null n (i + 1) interrupt_handler filled

-- The table is a static array, so it starts with zeros.
abbrev pub zeroed : ℕ → IdtEntry
zeroed i = record { offset_lower = 0; selector = 0; zero_byte = 0; type = 0; offset_higher = 0 }

pub set_idt : (interrupt_handler : ℕ → ℕ) (idt_address : ℕ) → (ℕ → IdtEntry) × IdtDesc
set_idt interrupt_handler idt_address = (
  fill_null 256 0 interrupt_handler (set_named interrupt_handler named_vectors zeroed),
  record { limit = 256 * 8 - 1; base = idt_address },
)
