-- ===== src/Idt/Tests.antt =====
-- arch/idt.c with handlers of sixteen bytes each.
use now_os.Base.{ℕ, ◌+◌, ◌*◌, ◌^◌, ◌%◌, ◌<◌, ◌≡◌, refl, arith}
use now_os.Idt.{set_idt, set_named, fill_null, count_up, kern_code_segment, type_32_int_gate}
use now_os.Idt.Gates.{target, address_of, set_idt-target}

abbrev handler_at : ℕ → ℕ
handler_at v = 0x10_0000 + v % 256 * 16

small_handlers : (v : ℕ) → handler_at v < 2 ^ 32
small_handlers v = omega arith

-- Vector 0 is named, but its address ends in zeros.
entry_of_zero : address_of ((set_idt handler_at 0x2000).0 0) ≡ handler_at 1
unfolding set_idt set_named fill_null count_up
entry_of_zero = refl

set_idt-target_example :
    (address_of ((set_idt handler_at 0x2000).0 14) ≡ target handler_at 14)
    × (((set_idt handler_at 0x2000).0 14).selector ≡ kern_code_segment)
    × (((set_idt handler_at 0x2000).0 14).type ≡ type_32_int_gate)
    × (((set_idt handler_at 0x2000).0 14).zero_byte ≡ 0)
set_idt-target_example = set_idt-target handler_at 0x2000 14 small_handlers (omega arith)
