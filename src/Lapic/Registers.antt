-- ===== src/Lapic/Registers.antt =====
-- The registers and the fields of include/apic.h that arch/apic.c uses for the local APIC.
use now_os.Base.{ℕ}

abbrev pub lapic_id : ℕ
lapic_id = 0x0020

abbrev pub lapic_tpr : ℕ
lapic_tpr = 0x0080

abbrev pub lapic_eoi_reg : ℕ
lapic_eoi_reg = 0x00b0

abbrev pub lapic_ldr : ℕ
lapic_ldr = 0x00d0

abbrev pub lapic_dfr : ℕ
lapic_dfr = 0x00e0

abbrev pub lapic_svr : ℕ
lapic_svr = 0x00f0

abbrev pub lapic_icrlo : ℕ
lapic_icrlo = 0x0300

abbrev pub lapic_icrhi : ℕ
lapic_icrhi = 0x0310

abbrev pub lapic_timer : ℕ
lapic_timer = 0x0320

abbrev pub lapic_thermal : ℕ
lapic_thermal = 0x0330

abbrev pub lapic_perf : ℕ
lapic_perf = 0x0340

abbrev pub lapic_lint0 : ℕ
lapic_lint0 = 0x0350

abbrev pub lapic_lint1 : ℕ
lapic_lint1 = 0x0360

abbrev pub lapic_error : ℕ
lapic_error = 0x0370

abbrev pub lapic_ticr : ℕ
lapic_ticr = 0x0380

abbrev pub lapic_tccr : ℕ
lapic_tccr = 0x0390

abbrev pub lapic_tdcr : ℕ
lapic_tdcr = 0x03e0

abbrev pub icr_init : ℕ
icr_init = 0x00000500

abbrev pub icr_startup : ℕ
icr_startup = 0x00000600

abbrev pub icr_send_pending : ℕ
icr_send_pending = 0x00001000

abbrev pub icr_assert : ℕ
icr_assert = 0x00004000

abbrev pub icr_all_excluding_self : ℕ
icr_all_excluding_self = 0x000c0000

abbrev pub lapic_time_divisor : ℕ
lapic_time_divisor = 16
