-- ===== src/Lapic/Tests.antt =====
-- A local APIC at its usual address: the command register reports an interrupt as pending for the first
-- three reads, and other registers read as they were written.
use now_os.Base.{
  ℕ, ◌+◌, ◌*◌, ◌^◌, ◌<◌, ◌≡◌, ◌≢◌, refl, true, [], ◌∷◌, ◌==◌, if◌then◌else◌, arith, ok, Returns,
  ltb, u32, bit,
}
use now_os.Lapic.{
  Device, Bus, lapic_send_ipi, lapic_get_id, lapic_bsp_init, lapic_cpu_init, lapic_set_lvt,
  timer_setup_lapic_timer, timer_lapic_start,
}
use now_os.Lapic.Ipi.{pending, send_ipi-sends}
use now_os.Lapic.TimerSetup.{last_write, setup_timer-starts}

abbrev base : ℕ
base = 0xFEE0_0000

abbrev device : Device
device = record {
  local_addr = base;
  read = λ w reads a.
      if a == base + 0x300 then (if ltb reads 3 then 0x1000 else 0) else last_write w a;
}

abbrev quiet : Bus
quiet = record { writes = []; reads = 0 }

three_busy : (m : ℕ) → m < 3 → pending device quiet (0 + m) ≢ 0
three_busy m h = let e : ltb (0 + m) 3 ≡ true = ground arith in rw e (omega arith)

send_ipi-sends_example :
    lapic_send_ipi device 10 2 quiet
    ≡ ok (record {
      writes = (u32 (base + 0x300), 0x40FD) ∷ (u32 (base + 0x310), 2 * 2 ^ 24) ∷ [];
      reads = 4;
    })
send_ipi-sends_example = send_ipi-sends device 3 10 2 quiet (omega arith) refl three_busy

setup_timer-starts_example :
    (let s = timer_setup_lapic_timer device 0x500 quiet in
      (last_write s.1.writes (base + 0x320) ≡ 0x3_00FC)
      × (last_write s.1.writes (base + 0x380) ≡ s.0.ticks_per_call)
      × (last_write (timer_lapic_start device s.1).writes (base + 0x320) ≡ 0x2_00FC)
      × (bit (last_write s.1.writes (base + 0x3E0)) 0 ≡ 1))
setup_timer-starts_example = setup_timer-starts device 0x500 0 quiet (omega arith) (omega arith)

-- After a reset the entry of the error interrupt is masked, and stays so when its vector is set.
error_masked :
    last_write
      (lapic_set_lvt device 0x370 0xFE
        (record { writes = (base + 0x370, 0x1_0000) ∷ []; reads = 0 })).writes
      (base + 0x370)
    ≡ 0x1_00FE
unfolding lapic_set_lvt
error_masked = refl

-- The first processor starts with the local APIC enabled and its spurious vector set.
bsp_enabled : Returns (lapic_bsp_init device quiet) (λ b. last_write b.writes (base + 0xF0) ≡ 0x1FF)
unfolding lapic_bsp_init lapic_cpu_init lapic_set_lvt lapic_get_id
bsp_enabled = refl
