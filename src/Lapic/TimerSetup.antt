-- ===== src/Lapic/TimerSetup.antt =====
-- The timer of the local APIC.
use Prim.Native.Nat.{bit_and, bit_or}
use now_os.Base.{
  ℕ, ◌+◌, ◌-◌, ◌^◌, ◌<◌, ◌≡◌, refl, true, List, [], ◌∷◌, ◌==◌, if◌then◌else◌, arith, u32, bit,
  bit-bit_or, bit-bit_and, bit-lt, all_below, all_below_sound, ==_iff, ltb,
}
use now_os.Lapic.{
  Device, Bus, lapic_setup_timer, timer_setup_lapic_timer, timer_lapic_start, lapic_timer_enable,
}

-- The last value written to an address, 0 if none was.
abbrev pub last_write : (writes : List (ℕ × ℕ)) → ℕ → ℕ
last_write [] a = 0
last_write ((b, v) ∷ w) a = let before = last_write w a in if b == a then v else before

divide_table : all_below 32 (λ i. bit (2 ^ 32 - 2 ^ 4) i == (if ltb i 4 then 0 else 1)) ≡ true
unfolding all_below bit
divide_table = refl

three_table : all_below 32 (λ i. bit 3 i == (if ltb i 2 then 1 else 0)) ≡ true
unfolding all_below bit
three_table = refl

-- The divide configuration: bits 0 and 1 set, 2 and 3 clear, the others as before.
pub divide-bits :
    (old i : ℕ)
    → i < 32
    → bit (bit_or (bit_and old (2 ^ 32 - 2 ^ 4)) 3) i
      ≡ (if ltb i 2 then 1 else if ltb i 4 then 0 else bit old i)
divide-bits old i small =
    let mask = (==_iff (bit (2 ^ 32 - 2 ^ 4) i) (if ltb i 4 then 0 else 1)).0 (
      all_below_sound 32 (λ i. bit (2 ^ 32 - 2 ^ 4) i == (if ltb i 4 then 0 else 1)) i divide_table
        small) in
    let low =
      (==_iff (bit 3 i) (if ltb i 2 then 1 else 0)).0
        (all_below_sound 32 (λ i. bit 3 i == (if ltb i 2 then 1 else 0)) i three_table small) in
    ground (
      arith,
      bit-bit_or (bit_and old (2 ^ 32 - 2 ^ 4)) 3 i,
      bit-bit_and old (2 ^ 32 - 2 ^ 4) i,
      mask,
      low,
      bit-lt old i,
    )

module _ (d : Device) where
  -- `timer_setup_lapic_timer` leaves the timer masked, in periodic mode on vector 0xFC, counting from
  -- `ticks_per_call`; in the divide configuration it sets bits 0 and 1 and clears 2 and 3, which means
  -- division by 16, and keeps the others as they read. `timer_lapic_start` then clears the mask. The
  -- registers do not wrap round the end of memory.
  pub setup_timer-starts :
      (handler i : ℕ) (b : Bus)
      → d.local_addr + 0x400 < 2 ^ 32
      → i < 32
      → (let s = timer_setup_lapic_timer d handler b in
          (last_write s.1.writes (d.local_addr + 0x320) ≡ 0x3_00FC)
          × (last_write s.1.writes (d.local_addr + 0x380) ≡ s.0.ticks_per_call)
          × (last_write (timer_lapic_start d s.1).writes (d.local_addr + 0x320) ≡ 0x2_00FC)
          × (bit (last_write s.1.writes (d.local_addr + 0x3E0)) i ≡ (
              if ltb i 2
              then 1
              else if ltb i 4
              then 0
              else bit
                  (d.read
                    ((d.local_addr + 0x320, 0x3_00FC) ∷ b.writes)
                    b.reads
                    (d.local_addr + 0x3E0))
                  i)))
  unfolding timer_setup_lapic_timer lapic_setup_timer timer_lapic_start lapic_timer_enable
  setup_timer-starts handler i b fits small =
      let a1 : u32 (d.local_addr + 0x320) ≡ d.local_addr + 0x320 = omega arith in
      let a2 : u32 (d.local_addr + 0x380) ≡ d.local_addr + 0x380 = omega arith in
      let a3 : u32 (d.local_addr + 0x3E0) ≡ d.local_addr + 0x3E0 = omega arith in
      rw (a1, a2, a3)
        (
          ground arith,
          ground arith,
          ground arith,
          ground (
            arith,
            divide-bits
                (d.read ((d.local_addr + 0x320, 0x3_00FC) ∷ b.writes) b.reads
                  (d.local_addr + 0x3E0))
                i small,
          ),
        )
