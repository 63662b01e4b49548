-- ===== src/Lapic/Ipi.antt =====
-- Interrupts between processors.
use Prim.Native.Nat.{bit_and}
use now_os.Base.{
  ℕ, zero, suc, ◌+◌, ◌*◌, ◌^◌, ◌<◌, ◌≡◌, ◌≢◌, refl, true, false, ◌∷◌, ◌==◌, arith, u32, ok,
}
use mathlib.Core.Path.{subst}
use now_os.Lapic.Registers.{lapic_icrlo, icr_send_pending}
use now_os.Lapic.{Device, Bus, lapic_waitfor_pending_icr, lapic_write_icr, lapic_send_ipi}

module _ (d : Device) where
  -- Whether the read of the command register after `reads` reads finds an interrupt on its way.
  abbrev pub pending : Bus → (reads : ℕ) → ℕ
  pending b reads =
      bit_and (d.read b.writes reads (u32 (d.local_addr + lapic_icrlo))) icr_send_pending

  -- The wait ends with the first read that finds nothing pending, and writes nothing.
  pub wait-ends :
      (n fuel : ℕ) (b : Bus)
      → n < fuel
      → pending b (b.reads + n) ≡ 0
      → ((m : ℕ) → m < n → pending b (b.reads + m) ≢ 0)
      → lapic_waitfor_pending_icr d fuel b
        ≡ ok (record { writes = b.writes; reads = b.reads + n + 1 })
  unfolding lapic_waitfor_pending_icr
  wait-ends n zero b h clear busy = absurd (omega arith)
  wait-ends zero (suc f) b h clear busy =
      let z : b.reads + 0 ≡ b.reads = omega arith in
      let c : pending b b.reads ≡ 0 = subst (λ x. pending b x ≡ 0) z clear in
      let e : (pending b b.reads == 0) ≡ true = ground (arith, c) in rw (e, z) refl
  wait-ends (suc n) (suc f) b h clear busy =
      let z : b.reads + 0 ≡ b.reads = omega arith in
      let step : (m : ℕ) → b.reads + suc m ≡ b.reads + 1 + m = λ m. omega arith in
      let c : pending b b.reads ≢ 0 = subst (λ x. pending b x ≢ 0) z (busy 0 (omega arith)) in
      let e : (pending b b.reads == 0) ≡ false = ground (arith, c) in
      rw (e, step n)
        (wait-ends n f (record b { reads = b.reads + 1 }) (omega arith)
          (subst (λ x. pending b x ≡ 0) (step n) clear)
          (λ m k. subst (λ x. pending b x ≢ 0) (step m) (busy (suc m) (omega arith))))

  -- `lapic_send_ipi` waits for as long as an interrupt is pending. It then writes the destination, and
  -- last the command word, on which the interrupt is sent: vector 0xFD, asserted, to the processor
  -- whose number stands in the high byte. `n` reads find an interrupt pending before one does not.
  pub send_ipi-sends :
      (n fuel cpu : ℕ) (b : Bus)
      → n < fuel
      → pending b (b.reads + n) ≡ 0
      → ((m : ℕ) → m < n → pending b (b.reads + m) ≢ 0)
      → lapic_send_ipi d fuel cpu b
        ≡ ok (record {
          writes =
              (u32 (d.local_addr + 0x300), 0x40FD)
              ∷ (u32 (d.local_addr + 0x310), cpu * 2 ^ 24)
              ∷ b.writes;
          reads = b.reads + n + 1;
        })
  unfolding lapic_send_ipi lapic_write_icr
  send_ipi-sends n fuel cpu b h clear busy = rw (wait-ends n fuel b h clear busy) refl
