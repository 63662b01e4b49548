-- ===== src/Pic/Masks.antt =====
-- Masking a line of the interrupt controllers.
use now_os.Base.{
  ℕ, ◌-◌, ◌%◌, ◌^◌, ◌<◌, ◌≡◌, inl, inr, refl, ap, ◌∙◌, false, Bool-cases, arith, ltb, ◌==◌,
  if◌then◌else◌,
}
use now_os.ByteIndexList.{set_bit, clear_bit, get_bit}
use now_os.ByteIndexList.Bits.{get_bit-set_bit, get_bit-clear_bit, set_bit-lt, clear_bit-lt}
use now_os.Pic.{
  Writes, outb, pic1_data, pic2_data, data_port, data_bit, pic_set_mask, pic_clear_mask,
}

-- The mask bit of a line.
abbrev pub masked : (inb : Writes → ℕ → ℕ) → Writes → (irq : ℕ) → ℕ
masked inb w irq = get_bit (inb w (data_port irq)) (data_bit irq)

-- What the two data ports give after one more write to one of them: a controller that is initialised
-- gives its mask register.
pub record IsReady (inb : Writes → ℕ → ℕ) (w : Writes) : Type 0 where
  pub byte1 : inb w pic1_data < 256
  pub byte2 : inb w pic2_data < 256
  pub back1 : (v : ℕ) → v < 256 → inb (outb pic1_data v w) pic1_data ≡ v
  pub back2 : (v : ℕ) → v < 256 → inb (outb pic2_data v w) pic2_data ≡ v
  pub apart1 : (v : ℕ) → v < 256 → inb (outb pic1_data v w) pic2_data ≡ inb w pic2_data
  pub apart2 : (v : ℕ) → v < 256 → inb (outb pic2_data v w) pic1_data ≡ inb w pic1_data

module _ (inb : Writes → ℕ → ℕ) (w : Writes) (ready : IsReady inb w) (irq j : ℕ) (p : irq < 16)
    (q : j < 16) where
  abbrev byte : ℕ
  byte = inb w (data_port irq)

  small : byte < 256
  small = elim (Bool-cases (ltb irq 8)) [ inl e ↦ rw e ready.byte1 | inr e ↦ rw e ready.byte2 ]

  bit_small : (data_bit irq < 8) × (data_bit j < 8)
  bit_small = ground arith

  -- What a byte written to the mask register of `irq` does to the mask of `j`.
  data Written (v : ℕ) : Type 0 where
    same :
        ((data_bit irq == data_bit j) ≡ (irq == j))
        → data_port j ≡ data_port irq
        → masked inb (outb (data_port irq) v w) j ≡ get_bit v (data_bit j)
        → Written v
    apart :
        (irq == j) ≡ false → masked inb (outb (data_port irq) v w) j ≡ masked inb w j → Written v

  written : (v : ℕ) → v < 256 → Written v
  written v lt = elim (Bool-cases (ltb irq 8)) [
    | inl e ↦ (elim (Bool-cases (ltb j 8)) [
      | inl e' ↦
          same (rw (e, e') refl) (rw (e, e') refl)
            (rw (e, e') (ap (λ b. get_bit b j) (ready.back1 v lt)))
      | inr e' ↦ apart (ground arith) (rw (e, e') (ap (λ b. get_bit b (j - 8)) (ready.apart1 v lt)))
    ])
    | inr e ↦ (elim (Bool-cases (ltb j 8)) [
      | inl e' ↦ apart (ground arith) (rw (e, e') (ap (λ b. get_bit b j) (ready.apart2 v lt)))
      | inr e' ↦
          same (rw (e, e') (ground arith)) (rw (e, e') refl)
            (rw (e, e') (ap (λ b. get_bit b (j - 8)) (ready.back2 v lt)))
    ])
  ]

  -- On controllers that are initialised, `pic_set_mask` masks its line and leaves the other fifteen as
  -- they are, and `pic_clear_mask` unmasks its line and leaves the others.
  pub set_clear-masked :
      (masked inb (pic_set_mask inb irq w) j ≡ (if irq == j then 1 else masked inb w j))
      × (masked inb (pic_clear_mask inb irq w) j ≡ (if irq == j then 0 else masked inb w j))
  unfolding pic_set_mask pic_clear_mask
  set_clear-masked =
      let s : ℕ = set_bit byte (data_bit irq) in
      let c : ℕ = clear_bit byte (data_bit irq) in
      let s_small : s < 256 = set_bit-lt byte (data_bit irq) small bit_small.0 in
      let c_small : c < 256 = clear_bit-lt byte (data_bit irq) small bit_small.0 in
      let es : s % 2 ^ 8 ≡ s = omega (arith, s_small) in
      let ec : c % 2 ^ 8 ≡ c = omega (arith, c_small) in
      (
        rw es (elim (written s s_small) [
          | same b d e ↦
              e
              ∙ get_bit-set_bit byte (data_bit irq) (data_bit j) small bit_small.0 bit_small.1
              ∙ rw (b, d) refl
          | apart b e ↦ e ∙ rw b refl
        ]),
        rw ec (elim (written c c_small) [
          | same b d e ↦
              e
              ∙ get_bit-clear_bit byte (data_bit irq) (data_bit j) small bit_small.0 bit_small.1
              ∙ rw (b, d) refl
          | apart b e ↦ e ∙ rw b refl
        ]),
      )
