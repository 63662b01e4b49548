-- ===== src/Interrupt/Answer.antt =====
-- Which vectors are acknowledged, and which stop the processor.
use now_os.Base.{
  ℕ, suc, ◌<◌, ◌≡◌, inl, inr, refl, ap, Bool, true, false, not, ◌&&◌, ◌||◌, Bool-cases,
  Option-cases, List, [], ◌∷◌, some, arith, ltb, leb, ◌==◌, ==_iff, if◌then◌else◌, all_below,
  all_below_sound,
}
use now_os.Interrupt.{IntState, Effect, kprint, lapic_eoi, disable_int, hlt, Machine, max_cpu_count}
use now_os.Interrupt.Handlers.{
  apic_timer_irq, apic_ipi_irq, apic_err_irq, apic_spurious_irq, Handler, cases, switch,
  lapic_timer_handler, interrupt_handler,
}

-- The end-of-interrupt writes and the stops of a list of effects.
abbrev pub eois : List Effect → ℕ
eois [] = 0
eois (lapic_eoi ∷ es) = suc (eois es)
eois (kprint level args ∷ es) = eois es
eois (disable_int ∷ es) = eois es
eois (hlt ∷ es) = eois es

abbrev pub halts : List Effect → ℕ
halts [] = 0
halts (hlt ∷ es) = suc (halts es)
halts (kprint level args ∷ es) = halts es
halts (disable_int ∷ es) = halts es
halts (lapic_eoi ∷ es) = halts es

-- The vectors that wait for an acknowledgement: the sixteen lines of the interrupt controller, and the
-- timer, the errors and the interrupts between processors, which the local APIC delivers.
abbrev pub is_pending : ℕ → Bool
is_pending v =
    (leb 32 v && ltb v 48) || v == apic_timer_irq || v == apic_err_irq || v == apic_ipi_irq

-- The code acknowledges these, and the spurious vector, behind which no interrupt waits.
abbrev pub is_acknowledged : ℕ → Bool
is_acknowledged v = is_pending v || v == apic_spurious_irq

-- The faults that the kernel does not go on from.
abbrev pub is_fatal : ℕ → Bool
is_fatal v = v == 0 || (leb 4 v && leb v 6) || v == 8 || (leb 10 v && leb v 14)

has_key : ℕ → List (ℕ × Handler) → Bool
has_key v [] = false
has_key v ((k, handler) ∷ rest) = let other = has_key v rest in v == k || other

-- A vector that no case names is not acknowledged and no fatal fault's.
keyless : (v : ℕ) → has_key v cases ≡ false → (is_acknowledged v ≡ false) × (is_fatal v ≡ false)
unfolding has_key all_below
keyless v h = elim (Bool-cases (ltb v 256)) [
  | inl small ↦
      (let t : (has_key v cases || (not (is_acknowledged v) && not (is_fatal v))) ≡ true =
          all_below_sound 256
            (λ v. has_key v cases || (not (is_acknowledged v) && not (is_fatal v))) v refl
            (ground arith) in
        ground arith)
  | inr large ↦ ground arith
]

abbrev pub one_if : Bool → ℕ
one_if b = if b then 1 else 0

module _ (m : Machine) (on_cpu : m.apic_id < max_cpu_count)
    (quiet : (state : IntState) (handler : IntState → List Effect)
      → m.timer_handler m.apic_id ≡ some handler
      → (eois (handler state) ≡ 0) × (halts (handler state) ≡ 0)) where
  Answers : ℕ → Handler → Type 0
  Answers v handler =
      (state : IntState)
      → (eois (handler m state) ≡ one_if (is_acknowledged v))
        × (halts (handler m state) ≡ one_if (is_fatal v))

  AllAnswer : List (ℕ × Handler) → Type 0
  AllAnswer [] = Unit
  AllAnswer ((v, handler) ∷ rest) = Answers v handler × AllAnswer rest

  switch-Answers :
      (v : ℕ) (table : List (ℕ × Handler))
      → AllAnswer table
      → (has_key v table ≡ false → (is_acknowledged v ≡ false) × (is_fatal v ≡ false))
      → Answers v (switch v table)
  unfolding switch has_key AllAnswer Answers
  switch-Answers v [] all out state = let (d, f) = out refl in rw (d, f) (refl, refl)
  switch-Answers v ((k, handler) ∷ rest) (here, all) out state = elim (Bool-cases (v == k)) [
    | inl e ↦ (let z : v ≡ k = (==_iff v k).0 e in rw e (rw z (here state)))
    | inr e ↦ rw e (switch-Answers v rest all (λ out'. out (rw e out')) state)
  ]

  timer-Answers : Answers 252 lapic_timer_handler
  unfolding Answers
  timer-Answers state =
      let on : ltb m.apic_id 8 ≡ true = ground arith in
      rw on (elim (Option-cases (m.timer_handler m.apic_id)) [
        | inl e ↦ rw e (refl, refl)
        | inr (handler, e) ↦ (let q = quiet state handler e in rw e (ap suc q.0, q.1))
      ])

  cases-AllAnswer : AllAnswer cases
  unfolding AllAnswer Answers
  cases-AllAnswer = (
    λ s. (refl, refl),
    (
      λ s. (refl, refl),
      (
        λ s. (refl, refl),
        (
          λ s. (refl, refl),
          (
            λ s. (refl, refl),
            (
              λ s. (refl, refl),
              (
                λ s. (refl, refl),
                (
                  λ s. (refl, refl),
                  (
                    λ s. (refl, refl),
                    (
                      λ s. (refl, refl),
                      (
                        λ s. (refl, refl),
                        (
                          λ s. (refl, refl),
                          (
                            λ s. (refl, refl),
                            (
                              λ s. (refl, refl),
                              (
                                λ s. (refl, refl),
                                (
                                  λ s. (refl, refl),
                                  (
                                    λ s. (refl, refl),
                                    (
                                      λ s. (refl, refl),
                                      (
                                        λ s. (refl, refl),
                                        (
                                          λ s. (refl, refl),
                                          (
                                            λ s. (refl, refl),
                                            (
                                              λ s. (refl, refl),
                                              (
                                                λ s. (refl, refl),
                                                (
                                                  λ s. (refl, refl),
                                                  (
                                                    λ s. (refl, refl),
                                                    (
                                                      λ s. (refl, refl),
                                                      (
                                                        λ s. (refl, refl),
                                                        (
                                                          λ s. (refl, refl),
                                                          (
                                                            λ s. (refl, refl),
                                                            (
                                                            λ s. (refl, refl),
                                                            (
                                                            λ s. (refl, refl),
                                                            (timer-Answers, tt),
                                                            ),
                                                            ),
                                                          ),
                                                        ),
                                                      ),
                                                    ),
                                                  ),
                                                ),
                                              ),
                                            ),
                                          ),
                                        ),
                                      ),
                                    ),
                                  ),
                                ),
                              ),
                            ),
                          ),
                        ),
                      ),
                    ),
                  ),
                ),
              ),
            ),
          ),
        ),
      ),
    ),
  )

  -- On a processor of the table whose timer handler itself neither acknowledges nor stops: an interrupt
  -- of the interrupt controller's lines, of the local APIC's timer or errors, or from a processor is
  -- acknowledged once, and so is the spurious interrupt, which should not be. No other vector is.
  -- A fatal fault stops the processor once, and no other vector does.
  pub interrupt_handler-answers :
      (state : IntState)
      → (eois (interrupt_handler m state) ≡ one_if (is_acknowledged state.int_num))
        × (halts (interrupt_handler m state) ≡ one_if (is_fatal state.int_num))
  unfolding interrupt_handler Answers
  interrupt_handler-answers state =
      switch-Answers state.int_num cases cases-AllAnswer (keyless state.int_num) state
