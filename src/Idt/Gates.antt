-- ===== src/Idt/Gates.antt =====
-- Every vector has a gate, and where it leads.
use now_os.Base.{
  ℕ, zero, suc, ◌+◌, ◌*◌, ◌%◌, ◌^◌, ◌<◌, ◌≡◌, inl, inr, refl, sym, ◌∙◌, Bool, true, false, not,
  ◌&&◌, ◌||◌, Bool-cases, List, [], ◌∷◌, arith, ltb, leb, ◌==◌, ==_iff, if◌then◌else◌, all_below,
  all_below_sound,
}
use now_os.Idt.{
  IdtEntry, kern_code_segment, type_32_int_gate, set_kern_interrupt, count_up, named_vectors,
  set_named, fill_null, zeroed, set_idt,
}

abbrev pub gate : ℕ → IdtEntry
gate address = set_kern_interrupt 0 address zeroed 0

has : ℕ → List ℕ → Bool
has i [] = false
has i (v ∷ vs) = let other = has i vs in i == v || other

-- The vectors that have a handler of their own: all but 9, 15, 21 to 29 and 31.
abbrev pub is_named : ℕ → Bool
is_named i = not (i == 9 || i == 15 || (leb 21 i && leb i 29) || i == 31)

abbrev agrees : ℕ → Bool
agrees i = if has i named_vectors then is_named i else not (is_named i)

named_table : all_below 256 agrees ≡ true
unfolding has all_below count_up
named_table = refl

named : (i : ℕ) → i < 256 → has i named_vectors ≡ is_named i
named i small =
    let t : agrees i ≡ true = all_below_sound 256 agrees i named_table small in
    elim (Bool-cases (has i named_vectors)) [
      | inl e ↦ (let t' : is_named i ≡ true = rw e at t in e ∙ sym t')
      | inr e ↦ (let t' : not (is_named i) ≡ true = rw e at t in ground arith)
    ]

-- The address that a gate leads to.
abbrev pub address_of : IdtEntry → ℕ
address_of e = e.offset_higher * 2 ^ 16 + e.offset_lower

module _ (interrupt_handler : ℕ → ℕ) where
  set_named-at :
      (vs : List ℕ) (idt : ℕ → IdtEntry) (i : ℕ)
      → set_named interrupt_handler vs idt i
        ≡ (if has i vs then gate (interrupt_handler i) else idt i)
  unfolding set_named has
  set_named-at [] idt i = refl
  set_named-at (v ∷ vs) idt i = elim (Bool-cases (i == v)) [
    | inl e ↦
        (let z : i ≡ v = (==_iff i v).0 e in
          set_named-at vs (set_kern_interrupt v (interrupt_handler v) idt) i ∙ rw z (ground arith))
    | inr e ↦ set_named-at vs (set_kern_interrupt v (interrupt_handler v) idt) i ∙ rw e refl
  ]

  abbrev filled : IdtEntry → IdtEntry
  filled e = if e.offset_lower == 0 then gate (interrupt_handler 1) else e

  abbrev fill_one : ℕ → (ℕ → IdtEntry) → ℕ → IdtEntry
  fill_one i idt =
      if (idt i).offset_lower == 0 then set_kern_interrupt i (interrupt_handler 1) idt else idt

  fill_one_self : (i : ℕ) (idt : ℕ → IdtEntry) → fill_one i idt i ≡ filled (idt i)
  fill_one_self i idt = elim (Bool-cases ((idt i).offset_lower == 0)) [
    | inl e ↦ (let t : (i == i) ≡ true = ground arith in rw (e, t) refl)
    | inr e ↦ rw e refl
  ]

  fill_one_other : (i j : ℕ) (idt : ℕ → IdtEntry) → (j == i) ≡ false → fill_one i idt j ≡ idt j
  fill_one_other i j idt d = elim (Bool-cases ((idt i).offset_lower == 0)) [
    | inl e ↦ rw (e, d) refl
    | inr e ↦ rw e refl
  ]

  abbrev in_window : (i n j : ℕ) → Bool
  in_window i n j = leb i j && ltb j (i + n)

  fill_null-at :
      (n i : ℕ) (idt : ℕ → IdtEntry) (j : ℕ)
      → fill_null n i interrupt_handler idt j ≡ (if in_window i n j then filled (idt j) else idt j)
  unfolding fill_null
  fill_null-at zero i idt j = let t : in_window i 0 j ≡ false = ground arith in rw t refl
  fill_null-at (suc n) i idt j = elim (Bool-cases (j == i)) [
    | inl e ↦
        (let z : j ≡ i = (==_iff j i).0 e in
          let out : in_window (i + 1) n i ≡ false = ground arith in
          let here : in_window i (suc n) i ≡ true = ground arith in
          rw (z, here) (fill_null-at n (i + 1) (fill_one i idt) i ∙ rw out (fill_one_self i idt)))
    | inr e ↦
        (let t : in_window (i + 1) n j ≡ in_window i (suc n) j = ground arith in
          fill_null-at n (i + 1) (fill_one i idt) j ∙ rw (t, fill_one_other i j idt e) refl)
  ]

  -- The handler that serves a vector.
  abbrev pub target : ℕ → ℕ
  target i =
      if is_named i && not (interrupt_handler i % 2 ^ 16 == 0)
      then interrupt_handler i
      else interrupt_handler 1

  filled-target :
      (i : ℕ)
      → filled (if is_named i then gate (interrupt_handler i) else zeroed i) ≡ gate (target i)
  filled-target i = elim (Bool-cases (is_named i)) [
    | inr e ↦ rw e refl
    | inl e ↦ (elim (Bool-cases (interrupt_handler i % 2 ^ 16 == 0)) [
      | inl z ↦ rw (e, z) refl
      | inr z ↦ rw (e, z) refl
    ])
  ]

  target_word : (i : ℕ) → ((v : ℕ) → interrupt_handler v < 2 ^ 32) → target i < 2 ^ 32
  target_word i word = elim (Bool-cases (is_named i && not (interrupt_handler i % 2 ^ 16 == 0))) [
    | inl e ↦ rw e (word i)
    | inr e ↦ rw e (word 1)
  ]

  -- After `set_idt`, with handlers at 32-bit addresses, each of the 256 vectors has a 32-bit interrupt
  -- gate in the kernel's code segment. It leads to the vector's own handler if `set_idt` names one whose
  -- address does not end in sixteen zero bits, and to the handler of vector 1 otherwise.
  pub set_idt-target :
      (idt_address i : ℕ)
      → ((v : ℕ) → interrupt_handler v < 2 ^ 32)
      → i < 256
      → (address_of ((set_idt interrupt_handler idt_address).0 i) ≡ target i)
        × (((set_idt interrupt_handler idt_address).0 i).selector ≡ kern_code_segment)
        × (((set_idt interrupt_handler idt_address).0 i).type ≡ type_32_int_gate)
        × (((set_idt interrupt_handler idt_address).0 i).zero_byte ≡ 0)
  unfolding set_idt
  set_idt-target idt_address i word small =
      let w : in_window 0 256 i ≡ true = ground arith in
      let e : (set_idt interrupt_handler idt_address).0 i ≡ gate (target i) =
        fill_null-at 256 0 (set_named interrupt_handler named_vectors zeroed) i
        ∙ rw (w, set_named-at named_vectors zeroed i, named i small) (filled-target i) in
      rw e (omega (arith, target_word i word), refl, refl, refl)
