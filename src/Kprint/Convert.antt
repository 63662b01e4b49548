-- ===== src/Kprint/Convert.antt =====
-- The digits that `convert` writes.
use now_os.Base.{
  ℕ, zero, suc, ◌+◌, ◌-◌, ◌*◌, ◌/◌, ◌%◌, ◌^◌, ◌<◌, ◌≡◌, ◌⊎◌, inl, inr, refl, ap, ◌∙◌, sym, true,
  List, [], ◌∷◌, ltb, ◌==◌, ==_iff, Bool-cases, if◌then◌else◌, get_or, all_below, all_below_sound,
  arith, Returns, Returns-weaken,
}
use now_os.Kprint.{representation, convert_from, convert}

-- What a digit's character stands for.
abbrev pub char_value : ℕ → ℕ
char_value c = if ltb c 58 then c - 48 else c - 55

-- The number that digits stand for, behind those of `high`.
abbrev pub value_of : (base high : ℕ) → List ℕ → ℕ
value_of base high [] = high
value_of base high (c ∷ cs) = value_of base (high * base + char_value c) cs

digit_table : all_below 16 (λ d. char_value (get_or representation d 0) == d) ≡ true
unfolding all_below
digit_table = refl

digit-value : (d : ℕ) → d < 16 → char_value (get_or representation d 0) ≡ d
digit-value d h =
    (==_iff (char_value (get_or representation d 0)) d).0
      (all_below_sound 16 (λ e. char_value (get_or representation e 0) == e) d digit_table h)

-- 2 to the power n, by clauses.
abbrev doubled : ℕ → ℕ
doubled zero = 1
doubled (suc n) = doubled n + doubled n

module _ (base : ℕ) (known : (base ≡ 10) ⊎ (base ≡ 16)) where
  split_number : (num : ℕ) → num / base * base + num % base ≡ num
  split_number num = elim known [ inl e ↦ rw e (omega arith) | inr e ↦ rw e (omega arith) ]

  digit-lt : (num : ℕ) → num % base < 16
  digit-lt num = elim known [ inl e ↦ rw e (omega arith) | inr e ↦ rw e (omega arith) ]

  halves : (num m : ℕ) → num < m + m → num / base < m
  halves num m h = elim known [ inl e ↦ rw e (omega arith) | inr e ↦ rw e (omega arith) ]

  next_digit :
      (num : ℕ) (written : List ℕ)
      → value_of base (num / base) (get_or representation (num % base) 0 ∷ written)
        ≡ value_of base num written
  next_digit num written = rw (digit-value (num % base) (digit-lt num), split_number num) refl

  last_digit :
      (n num : ℕ) (written : List ℕ)
      → num / base ≡ 0
      → Returns
          (convert_from (suc n) num base written)
          (λ s. value_of base 0 s ≡ value_of base num written)
  unfolding convert_from
  last_digit n num written z =
      let t : (num / base == 0) ≡ true = (==_iff (num / base) 0).1 z in
      rw t (
        ap (λ q. value_of base q (get_or representation (num % base) 0 ∷ written)) (sym z)
        ∙ next_digit num written)

  convert_from-value :
      (n num : ℕ) (written : List ℕ)
      → num < doubled n
      → Returns
          (convert_from (suc n) num base written)
          (λ s. value_of base 0 s ≡ value_of base num written)
  unfolding convert_from
  convert_from-value zero num written h =
      last_digit zero num written (omega (arith, halves num 1 (omega arith)))
  convert_from-value (suc n) num written h = elim (Bool-cases (num / base == 0)) [
    | inl t ↦ last_digit (suc n) num written ((==_iff (num / base) 0).0 t)
    | inr t ↦ rw t (
        Returns-weaken (convert_from (suc n) (num / base) base _) _ _
          (convert_from-value n (num / base) (get_or representation (num % base) 0 ∷ written)
            (halves num (doubled n) h))
          (λ s e. e ∙ next_digit num written))
  ]

  -- In base 10 or 16, `convert` of a 32-bit number ends within its buffer, and what it writes is the
  -- number in that base.
  pub convert-value :
      (num : ℕ) → num < 2 ^ 32 → Returns (convert num base) (λ s. value_of base 0 s ≡ num)
  unfolding convert
  convert-value num h = convert_from-value 48 num [] (omega arith)
