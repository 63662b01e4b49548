-- ===== src/Kprint/Tests.antt =====
-- Numbers and formats of kernel/kprint.c.
use now_os.Base.{
  ℕ, zero, suc, ◌-◌, ◌^◌, ◌≡◌, refl, inl, List, [], ◌∷◌, ◌++◌, arith, ok, Returns, u32, ◌+◌, ◌==◌,
  if◌then◌else◌,
}
use now_os.CString.{Mem}
use now_os.Kprint.{convert, kprint, info, color, term_setcolor, Call}
use now_os.Kprint.Convert.{value_of, convert-value}
use now_os.Kprint.Format.{
  Piece, plain, hexadecimal, decimal, text, spelled, ShowsAll, characters, kprint-ShowsAll,
}

-- "FF"
hex_digits : convert 255 16 ≡ ok (70 ∷ 70 ∷ [])
unfolding convert
hex_digits = refl

convert-value_example : Returns (convert 1234 10) (λ s. value_of 10 0 s ≡ 1234)
convert-value_example = convert-value 10 (inl refl) 1234 (omega arith)

-- "ok" stands at 0x100.
abbrev memory : Mem
memory a = if a == 0x100 then 111 else if a == 0x101 then 107 else 0

-- 40, the address of the text, and -2.
abbrev words : ℕ → ℕ
words zero = 40
words (suc zero) = 0x100
words (suc (suc i)) = 2 ^ 32 - 2

-- "a%x%s%d"
abbrev pieces : List Piece
pieces = plain 97 ∷ hexadecimal 40 ∷ text 0x100 (111 ∷ 107 ∷ []) ∷ decimal (2 ^ 32 - 2) ∷ []

kprint-ShowsAll_example :
    Returns (kprint 3 memory info (spelled pieces) words 7) (λ (calls, log_count).
      (count : List ℕ) × (shown : List ℕ) × (next : List Call) × (calls
        ≡ term_setcolor (color info) ∷ next)
      × (characters calls ≡ 91 ∷ count ++ (93 ∷ 32 ∷ shown))
      × (value_of 10 0 count ≡ 7)
      × ShowsAll pieces shown
      × (log_count ≡ u32 (7 + 1)))
kprint-ShowsAll_example =
    kprint-ShowsAll 3 memory info pieces words 7
      (
        λ e. omega arith,
        (
          refl,
          omega arith,
          (
            refl,
            (refl, λ e. omega arith, (refl, λ e. omega arith, refl)),
            omega arith,
            (refl, omega arith, tt),
          ),
        ),
      )
      (omega arith)
