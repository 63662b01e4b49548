-- ===== src/Kprint/Format.antt =====
-- What `kprint` writes, piece by piece of its format.
use mathlib.Core.List.{append_assoc, append-nil}
use now_os.Base.{
  ℕ, zero, suc, ◌+◌, ◌-◌, ◌%◌, ◌^◌, ◌<◌, ◌≡◌, ◌≢◌, refl, sym, ap, false, List, [], ◌∷◌, ◌++◌, ltb,
  ◌==◌, if◌then◌else◌, arith, ok, ◌>>=◌, u32, Returns, Returns-then, inl, inr, Bool-cases, length,
}
use now_os.CString.{Mem}
use now_os.CString.Compare.{IsText}
use now_os.Kprint.Convert.{value_of, convert-value}
use now_os.Kprint.{
  Call, term_setcolor, term_putchar, term_writestring, read_string, emit, takes, print_from,
  convert, kprint, LogLevel, color,
}

-- The pieces of a format, with their arguments: a character, `%c`, `%d`, `%x`, `%s` of the text at an
-- address, and a `%` before any other character.
pub data Piece : Type 0 where
  plain char decimal hexadecimal other : ℕ → Piece
  text : (address : ℕ) (s : List ℕ) → Piece

abbrev pub spelled : List Piece → List ℕ
spelled [] = []
spelled (plain c ∷ ps) = c ∷ spelled ps
spelled (char w ∷ ps) = 37 ∷ 99 ∷ spelled ps
spelled (decimal w ∷ ps) = 37 ∷ 100 ∷ spelled ps
spelled (hexadecimal w ∷ ps) = 37 ∷ 120 ∷ spelled ps
spelled (other c ∷ ps) = 37 ∷ c ∷ spelled ps
spelled (text a s ∷ ps) = 37 ∷ 115 ∷ spelled ps

-- The arguments from the `arg`-th on are those of the pieces, and its texts stand in memory and are
-- shorter than the fuel.
abbrev pub Supplied : (fuel : ℕ) → Mem → (args : ℕ → ℕ) → (arg : ℕ) → List Piece → Type 0
Supplied fuel m args arg [] = Unit {0}
Supplied fuel m args arg (plain c ∷ ps) = (c ≢ 37) × Supplied fuel m args arg ps
Supplied fuel m args arg (char w ∷ ps) = (args arg ≡ w) × Supplied fuel m args (arg + 1) ps
Supplied fuel m args arg (decimal w ∷ ps) =
    (args arg ≡ w) × (w < 2 ^ 32) × Supplied fuel m args (arg + 1) ps
Supplied fuel m args arg (hexadecimal w ∷ ps) =
    (args arg ≡ w) × (w < 2 ^ 32) × Supplied fuel m args (arg + 1) ps
Supplied fuel m args arg (other c ∷ ps) = (takes c ≡ 0) × Supplied fuel m args arg ps
Supplied fuel m args arg (text a s ∷ ps) =
    (args arg ≡ a) × IsText m a s × (length s < fuel) × Supplied fuel m args (arg + 1) ps

-- A minus sign and the digits of 2 ^ 32 - 1.
abbrev pub ShowsNegative : List ℕ → Type 0
ShowsNegative s = (digits : List ℕ) × (s ≡ 45 ∷ digits) × (value_of 10 0 digits ≡ 2 ^ 32 - 1)

-- What a piece shows.
abbrev pub Shows : Piece → List ℕ → Type 0
Shows (plain c) s = s ≡ c ∷ []
Shows (char w) s = s ≡ w % 2 ^ 7 ∷ []
Shows (decimal w) s = if ltb w (2 ^ 31) then value_of 10 0 s ≡ w else ShowsNegative s
Shows (hexadecimal w) s = (digits : List ℕ) × (s ≡ 48 ∷ 120 ∷ digits) × (value_of 16 0 digits ≡ w)
Shows (other c) s = s ≡ []
Shows (text a t) s = s ≡ t

abbrev pub ShowsAll : List Piece → List ℕ → Type 0
ShowsAll [] s = s ≡ []
ShowsAll (p ∷ ps) s =
    (first : List ℕ) × (rest : List ℕ) × (s ≡ first ++ rest) × Shows p first × ShowsAll ps rest

-- The characters that the calls put on the terminal, in order.
abbrev pub characters : List Call → List ℕ
characters [] = []
characters (term_setcolor c ∷ calls) = characters calls
characters (term_putchar c ∷ calls) = c ∷ characters calls
characters (term_writestring s ∷ calls) = s ++ characters calls

characters-append : (a b : List Call) → characters (a ++ b) ≡ characters a ++ characters b
characters-append [] b = refl
characters-append (term_setcolor c ∷ a) b = characters-append a b
characters-append (term_putchar c ∷ a) b = ap (λ s. c ∷ s) (characters-append a b)
characters-append (term_writestring s ∷ a) b =
    rw (characters-append a b) (sym (append_assoc s (characters a) (characters b)))

-- The text at an address is what `term_writestring` reads there.
read_string-text :
    (fuel a : ℕ) (m : Mem) (s : List ℕ)
    → IsText m a s
    → length s < fuel
    → read_string fuel a m ≡ ok s
unfolding read_string
read_string-text zero a m s h p = absurd (omega arith)
read_string-text (suc f) a m [] h p = rw h refl
read_string-text (suc f) a m (c ∷ s) (e, n, h) p =
    let t : (c == 0) ≡ false = ground (arith, n) in
    rw (e, t, read_string-text f (a + 1) m s h (omega arith)) refl

-- What a piece shows, before what the rest of the format shows.
module _ (fuel : ℕ) (m : Mem) (args : ℕ → ℕ) where
  joined :
      (p : Piece) (ps : List Piece) (out rest : List Call)
      → Shows p (characters out)
      → ShowsAll ps (characters rest)
      → ShowsAll (p ∷ ps) (characters (out ++ rest))
  joined p ps out rest h k = (characters out, characters rest, characters-append out rest, h, k)

  -- A `%` and the letter behind it.
  coded :
      (p : Piece) (ps : List Piece) (letter arg : ℕ)
      → Returns (emit fuel m letter (args arg)) (λ out. Shows p (characters out))
      → Returns
          (print_from fuel m false (spelled ps) (arg + takes letter) args)
          (λ rest. ShowsAll ps (characters rest))
      → Returns
          (print_from fuel m false (37 ∷ letter ∷ spelled ps) arg args)
          (λ out. ShowsAll (p ∷ ps) (characters out))
  unfolding print_from
  coded p ps letter arg h k =
      Returns-then
        (do
          out ← emit fuel m letter (args arg)
          rest ← print_from fuel m false (spelled ps) (arg + takes letter) args
          ok (out ++ rest))
        _ _
        (Returns-then (emit fuel m letter (args arg)) _ (λ out. ShowsAll (p ∷ ps) (characters out))
          h
          (λ out shown.
            Returns-then (print_from fuel m false (spelled ps) (arg + takes letter) args) _ _ k
              (λ rest all. joined p ps out rest shown all)))
        (λ out all. all)

  char-Shows : (w : ℕ) → Returns (emit fuel m 99 w) (λ out. Shows (char w) (characters out))
  unfolding emit
  char-Shows w = refl

  decimal-Shows :
      (w : ℕ) → w < 2 ^ 32 → Returns (emit fuel m 100 w) (λ out. Shows (decimal w) (characters out))
  unfolding emit
  decimal-Shows w h = elim (Bool-cases (ltb w (2 ^ 31))) [
    | inl e ↦ rw e (
        Returns-then (convert w 10) (λ s. ok (term_writestring s ∷ []))
          (λ out. value_of 10 0 (characters out) ≡ w) (convert-value 10 (inl refl) w h)
          (λ s v. rw (append-nil s) v))
    | inr e ↦ rw e (
        Returns-then (convert (2 ^ 32 - 1) 10) (λ s. ok (term_putchar 45 ∷ term_writestring s ∷ []))
          (λ out. ShowsNegative (characters out))
          (convert-value 10 (inl refl) (2 ^ 32 - 1) (omega arith))
          (λ s v. (s, ap (λ t. 45 ∷ t) (append-nil s), v)))
  ]

  hexadecimal-Shows :
      (w : ℕ)
      → w < 2 ^ 32
      → Returns (emit fuel m 120 w) (λ out. Shows (hexadecimal w) (characters out))
  unfolding emit
  hexadecimal-Shows w h =
      Returns-then (convert w 16) _ _ (convert-value 16 (inr refl) w h)
        (λ s v. (s, ap (λ t. 48 ∷ 120 ∷ t) (append-nil s), v))

  text-Shows :
      (a : ℕ) (s : List ℕ)
      → IsText m a s
      → length s < fuel
      → Returns (emit fuel m 115 a) (λ out. Shows (text a s) (characters out))
  unfolding emit
  text-Shows a s h p = rw (read_string-text fuel a m s h p) (append-nil s)

  other-Shows :
      (c w : ℕ) → takes c ≡ 0 → Returns (emit fuel m c w) (λ out. Shows (other c) (characters out))
  unfolding emit
  other-Shows c w h =
      let e : (c == 99) ≡ false = ground arith in
      let e1 : (c == 100) ≡ false = ground arith in
      let e2 : (c == 115) ≡ false = ground arith in
      let e3 : (c == 120) ≡ false = ground arith in rw (e, e1, e2, e3) refl

  print-ShowsAll :
      (ps : List Piece) (arg : ℕ)
      → Supplied fuel m args arg ps
      → Returns
          (print_from fuel m false (spelled ps) arg args)
          (λ out. ShowsAll ps (characters out))
  unfolding print_from
  print-ShowsAll [] arg h = refl
  print-ShowsAll (plain c ∷ ps) arg (n, h) =
      let t : (c == 37) ≡ false = ground (arith, n) in
      rw t (
        Returns-then (print_from fuel m false (spelled ps) arg args) _ _ (print-ShowsAll ps arg h)
          (λ rest all. joined (plain c) ps (term_putchar c ∷ []) rest refl all))
  print-ShowsAll (char w ∷ ps) arg (e, h) =
      coded (char w) ps 99 arg (rw e (char-Shows w)) (print-ShowsAll ps (arg + 1) h)
  print-ShowsAll (decimal w ∷ ps) arg (e, small, h) =
      coded (decimal w) ps 100 arg (rw e (decimal-Shows w small)) (print-ShowsAll ps (arg + 1) h)
  print-ShowsAll (hexadecimal w ∷ ps) arg (e, small, h) =
      coded (hexadecimal w) ps 120 arg (rw e (hexadecimal-Shows w small))
        (print-ShowsAll ps (arg + 1) h)
  print-ShowsAll (other c ∷ ps) arg (none_taken, h) =
      let z : arg + takes c ≡ arg = omega (arith, none_taken) in
      coded (other c) ps c arg (other-Shows c (args arg) none_taken)
        (rw z (print-ShowsAll ps arg h))
  print-ShowsAll (text a s ∷ ps) arg (e, stands, short, h) =
      coded (text a s) ps 115 arg (rw e (text-Shows a s stands short))
        (print-ShowsAll ps (arg + 1) h)

-- `kprint` of a format with a known row of pieces, whose arguments are words and whose `%s` arguments
-- point to texts in memory, returns and counts the message. It sets the color of the level, then
-- writes the number of the message in brackets and what the pieces show, one after the other: the
-- character, a decimal or hexadecimal number with the value of its argument, the text, nothing for a
-- letter it does not know, and for every negative `%d` a minus sign and the number 2 ^ 32 - 1.
pub kprint-ShowsAll :
    (fuel : ℕ) (m : Mem) (level : LogLevel) (ps : List Piece) (args : ℕ → ℕ) (log_count : ℕ)
    → Supplied fuel m args 0 ps
    → log_count < 2 ^ 32
    → Returns (kprint fuel m level (spelled ps) args log_count) (λ (calls, log_count').
      (count : List ℕ) × (shown : List ℕ) × (next : List Call) × (calls
        ≡ term_setcolor (color level) ∷ next)
      × (characters calls ≡ 91 ∷ count ++ (93 ∷ 32 ∷ shown))
      × (value_of 10 0 count ≡ log_count)
      × ShowsAll ps shown
      × (log_count' ≡ u32 (log_count + 1)))
unfolding kprint
kprint-ShowsAll fuel m level ps args log_count h fits =
    Returns-then (convert log_count 10) _ _ (convert-value 10 (inl refl) log_count fits) (λ count v.
      Returns-then (print_from fuel m false (spelled ps) 0 args) _ _
        (print-ShowsAll fuel m args ps 0 h)
        (λ rest all. (count, characters rest, _, refl, refl, v, all, refl)))
