-- ===== src/Kprint.antt =====
-- kernel/kprint.c: number conversion and formats. What the terminal is asked to do is a list of
-- calls. A character is its code, and a format is its characters without the NUL behind them. The
-- variable arguments are the words on the stack, `args i` the `i`-th, and a string among them stands in
-- memory at the address that the word is.
pub mod Convert
pub mod Format
mod Tests
use now_os.Base.{
  ℕ, zero, suc, ◌+◌, ◌-◌, ◌/◌, ◌%◌, ◌^◌, Bool, true, false, List, [], ◌∷◌, ◌++◌, ltb, ◌==◌,
  if◌then◌else◌, get_or, u32, Run, ok, panic, out_of_fuel, ◌>>=◌,
}
use now_os.CString.{Mem}

-- "0123456789ABCDEF"
abbrev pub representation : List ℕ
representation = 48 ∷ 49 ∷ 50 ∷ 51 ∷ 52 ∷ 53 ∷ 54 ∷ 55 ∷ 56 ∷ 57 ∷ 65 ∷ 66 ∷ 67 ∷ 68 ∷ 69 ∷ 70 ∷ []

-- The loop of `convert`: `written` stands from `ptr` on.
pub convert_from : (rounds num base : ℕ) → (written : List ℕ) → Run (List ℕ)
convert_from zero num base written = out_of_fuel
convert_from (suc n) num base written =
    let written' = get_or representation (num % base) 0 ∷ written in
    let rest = convert_from n (num / base) base written' in
    if num / base == 0 then ok written' else rest

-- `buff` has room for 49 characters.
pub convert : (num base : ℕ) → Run (List ℕ)
unfolding convert_from
convert num base = convert_from 49 num base []

-- The functions of kernel/tty.c that `kprint` calls.
pub data Call : Type 0 where
  term_setcolor term_putchar : ℕ → Call
  term_writestring : List ℕ → Call

pub data LogLevel : Type 0 where
  info warn error : LogLevel

abbrev pub color : LogLevel → ℕ
color info = 15
color warn = 12
color error = 4

-- The characters that the loop of `term_writestring` reads from `data` on, up to a NUL.
pub read_string : (fuel data_ptr : ℕ) → Mem → Run (List ℕ)
read_string zero data_ptr m = out_of_fuel
read_string (suc f) data_ptr m =
    let rest = read_string f (data_ptr + 1) m in
    if m data_ptr == 0 then ok [] else (do s ← rest; ok (m data_ptr ∷ s))

-- The cases of the switch behind a `%`, for the next word of the arguments.
pub emit : (fuel : ℕ) → Mem → (identifier word : ℕ) → Run (List Call)
unfolding convert read_string
emit fuel m identifier word =
    if identifier == 99
    then ok (term_putchar (word % 2 ^ 7) ∷ [])
    else if identifier == 100
    then (if ltb word (2 ^ 31)
        then (do s ← convert word 10; ok (term_writestring s ∷ []))
        else (do s ← convert (2 ^ 32 - 1) 10; ok (term_putchar 45 ∷ term_writestring s ∷ [])))
    else if identifier == 115
    then (do s ← read_string fuel word m; ok (term_writestring s ∷ []))
    else if identifier == 120
    then (do s ← convert word 16; ok (term_writestring (48 ∷ 120 ∷ []) ∷ term_writestring s ∷ []))
    else ok []

abbrev pub takes : (identifier : ℕ) → ℕ
takes k =
    if k == 99 then 1 else if k == 100 then 1 else if k == 115 then 1 else if k == 120 then 1 else 0

-- What one character of the format does, behind a `%` or not.
abbrev pub char_calls : (fuel : ℕ) → Mem → (percent : Bool) → (c word : ℕ) → Run (List Call)
char_calls fuel m true c word = emit fuel m c word
char_calls fuel m false c word = if c == 37 then ok [] else ok (term_putchar c ∷ [])

-- The loop of `kprint`; `percent` is behind a `%`. `panic` is a format that ends in `%`: the source
-- reads on behind its end.
pub print_from :
    (fuel : ℕ)
    → Mem
    → (percent : Bool) → (format : List ℕ) → (arg : ℕ) → (args : ℕ → ℕ) → Run (List Call)
unfolding emit
print_from fuel m false [] arg args = ok []
print_from fuel m true [] arg args = panic
print_from fuel m percent (c ∷ format) arg args =
    let percent' = if percent then false else c == 37 in
    let arg' = if percent then arg + takes c else arg in
    do
      out ← char_calls fuel m percent c (args arg)
      rest ← print_from fuel m percent' format arg' args
      ok (out ++ rest)

pub kprint :
    (fuel : ℕ)
    → Mem
    → (level : LogLevel) (format : List ℕ) (args : ℕ → ℕ) (log_count : ℕ) → Run (List Call × ℕ)
unfolding print_from convert
kprint fuel m level format args log_count = do
  count ← convert log_count 10
  rest ← print_from fuel m false format 0 args
  ok (
    term_setcolor (color level)
        ∷ term_writestring (91 ∷ [])
        ∷ term_writestring count
        ∷ term_writestring (93 ∷ 32 ∷ [])
        ∷ rest,
    u32 (log_count + 1),
  )
