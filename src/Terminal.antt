-- ===== src/Terminal.antt =====
-- kernel/tty.c: the text screen of 25 rows and 80 columns. `buffer i` is the word at the screen's
-- address plus `i` words, `ports` the bytes written with `outb` and `serial` the characters given to
-- `debug_print`, both latest first. Row and column do not wrap: they stay on the screen.
pub mod Screen
mod Tests
use Prim.Native.Nat.{bit_or}
use now_os.Base.{ℕ, zero, suc, ◌+◌, ◌*◌, ◌/◌, ◌%◌, ◌^◌, List, [], ◌∷◌, ◌==◌, if◌then◌else◌}

abbrev pub vga_width : ℕ
vga_width = 80

abbrev pub vga_height : ℕ
vga_height = 25

pub record Terminal : Type 0 where
  pub row : ℕ
  pub column : ℕ
  pub color : ℕ
  pub buffer : ℕ → ℕ
  pub ports : List (ℕ × ℕ)
  pub serial : List ℕ

-- `(uint16_t) uc | (uint16_t) color << 8`
abbrev pub vga_entry : (uc color : ℕ) → ℕ
vga_entry uc color = bit_or uc (color * 2 ^ 8)

abbrev pub store : (index entry : ℕ) → Terminal → Terminal
store index entry t = record t { buffer = λ i. if i == index then entry else t.buffer i }

abbrev pub term_move_cursor : (pos : ℕ) → Terminal → Terminal
term_move_cursor pos t = record t {
  ports = (0x3D5, pos % 2 ^ 8) ∷ (0x3D4, 15) ∷ (0x3D5, pos / 2 ^ 8 % 2 ^ 8) ∷ (0x3D4, 14) ∷ t.ports;
}

pub term_setcolor : (color : ℕ) → Terminal → Terminal
term_setcolor color t = record t { color = color }

pub term_putentryat : (c color x y : ℕ) → Terminal → Terminal
term_putentryat c color x y t =
    let index = y * vga_width + x in term_move_cursor index (store index (vga_entry c color) t)

-- The body of the loops of `move_entries_up`.
abbrev pub move_entry : (x y : ℕ) → Terminal → Terminal
move_entry x y t =
    let from_index = (y + 1) * vga_width + x in
    let to_index = y * vga_width + x in
    if y == 24
    then term_move_cursor (y * vga_width) (store to_index (vga_entry 32 t.color) t)
    else store to_index (t.buffer from_index) t

pub move_row : (rounds x y : ℕ) → Terminal → Terminal
move_row zero x y t = t
move_row (suc n) x y t = move_row n (x + 1) y (move_entry x y t)

pub move_rows : (rounds y : ℕ) → Terminal → Terminal
move_rows zero y t = t
move_rows (suc n) y t = move_rows n (y + 1) (move_row vga_width 0 y t)

pub move_entries_up : Terminal → Terminal
move_entries_up t = move_rows vga_height 0 t

-- `if (++terminal_row == VGA_HEIGHT)` and its body.
pub next_row : Terminal → Terminal
next_row t =
    if t.row + 1 == vga_height
    then move_entries_up (record t { row = 24 })
    else record t { row = t.row + 1 }

pub next_column : Terminal → Terminal
next_column t =
    if t.column + 1 == vga_width
    then next_row (record t { column = 0 })
    else record t { column = t.column + 1 }

pub term_putchar : (c : ℕ) → Terminal → Terminal
term_putchar c t =
    let moved = next_column t in
    let shown =
      if c == 10
      then next_row (record t { column = 0 })
      else term_putentryat c moved.color moved.column moved.row moved in
    record shown { serial = c ∷ shown.serial }

pub term_write : (chars : List ℕ) → Terminal → Terminal
term_write [] t = t
term_write (c ∷ cs) t = term_write cs (term_putchar c t)

-- `chars` are the bytes from the string's address on.
pub term_writestring : (chars : List ℕ) → Terminal → Terminal
term_writestring [] t = t
term_writestring (c ∷ cs) t =
    let rest = term_writestring cs (term_putchar c t) in if c == 0 then t else rest

-- The loops of `term_init`.
pub clear_row : (rounds x y : ℕ) → Terminal → Terminal
clear_row zero x y t = t
clear_row (suc n) x y t = clear_row n (x + 1) y (store (y * vga_width + x) (vga_entry 32 t.color) t)

pub clear_rows : (rounds y : ℕ) → Terminal → Terminal
clear_rows zero y t = t
clear_rows (suc n) y t = clear_rows n (y + 1) (clear_row vga_width 0 y t)

pub term_init : Terminal → Terminal
term_init t = clear_rows vga_height 0 (record t { row = 0; column = 0; color = 7 })
