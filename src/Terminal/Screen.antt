-- ===== src/Terminal/Screen.antt =====
-- Scrolling, and where the cursor stands.
use now_os.Base.{
  ℕ, zero, suc, ◌+◌, ◌*◌, ◌≤◌, ◌<◌, ◌≡◌, ◌∙◌, ap, refl, Bool-cases, inl, inr, ◌&&◌, ltb, leb, ◌==◌,
  if◌then◌else◌, List, [], ◌∷◌, arith,
}
use now_os.Terminal.{
  Terminal, vga_entry, term_putentryat, move_entry, move_row, move_rows, move_entries_up, next_row,
  next_column, term_putchar, term_write,
}

-- What `move_entry` leaves in the buffer.
moved_cell :
    (x y : ℕ) (t : Terminal) (i : ℕ)
    → (move_entry x y t).buffer i ≡ (
        if i == y * 80 + x
        then (if y == 24 then vga_entry 32 t.color else t.buffer ((y + 1) * 80 + x))
        else t.buffer i)
moved_cell x y t i = ground arith

moved_color : (x y : ℕ) (t : Terminal) → (move_entry x y t).color ≡ t.color
moved_color x y t = ground arith

row-color : (n x y : ℕ) (t : Terminal) → (move_row n x y t).color ≡ t.color
unfolding move_row
row-color zero x y t = refl
row-color (suc n) x y t = row-color n (x + 1) y (move_entry x y t) ∙ moved_color x y t

row-cell :
    (n x y : ℕ) (t : Terminal) (i : ℕ)
    → x + n ≡ 80
    → (move_row n x y t).buffer i ≡ (
        if leb (y * 80 + x) i && ltb i (y * 80 + 80)
        then (if y == 24 then vga_entry 32 t.color else t.buffer (i + 80))
        else t.buffer i)
unfolding move_row
row-cell zero x y t i h = ground arith
row-cell (suc n) x y t i h = ground (
  arith,
  row-cell n (x + 1) y (move_entry x y t) i (omega arith),
  moved_cell x y t i,
  moved_cell x y t (i + 80),
  moved_color x y t,
)

rows-color : (n y : ℕ) (t : Terminal) → (move_rows n y t).color ≡ t.color
unfolding move_rows
rows-color zero y t = refl
rows-color (suc n) y t = rows-color n (y + 1) (move_row 80 0 y t) ∙ row-color 80 0 y t

module _ (n x y : ℕ) (t : Terminal) (i : ℕ) (whole : x + n ≡ 80) where
  row_before : i < y * 80 + x → (move_row n x y t).buffer i ≡ t.buffer i
  row_before h = ground (arith, row-cell n x y t i whole)

  row_behind : y * 80 + 80 ≤ i → (move_row n x y t).buffer i ≡ t.buffer i
  row_behind h = ground (arith, row-cell n x y t i whole)

  row_inside :
      y * 80 + x ≤ i → i < y * 80 + 80 → y < 24 → (move_row n x y t).buffer i ≡ t.buffer (i + 80)
  row_inside h k l = ground (arith, row-cell n x y t i whole)

  row_last :
      y * 80 + x ≤ i → i < y * 80 + 80 → y ≡ 24 → (move_row n x y t).buffer i ≡ vga_entry 32 t.color
  row_last h k l = ground (arith, row-cell n x y t i whole)

rows_before :
    (n y : ℕ) (t : Terminal) (i : ℕ) → i < y * 80 → (move_rows n y t).buffer i ≡ t.buffer i
unfolding move_rows
rows_before zero y t i h = refl
rows_before (suc n) y t i h =
    rows_before n (y + 1) (move_row 80 0 y t) i (omega arith)
    ∙ row_before 80 0 y t i refl (omega arith)

rows_behind :
    (n y : ℕ) (t : Terminal) (i : ℕ)
    → y + n ≡ 25
    → 2000 ≤ i
    → (move_rows n y t).buffer i ≡ t.buffer i
unfolding move_rows
rows_behind zero y t i e h = refl
rows_behind (suc n) y t i e h =
    rows_behind n (y + 1) (move_row 80 0 y t) i (omega arith) h
    ∙ row_behind 80 0 y t i refl (omega arith)

rows_inside :
    (n y : ℕ) (t : Terminal) (i : ℕ)
    → y + n ≡ 25
    → y * 80 ≤ i
    → i < 1920
    → (move_rows n y t).buffer i ≡ t.buffer (i + 80)
unfolding move_rows
rows_inside zero y t i e h k = absurd (omega arith)
rows_inside (suc n) y t i e h k = elim (Bool-cases (ltb i (y * 80 + 80))) [
  | inl b ↦
      rows_before n (y + 1) (move_row 80 0 y t) i (ground arith)
      ∙ row_inside 80 0 y t i refl (omega arith) (ground arith) (ground arith)
  | inr b ↦
      rows_inside n (y + 1) (move_row 80 0 y t) i (omega arith) (ground arith) k
      ∙ row_behind 80 0 y t (i + 80) refl (ground arith)
]

rows_last :
    (n y : ℕ) (t : Terminal) (i : ℕ)
    → y + suc n ≡ 25
    → 1920 ≤ i
    → i < 2000
    → (move_rows (suc n) y t).buffer i ≡ vga_entry 32 t.color
unfolding move_rows
rows_last zero y t i e h k = row_last 80 0 y t i refl (omega arith) (omega arith) (omega arith)
rows_last (suc n) y t i e h k =
    rows_last n (y + 1) (move_row 80 0 y t) i (omega arith) h k
    ∙ ap (vga_entry 32) (row-color 80 0 y t)

-- Scrolling moves every row of the screen up by one, blanks the last row in the current colour and
-- leaves the memory behind the screen.
pub move_entries_up-scrolls :
    (t : Terminal) (i : ℕ)
    → (move_entries_up t).buffer i ≡ (
        if ltb i 1920
        then t.buffer (i + 80)
        else if ltb i 2000
        then vga_entry 32 t.color
        else t.buffer i)
unfolding move_entries_up
move_entries_up-scrolls t i = elim (Bool-cases (ltb i 1920)) [
  | inl a ↦ rw a (rows_inside 25 0 t i refl (omega arith) (ground arith))
  | inr a ↦ (elim (Bool-cases (ltb i 2000)) [
    | inl b ↦ rw (a, b) (rows_last 24 0 t i refl (ground arith) (ground arith))
    | inr b ↦ rw (a, b) (rows_behind 25 0 t i refl (ground arith))
  ])
]

-- The cursor is on the screen.
abbrev pub IsValid : Terminal → Type 0
IsValid t = (t.row < 25) × (t.column < 80)

-- Two terminals with the same memory behind the screen.
abbrev pub Beside : Terminal → Terminal → Type 0
Beside t t' = (i : ℕ) → 2000 ≤ i → t'.buffer i ≡ t.buffer i

row-cursor :
    (n x y : ℕ) (t : Terminal)
    → ((move_row n x y t).row ≡ t.row) × ((move_row n x y t).column ≡ t.column)
unfolding move_row
row-cursor zero x y t = (refl, refl)
row-cursor (suc n) x y t =
    let h : ((move_row n (x + 1) y (move_entry x y t)).row ≡ (move_entry x y t).row)
        × ((move_row n (x + 1) y (move_entry x y t)).column ≡ (move_entry x y t).column) =
      row-cursor n (x + 1) y (move_entry x y t) in
    (h.0 ∙ ground arith, h.1 ∙ ground arith)

rows-cursor :
    (n y : ℕ) (t : Terminal)
    → ((move_rows n y t).row ≡ t.row) × ((move_rows n y t).column ≡ t.column)
unfolding move_rows
rows-cursor zero y t = (refl, refl)
rows-cursor (suc n) y t =
    let h = rows-cursor n (y + 1) (move_row 80 0 y t) in
    let k = row-cursor 80 0 y t in (h.0 ∙ k.0, h.1 ∙ k.1)

next_row-IsValid : (t : Terminal) → IsValid t → IsValid (next_row t) × Beside t (next_row t)
unfolding next_row move_entries_up
next_row-IsValid t v = elim (Bool-cases (t.row + 1 == 25)) [
  | inl e ↦
      (let up : Terminal = record t { row = 24 } in
        let h = rows-cursor 25 0 up in
        rw e ((omega (arith, h.0), omega (arith, h.1, v.1)), λ i b. rows_behind 25 0 up i refl b))
  | inr e ↦ rw e ((ground (arith, v), v.1), λ i b. refl)
]

next_column-IsValid :
    (t : Terminal) → IsValid t → IsValid (next_column t) × Beside t (next_column t)
unfolding next_column
next_column-IsValid t v = elim (Bool-cases (t.column + 1 == 80)) [
  | inl e ↦ rw e (next_row-IsValid (record t { column = 0 }) (v.0, omega arith))
  | inr e ↦ rw e ((v.0, ground (arith, v)), λ i b. refl)
]

put-Beside :
    (t : Terminal) (c : ℕ) → IsValid t → Beside t (term_putentryat c t.color t.column t.row t)
unfolding term_putentryat
put-Beside t c v i h = ground (arith, v)

putchar-IsValid :
    (c : ℕ) (t : Terminal) → IsValid t → IsValid (term_putchar c t) × Beside t (term_putchar c t)
unfolding term_putchar term_putentryat
putchar-IsValid c t v = elim (Bool-cases (c == 10)) [
  | inl e ↦ rw e (next_row-IsValid (record t { column = 0 }) (v.0, omega arith))
  | inr e ↦
      (let h = next_column-IsValid t v in
        rw e (h.0, λ i b. put-Beside (next_column t) c h.0 i b ∙ h.1 i b))
]

-- However many characters are written, the cursor stays on the screen and no memory behind the screen
-- is written.
pub term_write-IsValid :
    (chars : List ℕ) (t : Terminal)
    → IsValid t
    → IsValid (term_write chars t) × Beside t (term_write chars t)
unfolding term_write
term_write-IsValid [] t v = (v, λ i b. refl)
term_write-IsValid (c ∷ cs) t v =
    let h = putchar-IsValid c t v in
    let k = term_write-IsValid cs (term_putchar c t) h.0 in (k.0, λ i b. k.1 i b ∙ h.1 i b)
