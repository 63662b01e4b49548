-- ===== src/Terminal/Tests.antt =====
-- kernel/tty.c on a screen with the cursor in its last cell.
use now_os.Base.{◌≡◌, refl, [], ◌∷◌, arith}
use now_os.Terminal.{Terminal, term_putchar, term_write, move_entries_up, next_row}
use now_os.Terminal.Screen.{IsValid, Beside, move_entries_up-scrolls, term_write-IsValid}

abbrev at_end : Terminal
at_end = record { row = 24; column = 79; color = 7; buffer = λ i. i; ports = []; serial = [] }

at_end-IsValid : IsValid at_end
at_end-IsValid = (omega arith, omega arith)

next_line : (term_putchar 10 (record at_end { row = 3 })).row ≡ 4
unfolding term_putchar next_row
next_line = refl

term_write-IsValid_example :
    IsValid (term_write (65 ∷ 10 ∷ []) at_end) × Beside at_end (term_write (65 ∷ 10 ∷ []) at_end)
term_write-IsValid_example = term_write-IsValid (65 ∷ 10 ∷ []) at_end at_end-IsValid

move_entries_up-scrolls_example : (move_entries_up at_end).buffer 5 ≡ 85
move_entries_up-scrolls_example = move_entries_up-scrolls at_end 5
