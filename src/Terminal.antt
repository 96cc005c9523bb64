-- ===== src/Terminal.antt =====
-- src/print/print.c: the text terminal. The frame buffer is a function from positions to 16-bit cells;
-- the program never compares the row with the height of the screen.
pub mod Backspace
use conifer_os.Common.{
  ℕ, zero, suc, ◌+◌, ◌-◌, ◌*◌, ◌/◌, ◌%◌, ◌^◌, Bool, ◌&&◌, Option, none, some, List, [], ◌∷◌, bit_or,
  ltb, ◌==◌, if◌then◌else◌, ◌>>=◌,
}
use conifer_os.CString.{strlen}

abbrev pub vga_width : ℕ
vga_width = 80

abbrev pub vga_height : ℕ
vga_height = 20

-- `terminal_row`, `terminal_col` and `video_mem`
pub record Terminal : Type 0 where
  pub row : ℕ
  pub col : ℕ
  pub cells : ℕ → ℕ

-- A negative character is extended with ones.
unfoldable pub terminal_make_char : ℕ → ℕ → ℕ
terminal_make_char c color = bit_or (color * 2 ^ 8 % 2 ^ 16) (if ltb c 128 then c else c + 0xff00)

unfoldable pub terminal_put_char : Terminal → ℕ → ℕ → ℕ → ℕ → Terminal
terminal_put_char t row col c color = record t {
  cells = λ i. if i == row * vga_width + col then terminal_make_char c color else t.cells i;
}

-- `terminal_write_char` of a character that is neither a newline nor a backspace.
unfoldable pub write_plain : Terminal → ℕ → ℕ → Terminal
write_plain t c color =
    let put = terminal_put_char t t.row t.col c color in
    let col = (t.col + 1) % 2 ^ 16 in
    if ltb col vga_width
    then record put { col = col }
    else record put { row = (t.row + 1) % 2 ^ 16; col = 0 }

-- The position moves one column back before and after a space is written.
unfoldable pub terminal_backspace : Terminal → Terminal
terminal_backspace t =
    let line : Terminal = if t.col == 0 then record t { row = t.row - 1; col = vga_width } else t in
    let blank = write_plain (record line { col = line.col - 1 }) 32 15 in
    if (t.row == 0) && (t.col == 0)
    then t
    else record blank { col = (blank.col + 2 ^ 16 - 1) % 2 ^ 16 }

unfoldable pub terminal_write_char : Terminal → ℕ → ℕ → Terminal
terminal_write_char t c color =
    if c == 10
    then record t { row = (t.row + 1) % 2 ^ 16; col = 0 }
    else if c == 8
    then terminal_backspace t
    else write_plain t c color

-- The inner loop of `terminal_initialize`: `n` columns from `col` on.
unfoldable pub clear_row : ℕ → Terminal → ℕ → ℕ → Terminal
clear_row zero t row col = t
clear_row (suc n) t row col = clear_row n (terminal_put_char t row col 32 0) row (col + 1)

-- `n` rows from `row` on.
unfoldable pub clear_rows : ℕ → Terminal → ℕ → Terminal
clear_rows zero t row = t
clear_rows (suc n) t row = clear_rows n (clear_row vga_width t row 0) (row + 1)

unfoldable pub terminal_initialize : Terminal → Terminal
terminal_initialize t = clear_rows vga_height t 0

-- The loop of `print` over the `n` characters that are left; `none` if it reads past the array.
unfoldable pub print_loop : ℕ → Terminal → List ℕ → Option Terminal
print_loop zero t str = some t
print_loop (suc n) t [] = none
print_loop (suc n) t (c ∷ str) = print_loop n (terminal_write_char t c 15) str

unfoldable pub print : Terminal → List ℕ → Option Terminal
print t str = strlen str >>= λ len. print_loop len t str
