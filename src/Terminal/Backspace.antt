-- ===== src/Terminal/Backspace.antt =====
-- What a backspace of src/print/print.c does to the character before it.
use conifer_os.Common.{
  ◌∙◌, ℕ, ◌+◌, ◌-◌, ◌*◌, ◌%◌, ◌^◌, ◌<◌, ◌≡◌, ◌≢◌, refl, ap, inl, inr, arith, lt→ltb, ◌==◌, eq→==,
  ne→==, Bool-cases,
}
use conifer_os.Terminal.{
  Terminal, vga_width, terminal_write_char, write_plain, terminal_backspace, terminal_put_char,
}

-- A character that is neither a newline nor a backspace.
pub record IsPlain (c : ℕ) : Type 0 where
  pub no_newline : c ≢ 10
  pub no_backspace : c ≢ 8

plain_lem :
    (t : Terminal) (c color : ℕ) → IsPlain c → terminal_write_char t c color ≡ write_plain t c color
unfolding terminal_write_char
plain_lem t c color p = rw (ne→== c 10 p.no_newline, ne→== c 8 p.no_backspace)

write_plain_lem :
    (t : Terminal) (c color : ℕ)
    → t.col < 79
    → write_plain t c color ≡ record (terminal_put_char t t.row t.col c color) { col = t.col + 1 }
unfolding write_plain terminal_put_char
write_plain_lem t c color h =
    let e : (t.col + 1) % 2 ^ 16 ≡ t.col + 1 = omega (arith, h) in
    rw (e, lt→ltb (t.col + 1) 80 (omega (arith, h)))

backspace_lem :
    (t : Terminal)
    → t.col < 79
    → terminal_backspace (record t { col = t.col + 1 }) ≡ terminal_put_char t t.row t.col 32 15
unfolding terminal_backspace terminal_put_char
backspace_lem t h =
    let e : t.col + 1 - 1 ≡ t.col = omega arith in
    let f : (t.col + 1 + 2 ^ 16 - 1) % 2 ^ 16 ≡ t.col = omega (arith, h) in
    let g = ne→== (t.col + 1) 0 (omega arith) in
    elim (Bool-cases (t.row == 0)) [
      | inl y ↦ rw (y, g, e, write_plain_lem t 32 15 h, f)
      | inr n ↦ rw (n, g, e, write_plain_lem t 32 15 h, f)
    ]

same_cell :
    (t : Terminal) (row col c d color light i : ℕ)
    → (terminal_put_char (terminal_put_char t row col c color) row col d light).cells i
      ≡ (terminal_put_char t row col d light).cells i
unfolding terminal_put_char
same_cell t row col c d color light i = elim (Bool-cases (i == row * vga_width + col)) [
  | inl y ↦ rw y
  | inr n ↦ rw n
]

-- Putting two characters in the same place.
put_twice :
    (t : Terminal) (row col c d color light : ℕ)
    → terminal_put_char (terminal_put_char t row col c color) row col d light
      ≡ terminal_put_char t row col d light
unfolding terminal_put_char
put_twice t row col c d color light =
    ap (λ cells. record t { cells = cells }) (λ j i. same_cell t row col c d color light i j)

-- Where a character that is neither a newline nor a backspace does not end its line, a backspace
-- behind it leaves the cursor and all cells as they were before it, but for a space at the
-- cursor.
pub terminal_write_char-backspace :
    (t : Terminal) (c color : ℕ)
    → IsPlain c
    → t.col < 79
    → terminal_write_char (terminal_write_char t c color) 8 15
      ≡ terminal_put_char t t.row t.col 32 15
unfolding terminal_write_char terminal_put_char
terminal_write_char-backspace t c color p h =
    ap terminal_backspace (plain_lem t c color p ∙ write_plain_lem t c color h)
    ∙ backspace_lem (terminal_put_char t t.row t.col c color) h
    ∙ put_twice t t.row t.col c 32 color 15

-- A backspace at the start of any line but the first takes the cursor to column 65535 of that
-- line.
pub terminal_backspace-wrap :
    (t : Terminal)
    → t.col ≡ 0
    → 0 < t.row
    → t.row < 2 ^ 16
    → ((terminal_write_char t 8 15).row ≡ t.row) × ((terminal_write_char t 8 15).col ≡ 65535)
unfolding terminal_write_char terminal_backspace write_plain terminal_put_char
terminal_backspace-wrap t start below small =
    let r : (t.row - 1 + 1) % 2 ^ 16 ≡ t.row = omega (arith, below, small) in
    rw (eq→== t.col 0 start, ne→== t.row 0 (omega (arith, below))) (r, refl)
