-- ===== src/Tests/Stdlib.antt =====
-- user_programs/stdlib/src/stdlib.c at a buffer of null characters, and stdio.c at a
-- format.
use conifer_os.Common.{
  ℕ, ◌≡◌, refl, arith, Option, some, List, [], ◌∷◌, ◌++◌, ℤ, pos, negsuc, ◌>>=◌,
}
use conifer_os.Stdlib.{Buffer, itoa}
use conifer_os.Stdlib.Formats.{
  Piece, plain, number, text, escaped, format_of, arguments_of, WritesAll, printf-Writes,
}
use conifer_os.Stdlib.Stdio.{Output, printf}
use conifer_os.Stdlib.Numerals.{IsPrinted, itoa_lem}

abbrev empty : Buffer
empty j = 0

-- The first six characters of the buffer.
abbrev printed : ℤ → Option (List ℕ)
printed num = itoa num empty >>= λ b. some (b 0 ∷ b 1 ∷ b 2 ∷ b 3 ∷ b 4 ∷ b 5 ∷ [])

-- "-1234"
text_negative : printed (negsuc 1233) ≡ some (45 ∷ 49 ∷ 50 ∷ 51 ∷ 52 ∷ 0 ∷ [])
unfolding itoa
text_negative = refl

-- "70" and its terminator
text_positive : printed (pos 70) ≡ some (55 ∷ 48 ∷ 0 ∷ 0 ∷ 0 ∷ 0 ∷ [])
unfolding itoa
text_positive = refl

itoa_lem_example :
    (b : Buffer) × (itoa (negsuc 1233) empty ≡ some b) × IsPrinted empty b (negsuc 1233)
itoa_lem_example = itoa_lem (negsuc 1233) empty (omega arith)

-- "a%i%s%%", with -5 and "b"
abbrev pieces : List Piece
pieces = plain 97 ∷ number (negsuc 4) ∷ text (98 ∷ 0 ∷ []) ∷ escaped 37 ∷ []

printf-Writes_example :
    (os : List Output) × (printf (format_of pieces ++ (0 ∷ [])) (arguments_of pieces ++ [])
      ≡ some os)
    × WritesAll pieces os
printf-Writes_example = printf-Writes pieces [] [] (
  (λ e. omega (arith, e), λ e. omega (arith, e)),
  (omega arith, (tt, ((λ e. omega (arith, e), λ e. omega (arith, e)), tt))),
)
