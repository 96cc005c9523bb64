-- ===== src/Stdlib/Formats.antt =====
-- What printf writes for a format and its arguments.
use conifer_os.Common.{
  ℕ, ◌^◌, ◌<◌, ◌≡◌, ◌≢◌, refl, ap, arith, none, some, ℤ, List, [], ◌∷◌, ◌++◌, ne→==,
}
use conifer_os.Stdlib.{Buffer}
use conifer_os.Stdlib.Numerals.{IsPrinted, magnitude, itoa_lem}
use conifer_os.Stdlib.Stdio.{
  Argument, int, pointer, Output, putchar, print, chars, zeroed, directive, printf,
}

-- A part of a format: a character, a character behind a `%`, a number, or a text.
pub data Piece : Type 0 where
  plain : ℕ → Piece
  escaped : ℕ → Piece
  number : ℤ → Piece
  text : List ℕ → Piece

abbrev pub format_of : List Piece → List ℕ
format_of [] = []
format_of (plain c ∷ ps) = c ∷ format_of ps
format_of (escaped c ∷ ps) = 37 ∷ c ∷ format_of ps
format_of (number n ∷ ps) = 37 ∷ 105 ∷ format_of ps
format_of (text s ∷ ps) = 37 ∷ 115 ∷ format_of ps

abbrev pub arguments_of : List Piece → List Argument
arguments_of [] = []
arguments_of (plain c ∷ ps) = arguments_of ps
arguments_of (escaped c ∷ ps) = arguments_of ps
arguments_of (number n ∷ ps) = int n ∷ arguments_of ps
arguments_of (text s ∷ ps) = pointer s ∷ arguments_of ps

-- A plain character is neither the terminator nor `%`, an escaped one neither `i` nor `s`, and a number
-- has an opposite.
abbrev pub Sound : Piece → Type 0
Sound (plain c) = (c ≢ 0) × (c ≢ 37)
Sound (escaped c) = (c ≢ 105) × (c ≢ 115)
Sound (number n) = magnitude n < 2 ^ 31
Sound (text s) = Unit

abbrev pub AllSound : List Piece → Type 0
AllSound [] = Unit
AllSound (p ∷ ps) = Sound p × AllSound ps

-- The system call for a part.
abbrev pub Writes : Piece → Output → Type 0
Writes (plain c) o = o ≡ putchar c
Writes (escaped c) o = o ≡ putchar c
Writes (number n) o = (b : Buffer) × IsPrinted zeroed b n × (o ≡ print (chars 12 0 b))
Writes (text s) o = o ≡ print s

abbrev pub WritesAll : List Piece → List Output → Type 0
WritesAll [] os = os ≡ []
WritesAll (p ∷ ps) os =
    (o : Output) × (rest : List Output) × (os ≡ o ∷ rest) × Writes p o × WritesAll ps rest

pub printf-end : (q : List ℕ) (args : List Argument) → printf (0 ∷ q) args ≡ some []
unfolding printf
printf-end [] args = refl
printf-end (c ∷ q) args = refl

-- A character of the format in front of the rest.
pub printf-plain :
    (c : ℕ) (p : List ℕ) (args : List Argument) (os : List Output)
    → c ≢ 0
    → c ≢ 37
    → printf p args ≡ some os
    → printf (c ∷ p) args ≡ some (putchar c ∷ os)
unfolding printf
printf-plain c [] args os n d e =
    absurd (omega (arith, ap {B = ℕ} (λ r. elim r [ none ↦ 0 | some x ↦ 1 ]) e))
printf-plain c (x ∷ p) args os n d e = rw (ne→== c 0 n, ne→== c 37 d, e) refl

printf-directive :
    (d : ℕ) (p : List ℕ) (args rest : List Argument) (o : Output) (os : List Output)
    → directive d args ≡ some (o, rest)
    → printf p rest ≡ some os
    → printf (37 ∷ d ∷ p) args ≡ some (o ∷ os)
unfolding printf
printf-directive d p args rest o os f e = rw (f, e) refl

-- For a format of plain characters, characters other than i and s behind a %, numbers %i other
-- than -2147483648, and texts %s, with arguments of these types, printf writes each plain or
-- escaped character, prints each number as itoa does in an array of 12 zeroed characters, and
-- prints each text, in this order, and stops at the terminator.
pub printf-Writes :
    (ps : List Piece) (q : List ℕ) (more : List Argument)
    → AllSound ps
    → (os : List Output) × (printf (format_of ps ++ (0 ∷ q)) (arguments_of ps ++ more) ≡ some os)
      × WritesAll ps os
unfolding directive printf
printf-Writes [] q more h = ([], printf-end q more, refl)
printf-Writes (plain c ∷ ps) q more h =
    let (os, e, w) = printf-Writes ps q more h.1 in
    (
      putchar c ∷ os,
      printf-plain c (format_of ps ++ (0 ∷ q)) (arguments_of ps ++ more) os h.0.0 h.0.1 e,
      (putchar c, os, refl, refl, w),
    )
printf-Writes (escaped c ∷ ps) q more h =
    let (os, e, w) = printf-Writes ps q more h.1 in
    let here : directive c (arguments_of ps ++ more) ≡ some (putchar c, arguments_of ps ++ more) =
      rw (ne→== c 105 h.0.0, ne→== c 115 h.0.1) refl in
    (
      putchar c ∷ os,
      printf-directive c (format_of ps ++ (0 ∷ q)) (arguments_of ps ++ more)
          (arguments_of ps ++ more) (putchar c) os here e,
      (putchar c, os, refl, refl, w),
    )
printf-Writes (number n ∷ ps) q more h =
    let (os, e, w) = printf-Writes ps q more h.1 in
    let (b, made, printed) = itoa_lem n zeroed h.0 in
    let o = print (chars 12 0 b) in
    let here : directive 105 (int n ∷ (arguments_of ps ++ more))
        ≡ some (o, arguments_of ps ++ more) =
      rw made refl in
    (
      o ∷ os,
      printf-directive 105 (format_of ps ++ (0 ∷ q)) (int n ∷ (arguments_of ps ++ more))
          (arguments_of ps ++ more) o os here e,
      (o, os, refl, (b, printed, refl), w),
    )
printf-Writes (text s ∷ ps) q more h =
    let (os, e, w) = printf-Writes ps q more h.1 in
    (
      print s ∷ os,
      printf-directive 115 (format_of ps ++ (0 ∷ q)) (pointer s ∷ (arguments_of ps ++ more))
          (arguments_of ps ++ more) (print s) os refl e,
      (print s, os, refl, refl, w),
    )
