-- ===== src/Stdlib/Stdio.antt =====
-- user_programs/stdlib/src/stdio.c: printf, which writes by system calls.
use conifer_os.Common.{
  ℕ, zero, suc, ◌+◌, true, false, Option, none, some, ℤ, List, [], ◌∷◌, ◌==◌, if◌then◌else◌, ◌>>=◌,
}
use conifer_os.Stdlib.{Buffer, itoa}

-- An argument behind the format.
pub data Argument : Type 0 where
  int : ℤ → Argument
  pointer : List ℕ → Argument

-- A system call that writes a character, or the text at a pointer.
pub data Output : Type 0 where
  putchar : ℕ → Output
  print : List ℕ → Output

-- The elements of an array from one index on.
abbrev pub chars : ℕ → ℕ → Buffer → List ℕ
chars zero i buffer = []
chars (suc n) i buffer = buffer i ∷ chars n (i + 1) buffer

-- `char str[12] = {0}`
abbrev pub zeroed : Buffer
zeroed j = 0

-- The character behind a `%`. The behaviour without an argument of its type is not defined.
unfoldable pub directive : ℕ → List Argument → Option (Output × List Argument)
directive c args =
    if c == 105
    then elim args [
      | [] ↦ none
      | arg ∷ rest ↦ elim arg [
        | int ival ↦ itoa ival zeroed >>= λ str. some (print (chars 12 0 str), rest)
        | pointer sval ↦ none
      ]
    ]
    else if c == 115
    then elim args [
      | [] ↦ none
      | arg ∷ rest ↦ elim arg [ int ival ↦ none | pointer sval ↦ some (print sval, rest) ]
    ]
    else some (putchar c, args)

-- The format is the memory from `p` on; `none` if it is read behind its end. A `%` in front of the
-- terminator writes that, and the loop goes on behind it.
unfoldable pub printf : List ℕ → List Argument → Option (List Output)
unfolding directive
printf [] args = none
printf (c ∷ []) args = if c == 0 then some [] else none
printf (c ∷ d ∷ p) args = if c == 0 then some [] else elim (c == 37) [
  | false ↦ printf (d ∷ p) args >>= λ os. some (putchar c ∷ os)
  | true ↦ directive d args >>= λ (o, rest). printf p rest >>= λ os. some (o ∷ os)
]
