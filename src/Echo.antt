-- ===== src/Echo.antt =====
-- user_programs/echo/src/echo.c: the program that prints its arguments, each of which is the format of a
-- call of printf.
use conifer_os.Common.{ℕ, ◌≡◌, ◌≢◌, refl, Option, some, List, [], ◌∷◌, ◌++◌, ◌>>=◌}
use conifer_os.CString.Length.{All}
use conifer_os.Stdlib.Stdio.{Output, putchar, printf}
use conifer_os.Stdlib.Formats.{printf-end, printf-plain}

-- "\n"
abbrev newline : List ℕ
newline = 10 ∷ 0 ∷ []

-- The loop of `main` over the arguments.
unfoldable pub echo_loop : List (List ℕ) → Option (List Output)
echo_loop [] = some []
echo_loop (arg ∷ argv) = printf newline [] >>= λ line.
    printf arg [] >>= λ os. echo_loop argv >>= λ rest. some (line ++ (os ++ rest))

-- The calls that `main` makes; no argument is a null pointer.
unfoldable pub main : List (List ℕ) → Option (List Output)
unfolding echo_loop
main argv = echo_loop argv >>= λ os. printf newline [] >>= λ line. some (os ++ line)

-- No terminator and no directive.
abbrev Literal : List ℕ → Type 0
Literal s = All (λ c. (c ≢ 0) × (c ≢ 37)) s

-- The strings as arrays.
abbrev terminated : List (List ℕ) → List (List ℕ)
terminated [] = []
terminated (s ∷ ss) = (s ++ (0 ∷ [])) ∷ terminated ss

abbrev put_all : List ℕ → List Output
put_all [] = []
put_all (c ∷ s) = putchar c ∷ put_all s

-- A newline and a string, for each of the strings.
abbrev lines : List (List ℕ) → List Output
lines [] = []
lines (s ∷ ss) = (putchar 10 ∷ []) ++ (put_all s ++ lines ss)

printf-Literal : (s : List ℕ) → Literal s → printf (s ++ (0 ∷ [])) [] ≡ some (put_all s)
printf-Literal [] h = printf-end [] []
printf-Literal (c ∷ s) h =
    printf-plain c (s ++ (0 ∷ [])) [] (put_all s) h.0.0 h.0.1 (printf-Literal s h.1)

echo_loop_lem : (ss : List (List ℕ)) → All Literal ss → echo_loop (terminated ss) ≡ some (lines ss)
unfolding echo_loop printf
echo_loop_lem [] h = refl
echo_loop_lem (s ∷ ss) h = rw (printf-Literal s h.0, echo_loop_lem ss h.1) refl

-- For strings without a terminator or a directive it writes each behind a newline, and a newline at the
-- end.
main_lem :
    (ss : List (List ℕ))
    → All Literal ss
    → main (terminated ss) ≡ some (lines ss ++ (putchar 10 ∷ []))
unfolding main printf
main_lem ss h = rw (echo_loop_lem ss h) refl
