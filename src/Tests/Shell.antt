-- ===== src/Tests/Shell.antt =====
-- user_programs/shell at the keys of "lx", a backspace, "s f" and a carriage return.
use conifer_os.Common.{
  ℕ, ◌≡◌, refl, arith, some, none, List, [], ◌∷◌, ◌++◌, replicate, length-replicate,
}
use conifer_os.CString.{strlen}
use conifer_os.Echo.{main, echo_loop}
use conifer_os.Stdlib.Stdio.{putchar, printf}
use conifer_os.Shell.{next_command}
use conifer_os.Shell.Commands.{Given, next_command-Given}
use conifer_os.Shell.Editing.{Unended}
use conifer_os.Shell.Parsing.{granted}

abbrev keys : List ℕ
keys = 108 ∷ 120 ∷ 8 ∷ 0 ∷ 115 ∷ 32 ∷ 102 ∷ []

abbrev path_buf : List ℕ
path_buf = replicate 1024 7

abbrev token_buf : List ℕ
token_buf = replicate 1024 9

null_string-length : strlen (0 ∷ []) ≡ some 0
unfolding strlen
null_string-length = refl

keys-Unended : Unended keys
keys-Unended = (
  λ e. omega (arith, e),
  (
    λ e. omega (arith, e),
    (
      λ e. omega (arith, e),
      (
        λ e. omega (arith, e),
        (λ e. omega (arith, e), (λ e. omega (arith, e), (λ e. omega (arith, e), tt))),
      ),
    ),
  ),
)

next_command-Given_example :
    Given
      (108 ∷ 115 ∷ [])
      ((102 ∷ []) ∷ [])
      (next_command (0 ∷ []) (granted 0) none path_buf token_buf (keys ++ (13 ∷ 97 ∷ [])))
next_command-Given_example =
    next_command-Given (0 ∷ []) 0 0 none path_buf token_buf keys (97 ∷ []) (108 ∷ 115 ∷ [])
      ((102 ∷ []) ∷ []) null_string-length (length-replicate {A = ℕ} 1024 7)
      (length-replicate {A = ℕ} 1024 9) keys-Unended (omega arith) refl
      (
        (
          (λ e. omega (arith, e), λ e. omega (arith, e)),
          (
            (λ e. omega (arith, e), λ e. omega (arith, e)),
            (
              (λ e. omega (arith, e), λ e. omega (arith, e)),
              (
                (λ e. omega (arith, e), λ e. omega (arith, e)),
                ((λ e. omega (arith, e), λ e. omega (arith, e)), tt),
              ),
            ),
          ),
        ),
        omega arith,
      )
      ((((λ e. omega (arith, e), λ e. omega (arith, e)), tt), omega arith), tt)

-- The program echo with the arguments "ab" and "c".
echo :
    main ((97 ∷ 98 ∷ 0 ∷ []) ∷ (99 ∷ 0 ∷ []) ∷ [])
    ≡ some (putchar 10 ∷ putchar 97 ∷ putchar 98 ∷ putchar 10 ∷ putchar 99 ∷ putchar 10 ∷ [])
unfolding main echo_loop printf
echo = refl
