-- ===== src/Shell/Commands.antt =====
-- A round of the shell: from the keys to the command that is executed.
use conifer_os.Common.{
  ℕ, ◌+◌, ◌-◌, ◌≤◌, ◌<◌, ◌≡◌, refl, sym, ap, ◌∙◌, arith, Option, none, some, List, [], ◌∷◌, ◌++◌,
  append_assoc, length, length-drop, drop,
}
use conifer_os.CString.{strlen, strncpy}
use conifer_os.CString.Length.{All}
use conifer_os.Fat.{Allocations}
use conifer_os.Shell.{
  Command, CommandToken, map_some, path_prefix, max_command_len, create_argv_array, next_command,
}
use conifer_os.Shell.Editing.{Unended, typed, coniferos_terminal_readline-typed}
use conifer_os.Shell.Parsing.{Short, texts, granted, parse_command-Parsed}
use conifer_os.Stdlib.Tokens.{line, text}

-- Words with a space between two.
abbrev pub words : List ℕ → List (List ℕ) → List ℕ
words t [] = t
words t (u ∷ us) = t ++ (32 ∷ words u us)

-- The path of a program.
abbrev pub path : List ℕ → List ℕ
path w = 48 ∷ 58 ∷ 47 ∷ w

-- The command names the program and has the other words as arguments, with a null pointer behind them.
pub record Given (w : List ℕ) (us : List (List ℕ)) (r : Option Command) : Type 0 where
  pub token : CommandToken
  pub args : List CommandToken
  pub result :
      r
      ≡ some (record {
        filename = token;
        argv = some (map_some args ++ (none ∷ []));
        argc = length us;
      })
  pub named : text token ≡ path w
  pub arguments : texts args ≡ us

line-words : (t : List ℕ) (us : List (List ℕ)) (q : List ℕ) → line 32 t us q ≡ words t us ++ (0 ∷ q)
line-words t [] q = refl
line-words t (u ∷ us) q =
    ap (λ s. t ++ (32 ∷ s)) (line-words u us q) ∙ sym (append_assoc t (32 ∷ words u us) (0 ∷ q))

line-path :
    (w : List ℕ) (us : List (List ℕ)) (q : List ℕ)
    → line 32 (path w) us q ≡ 48 ∷ 58 ∷ 47 ∷ line 32 w us q
line-path w [] q = refl
line-path w (u ∷ us) q = refl

strncpy-path_prefix :
    (buf : List ℕ) → 4 ≤ length buf → strncpy buf path_prefix 3 ≡ some (path (0 ∷ drop 4 buf))
unfolding strncpy
strncpy-path_prefix [] h = absurd (omega arith)
strncpy-path_prefix (a ∷ []) h = absurd (omega arith)
strncpy-path_prefix (a ∷ b ∷ []) h = absurd (omega arith)
strncpy-path_prefix (a ∷ b ∷ c ∷ []) h = absurd (omega arith)
strncpy-path_prefix (a ∷ b ∷ c ∷ d ∷ buf) h = refl

length-texts : (cs : List CommandToken) → length (texts cs) ≡ length cs
length-texts [] = refl
length-texts (c ∷ cs) = omega (arith, length-texts cs)

first : List (List ℕ) → List ℕ
first [] = []
first (t ∷ ts) = t

others : List (List ℕ) → List (List ℕ)
others [] = []
others (t ∷ ts) = ts

-- The end of a round, for the chain that was parsed.
abbrev given_by : List CommandToken → Allocations → Option Command
given_by root h =
    let (argv, argc) = (create_argv_array h root 0).0 in
    elim root [
      | [] ↦ none
      | token ∷ args ↦ some (record { filename = token; argv = argv; argc = argc })
    ]

given_by-Given :
    (w : List ℕ) (us : List (List ℕ)) (cs : List CommandToken) (n : ℕ)
    → texts cs ≡ path w ∷ us
    → Given w us (given_by cs (granted n))
unfolding create_argv_array first others
given_by-Given w us [] n e = absurd (omega (arith, ap length e))
given_by-Given w us (c ∷ cs) n e =
    let counted : length cs ≡ length us = sym (length-texts cs) ∙ ap (λ ts. length (others ts)) e in
    record {
      token = c;
      args = cs;
      result =
          ap
            (λ m.
              some (record { filename = c; argv = some (map_some cs ++ (none ∷ [])); argc = m }))
            counted;
      named = ap first e;
      arguments = ap others e;
    }

-- Where the memory at address 0 holds a terminated string, the arrays have their sizes and all
-- allocations succeed, for fewer than 1021 keys, among them no carriage return, which type a line
-- (backspaces included) of words, which may be empty, with a space between two, and then a
-- carriage return, a round of the shell takes the line apart, without a fault, into the path 0:/
-- and the first word, which it executes, and the other words, which are its arguments with a null
-- pointer behind them, and their number; the path and each word are shorter than 128 characters.
pub next_command-Given :
    (null_string : List ℕ) (k n : ℕ) (remainder : Option (List ℕ)) (path_buf token_buf : List ℕ)
    (keys q w : List ℕ) (us : List (List ℕ))
    → strlen null_string ≡ some k
    → length path_buf ≡ max_command_len
    → length token_buf ≡ 1024
    → Unended keys
    → length keys < max_command_len - 3
    → typed keys ≡ words w us
    → Short (path w)
    → All Short us
    → Given w us
        (next_command null_string (granted n) remainder path_buf token_buf (keys ++ (13 ∷ q)))
unfolding next_command
next_command-Given null_string k n remainder path_buf token_buf keys q w us size buf tok u few
      line_typed fits others_fit =
    let prefixed = strncpy-path_prefix path_buf (omega (arith, buf)) in
    let room : max_command_len - 3 ≤ length (0 ∷ drop 4 path_buf) =
      omega (arith, buf, length-drop 4 path_buf) in
    let (rest, read) =
      coniferos_terminal_readline-typed keys q (0 ∷ drop 4 path_buf) (max_command_len - 3) u few
        room in
    let whole : path (typed keys ++ (0 ∷ rest)) ≡ line 32 (path w) us rest =
      ap (λ s. path (s ++ (0 ∷ rest))) line_typed
      ∙ ap path (sym (line-words w us rest))
      ∙ sym (line-path w us rest) in
    let (cs, parsed, e) =
      parse_command-Parsed null_string k size rest (path w) us token_buf remainder max_command_len n
        (fits, others_fit) tok (omega arith) in
    rw (prefixed, read, whole, parsed) (given_by-Given w us cs (length (path w ∷ us) + n) e)
