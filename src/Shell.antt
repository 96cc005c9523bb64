-- ===== src/Shell.antt =====
-- user_programs/shell/src/shell.c and user_programs/stdlib/src/coniferos.c: how the shell reads a line
-- and takes it apart. What malloc does is known by the outcomes of the allocations; memory that it gives
-- is zeroed, as by the system call. Its message to the user is left out.
pub mod Editing
pub mod Parsing
pub mod Commands
use conifer_os.Common.{
  ℕ, zero, suc, ◌+◌, ◌-◌, ◌%◌, ◌^◌, Bool, true, false, ◌&&◌, Option, none, some, List, [], ◌∷◌,
  ◌++◌, leb, ltb, ◌==◌, if◌then◌else◌, take, drop, replicate, store, length, ◌>>=◌,
}
use conifer_os.CString.{strncpy}
use conifer_os.Fat.{Allocations, allocation, release}
use conifer_os.Stdlib.{strtok}

-- MAX_COMMAND_LEN
abbrev pub max_command_len : ℕ
max_command_len = 1024

-- MAX_CMMD_ARG_LEN of the shell
abbrev pub max_cmmd_arg_len : ℕ
max_cmmd_arg_len = 128

-- The end of a line behind `i` characters: `out`, no more characters for the screen, and the other keys.
unfoldable pub end_line : List ℕ → ℕ → List ℕ → Option (List ℕ × (List ℕ × List ℕ))
end_line out i keys = store out i 0 >>= λ out'. some (out', ([], keys))

-- A character that does not end the line: `out`, the next `i`, and what is put on the screen. The key 0
-- is none, and the next is waited for.
unfoldable pub type_key : List ℕ → ℕ → ℕ → Option (List ℕ × (ℕ × List ℕ))
type_key out i key =
    let c = key % 2 ^ 8 in
    if key == 0
    then some (out, (i, []))
    else if (c == 8) && leb 1 i
    then (store out (i - 1) 0 >>= λ out'. some (out', (i - 1, c ∷ [])))
    else (store out i c >>= λ out'. some (out', (i + 1, c ∷ [])))

-- The loop of `coniferos_terminal_readline`. The keys are the results of `coniferos_get_key`, one
-- after the other; without a further one the program would wait.
unfoldable pub readline_loop : List ℕ → List ℕ → ℕ → ℕ → Option (List ℕ × (List ℕ × List ℕ))
unfolding end_line type_key
readline_loop [] out i max = if ltb i max then none else end_line out i []
readline_loop (key ∷ keys) out i max =
    let rest = type_key out i key >>= λ (out', (j, cs)).
    readline_loop keys out' j max >>= λ (line, (shown, left)). some (line, (cs ++ shown, left)) in
    if ltb i max
    then (if key % 2 ^ 8 == 13 then end_line out i keys else rest)
    else end_line out i (key ∷ keys)

-- What `out` is, the characters on the screen, and the keys that are left.
unfoldable pub coniferos_terminal_readline :
    List ℕ → List ℕ → ℕ → Option (List ℕ × (List ℕ × List ℕ))
unfolding readline_loop
coniferos_terminal_readline keys out max = readline_loop keys out 0 max

-- The characters of a `struct command_token`. A list of these is their chain by `next`, and the empty
-- one a null pointer.
abbrev pub CommandToken : Type 0
CommandToken = List ℕ

-- The copy of a token to a new structure; behind its characters lies `next`, which is written later.
unfoldable pub token_of : List ℕ → Option CommandToken
token_of token = strncpy (replicate (max_cmmd_arg_len + 4) 0) token max_cmmd_arg_len >>= λ bytes.
    some (take max_cmmd_arg_len bytes)

abbrev pub with_token : CommandToken → Option (List CommandToken) → Option (List CommandToken)
with_token t none = none
with_token t (some args) = some (t ∷ args)

-- The loop of `parse_command`, on fuel; a null pointer from malloc ends it without a result. It also
-- returns the pointer that strtok keeps.
unfoldable pub parse_args :
    ℕ
    → List ℕ
    → Allocations
    → Option (List ℕ)
    → Option (Option (List CommandToken) × (Option (List ℕ) × Allocations))
unfolding strtok token_of allocation
parse_args zero null_string h remainder = none
parse_args (suc n) null_string h remainder =
    strtok null_string remainder none 32 (replicate 1024 0) >>= λ (found, (token, left)).
    let a = allocation h in
    let rest = token_of token >>= λ t.
    parse_args n null_string a.1 left >>= λ (args, s). some (with_token t args, s) in
    if found then (if a.0 then rest else some (none, (left, a.1))) else some (some [], (left, h))

-- Each round takes a character or more of the command, so more fuel than it has characters is enough.
unfoldable pub parse_command :
    List ℕ
    → Allocations
    → Option (List ℕ)
    → List ℕ
    → ℕ
    → List ℕ
    → Option (List CommandToken × (Option (List ℕ) × Allocations))
unfolding strtok token_of allocation release parse_args
parse_command null_string h remainder command command_len token_buf =
    let parsed =
      strtok null_string remainder (some command) 32 token_buf >>= λ (found, (token, left)).
      let a = allocation h in
      let rest = token_of token >>= λ t.
      parse_args (suc (length command)) null_string a.1 left >>= λ (args, (left', h')).
      some (elim args [ none ↦ ([], (left', release h')) | some ts ↦ (t ∷ ts, (left', h')) ]) in
      if found then (if a.0 then rest else some ([], (left, a.1))) else some ([], (left, h)) in
    if ltb max_command_len command_len then some ([], (remainder, h)) else parsed

abbrev pub map_some : List CommandToken → List (Option CommandToken)
map_some [] = []
map_some (t ∷ ts) = some t ∷ map_some ts

-- The array of arguments, which ends in a null pointer, or a null pointer; and `arg_count`.
unfoldable pub create_argv_array :
    Allocations → List CommandToken → ℕ → (Option (List (Option CommandToken)) × ℕ) × Allocations
unfolding allocation
create_argv_array h [] arg_count = ((none, arg_count), h)
create_argv_array h (command ∷ args) arg_count =
    let a = allocation h in
    if a.0
    then ((some (map_some args ++ (none ∷ [])), length args), a.1)
    else ((none, arg_count), a.1)

-- "0:/"
abbrev pub path_prefix : List ℕ
path_prefix = 48 ∷ 58 ∷ 47 ∷ 0 ∷ []

-- What a round of the loop of `main` gives to `coniferos_execve`, which does not return if it succeeds.
pub record Command : Type 0 where
  pub filename : CommandToken
  pub argv : Option (List (Option CommandToken))
  pub argc : ℕ

-- A round of the loop of `main`, without what it prints; `path_buf` and `token_buf` are the arrays before
-- it. Without a command a null pointer is read.
unfoldable pub next_command :
    List ℕ → Allocations → Option (List ℕ) → List ℕ → List ℕ → List ℕ → Option Command
next_command null_string h remainder path_buf token_buf keys =
    strncpy path_buf path_prefix 3 >>= λ prefixed.
    coniferos_terminal_readline keys (drop 3 prefixed) (max_command_len - 3) >>= λ (line, _).
    parse_command null_string h remainder (take 3 prefixed ++ line) max_command_len token_buf
    >>= λ (root, (_, h1)).
        let (argv, argc) = (create_argv_array h1 root 0).0 in
        elim root [
          | [] ↦ none
          | token ∷ args ↦ some (record { filename = token; argv = argv; argc = argc })
        ]
