-- ===== src/Shell/Parsing.antt =====
-- `parse_command` and `create_argv_array` on a line of tokens with a space between two.
use conifer_os.Common.{
  ap₂, ℕ, zero, suc, ◌+◌, ◌≤◌, ◌<◌, ◌≡◌, refl, ap, arith, true, Option, none, some, List, [], ◌∷◌,
  ◌++◌, length, length-append, take, drop, replicate, length-replicate, ne→==, le→ltb,
}
use conifer_os.CString.{strlen, strncpy}
use conifer_os.CString.Length.{All}
use conifer_os.Fat.{Allocations}
use conifer_os.Shell.{
  CommandToken, max_cmmd_arg_len, max_command_len, token_of, parse_args, parse_command,
}
use conifer_os.Stdlib.{strtok, strtok_loop}
use conifer_os.Stdlib.Tokens.{
  Plain, Fits, line, text, after, strlen-line, strtok_loop-last, strtok_loop-next,
}

-- The tokens as strings.
abbrev pub texts : List CommandToken → List (List ℕ)
texts [] = []
texts (t ∷ ts) = text t ∷ texts ts

-- A token that fits into its structure.
abbrev pub Short : List ℕ → Type 0
Short t = Fits 32 max_cmmd_arg_len t

strncpy-Plain :
    (t rest dest : List ℕ) (n : ℕ)
    → Plain 32 t
    → length t < n
    → length t < length dest
    → (z : List ℕ) × (strncpy dest (t ++ (0 ∷ rest)) n ≡ some (t ++ (0 ∷ z)))
unfolding strncpy
strncpy-Plain t rest dest zero p small room = absurd (omega arith)
strncpy-Plain t rest [] (suc n) p small room = absurd (omega arith)
strncpy-Plain [] rest (d ∷ dest) (suc n) p small room = (dest, refl)
strncpy-Plain (c ∷ t) rest (d ∷ dest) (suc n) p small room =
    let (z, e) = strncpy-Plain t rest dest n p.1 (omega (arith, small)) (omega (arith, room)) in
    (z, rw (ne→== c 0 p.0.0, e) refl)

text-take : (t z : List ℕ) (n : ℕ) → Plain 32 t → length t < n → text (take n (t ++ (0 ∷ z))) ≡ t
text-take t z zero p small = absurd (omega arith)
text-take [] z (suc n) p small = refl
text-take (c ∷ t) z (suc n) p small =
    rw (ne→== c 0 p.0.0) (ap (λ s. c ∷ s) (text-take t z n p.1 (omega (arith, small))))

token_of-text :
    (t rest : List ℕ)
    → Short t
    → (c : CommandToken) × (token_of (t ++ (0 ∷ rest)) ≡ some c) × (text c ≡ t)
unfolding token_of
token_of-text t rest p =
    let room = length-replicate {A = ℕ} (max_cmmd_arg_len + 4) 0 in
    let (z, e) =
      strncpy-Plain t rest (replicate (max_cmmd_arg_len + 4) 0) max_cmmd_arg_len p.0 p.1
        (omega (arith, room, p.1)) in
    (take max_cmmd_arg_len (t ++ (0 ∷ z)), rw e refl, text-take t z max_cmmd_arg_len p.0 p.1)

-- Allocations that all succeed, with `n` live before them.
abbrev pub granted : ℕ → Allocations
granted n = record { outcomes = []; live = n }

length-line :
    (t : List ℕ) (us : List (List ℕ)) (q : List ℕ) → length us < suc (length (line 32 t us q))
length-line t [] q = omega arith
length-line t (u ∷ us) q = omega (arith, length-line u us q, length-append t (32 ∷ line 32 u us q))

-- What strtok keeps for the next call.
abbrev kept : List (List ℕ) → List ℕ → Option (List ℕ)
kept [] q = none
kept (u ∷ us) q = some (line 32 u us q)

strtok_loop-line :
    (t : List ℕ) (us : List (List ℕ)) (q out : List ℕ)
    → Plain 32 t
    → length t < length out
    → strtok_loop (line 32 t us q) 32 out ≡ some (after t out, kept us q)
strtok_loop-line t [] q out p room = strtok_loop-last 32 t q out p room
strtok_loop-line t (u ∷ us) q out p room =
    strtok_loop-next 32 t (line 32 u us q) out (λ e. omega (arith, e)) p room

module _ (null_string : List ℕ) (k : ℕ) (size_lem : strlen null_string ≡ some k) (q : List ℕ) where
  strtok-kept :
      (t : List ℕ) (us : List (List ℕ)) (out : List ℕ)
      → Plain 32 t
      → length t < length out
      → strtok null_string (kept (t ∷ us) q) none 32 out ≡ some (true, (after t out, kept us q))
  unfolding strtok
  strtok-kept t us out p room = rw (size_lem, strtok_loop-line t us q out p room) refl

  parse_args-kept :
      (us : List (List ℕ)) (fuel n : ℕ)
      → All Short us
      → length us < fuel
      → (cs : List CommandToken) × (parse_args fuel null_string (granted n) (kept us q)
          ≡ some (some cs, (none, granted (length us + n))))
        × (texts cs ≡ us)
  unfolding parse_args
  parse_args-kept us zero n h enough = absurd (omega arith)
  parse_args-kept [] (suc fuel) n h enough =
      ([], ap (λ m. some (some [], (none, granted m))) (omega arith), refl)
  parse_args-kept (u ∷ us) (suc fuel) n h enough =
      let zeros : List ℕ = replicate 1024 0 in
      let room : length u < length zeros = omega (arith, length-replicate {A = ℕ} 1024 0, h.0.1) in
      let (c, made, read) = token_of-text u (drop (suc (length u)) zeros) h.0 in
      let (cs, more, reads) = parse_args-kept us fuel (n + 1) h.1 (omega (arith, enough)) in
      (
        c ∷ cs,
        rw (strtok-kept u us zeros h.0.0 room, made, more)
            (ap (λ m. some (some (c ∷ cs), (none, granted m))) (omega arith)),
        ap₂ (λ x y. x ∷ y) read reads,
      )

  -- The result of `parse_command` for the tokens: a chain of structures that hold them, each of which was
  -- allocated.
  abbrev pub Parsed :
      List (List ℕ) → ℕ → Option (List CommandToken × (Option (List ℕ) × Allocations)) → Type 0
  Parsed ts n r =
      (cs : List CommandToken) × (r ≡ some (cs, (none, granted (length ts + n)))) × (texts cs ≡ ts)

  pub parse_command-Parsed :
      (t : List ℕ) (us : List (List ℕ)) (out : List ℕ) (remainder : Option (List ℕ))
      (command_len n : ℕ)
      → All Short (t ∷ us)
      → length out ≡ 1024
      → command_len ≤ max_command_len
      → Parsed
          (t ∷ us)
          n
          (parse_command null_string (granted n) remainder (line 32 t us q) command_len out)
  unfolding parse_command strtok
  parse_command-Parsed t us out remainder command_len n h size len =
      let room : length t < length out = omega (arith, size, h.0.1) in
      let (c, made, read) = token_of-text t (drop (suc (length t)) out) h.0 in
      let (cs, more, reads) =
        parse_args-kept us (suc (length (line 32 t us q))) (n + 1) h.1 (length-line t us q) in
      let (m, measured) = strlen-line 32 max_cmmd_arg_len t us q (λ e. omega (arith, e)) h.0 h.1 in
      (
        c ∷ cs,
        rw
            (
              le→ltb max_command_len command_len len,
              measured,
              strtok_loop-line t us q out h.0.0 room,
              made,
              more,
            )
            (ap (λ i. some (c ∷ cs, (none, granted i))) (omega arith)),
        ap₂ (λ x y. x ∷ y) read reads,
      )
