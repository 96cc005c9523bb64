-- ===== src/Stdlib/Tokens.antt =====
-- `strtok` of user_programs/stdlib/src/string.c: the calls that take a text apart.
use conifer_os.Common.{
  ℕ, zero, suc, ◌<◌, ◌≡◌, ◌≢◌, refl, ap, ◌∙◌, arith, Option, none, some, List, [], ◌∷◌, ◌++◌, drop,
  length, length-append, length-drop, ◌==◌, if◌then◌else◌, ◌>>=◌, eq→==, ne→==,
}
use conifer_os.CString.{strlen}
use conifer_os.CString.Length.{All}
use conifer_os.Stdlib.{strtok_loop, strtok}

-- A token has no null character and no delimiter.
abbrev pub Plain : ℕ → List ℕ → Type 0
Plain delim t = All (λ c. (c ≢ 0) × (c ≢ delim)) t

-- And it fits into an array with its terminator.
abbrev pub Fits : ℕ → ℕ → List ℕ → Type 0
Fits delim size t = Plain delim t × (length t < size)

-- Tokens with a delimiter between two, a null character, and what lies behind it.
abbrev pub line : ℕ → List ℕ → List (List ℕ) → List ℕ → List ℕ
line delim t [] q = t ++ (0 ∷ q)
line delim t (u ∷ us) q = t ++ (delim ∷ line delim u us q)

-- The text at the start of an array.
abbrev pub text : List ℕ → List ℕ
text [] = []
text (c ∷ s) = let rest = c ∷ text s in if c == 0 then [] else rest

-- `out_tok` behind a call that returns `t`.
abbrev pub after : List ℕ → List ℕ → List ℕ
after t out_tok = t ++ (0 ∷ drop (suc (length t)) out_tok)

-- The texts that calls of strtok with a null pointer leave in `out_tok`, up to the call that returns null;
-- nothing if `n` calls do not get there.
unfoldable next_tokens : ℕ → List ℕ → Option (List ℕ) → ℕ → List ℕ → Option (List (List ℕ))
next_tokens zero null_string remainder delim out_tok = none
next_tokens (suc n) null_string remainder delim out_tok =
    strtok null_string remainder none delim out_tok >>= λ (found, (out, rest)).
    let ts = next_tokens n null_string rest delim out in
    if found then ts >>= (λ us. some (text out ∷ us)) else some []

-- The same with the text itself in the first call.
unfoldable tokens : ℕ → List ℕ → Option (List ℕ) → List ℕ → ℕ → List ℕ → Option (List (List ℕ))
tokens n null_string remainder str delim out_tok =
    strtok null_string remainder (some str) delim out_tok >>= λ (found, (out, rest)).
    let ts = next_tokens n null_string rest delim out in
    if found then ts >>= (λ us. some (text out ∷ us)) else some []

pub text-after : (delim : ℕ) (t out : List ℕ) → Plain delim t → text (after t out) ≡ t
text-after delim [] out p = refl
text-after delim (c ∷ t) [] p = rw (ne→== c 0 p.0.0) (ap (λ s. c ∷ s) (text-after delim t [] p.1))
text-after delim (c ∷ t) (o ∷ out) p =
    rw (ne→== c 0 p.0.0) (ap (λ s. c ∷ s) (text-after delim t out p.1))

pub length-after : (t out : List ℕ) → length t < length out → length (after t out) ≡ length out
length-after t out h =
    omega (arith, length-append t (0 ∷ drop (suc (length t)) out), length-drop (suc (length t)) out)

pub strtok_loop-last :
    (delim : ℕ) (t q out : List ℕ)
    → Plain delim t
    → length t < length out
    → strtok_loop (t ++ (0 ∷ q)) delim out ≡ some (after t out, none)
unfolding strtok_loop
strtok_loop-last delim t q [] p h = absurd (omega arith)
strtok_loop-last delim [] q (o ∷ out) p h = refl
strtok_loop-last delim (c ∷ t) q (o ∷ out) p h =
    rw (ne→== c 0 p.0.0, ne→== c delim p.0.1, strtok_loop-last delim t q out p.1 (omega arith)) refl

pub strtok_loop-next :
    (delim : ℕ) (t q out : List ℕ)
    → delim ≢ 0
    → Plain delim t
    → length t < length out
    → strtok_loop (t ++ (delim ∷ q)) delim out ≡ some (after t out, some q)
unfolding strtok_loop
strtok_loop-next delim t q [] d p h = absurd (omega arith)
strtok_loop-next delim [] q (o ∷ out) d p h = rw (ne→== delim 0 d, eq→== delim delim refl) refl
strtok_loop-next delim (c ∷ t) q (o ∷ out) d p h =
    rw (ne→== c 0 p.0.0, ne→== c delim p.0.1, strtok_loop-next delim t q out d p.1 (omega arith))
      refl

strlen-append :
    (delim : ℕ) (t s : List ℕ)
    → Plain delim t
    → ((k : ℕ) × (strlen s ≡ some k))
    → (k : ℕ) × (strlen (t ++ s) ≡ some k)
unfolding strlen
strlen-append delim [] s p h = h
strlen-append delim (c ∷ t) s p h =
    let r = strlen-append delim t s p.1 h in (suc r.0, rw (ne→== c 0 p.0.0, r.1) refl)

pub strlen-line :
    (delim size : ℕ) (t : List ℕ) (us : List (List ℕ)) (q : List ℕ)
    → delim ≢ 0
    → Fits delim size t
    → All (Fits delim size) us
    → (k : ℕ) × (strlen (line delim t us q) ≡ some k)
unfolding strlen
strlen-line delim size t [] q d p h = strlen-append delim t (0 ∷ q) p.0 (0, refl)
strlen-line delim size t (u ∷ us) q d p h =
    let r = strlen-line delim size u us q d h.0 h.1 in
    strlen-append delim t (delim ∷ line delim u us q) p.0 (suc r.0, rw (ne→== delim 0 d, r.1) refl)

module _ (null_string : List ℕ) (k delim : ℕ) (size_lem : strlen null_string ≡ some k)
    (d : delim ≢ 0) where
  next_tokens-line :
      (size : ℕ) (t : List ℕ) (us : List (List ℕ)) (q out : List ℕ)
      → length out ≡ size
      → Fits delim size t
      → All (Fits delim size) us
      → next_tokens (suc (suc (length us))) null_string (some (line delim t us q)) delim out
        ≡ some (t ∷ us)
  unfolding next_tokens strtok
  next_tokens-line size t [] q out e p h =
      rw
        (
          size_lem,
          strtok_loop-last delim t q out p.0 (omega (arith, p.1, e)),
          text-after delim t out p.0,
        )
        refl
  next_tokens-line size t (u ∷ us) q out e p h =
      let small : length t < length out = omega (arith, p.1, e) in
      rw
        (
          size_lem,
          strtok_loop-next delim t (line delim u us q) out d p.0 small,
          next_tokens-line size u us q (after t out) (length-after t out small ∙ e) h.0 h.1,
          text-after delim t out p.0,
        )
        refl

  -- Where the memory at address 0 holds a terminated string, for a text of tokens with a
  -- delimiter other than the null character between two, none of which contains the delimiter or
  -- a null character and each of which fits into out_tok with its end, the first call of strtok
  -- with that text and the calls with a null pointer behind it leave the tokens in out_tok, one
  -- after the other, until one returns null.
  tokens-line :
      (t : List ℕ) (us : List (List ℕ)) (q out_tok : List ℕ) (remainder : Option (List ℕ))
      → Fits delim (length out_tok) t
      → All (Fits delim (length out_tok)) us
      → tokens (suc (length us)) null_string remainder (line delim t us q) delim out_tok
        ≡ some (t ∷ us)
  unfolding tokens strtok next_tokens
  tokens-line t [] q out remainder p h =
      rw
        (
          (strlen-line delim (length out) t [] q d p h).1,
          strtok_loop-last delim t q out p.0 p.1,
          text-after delim t out p.0,
        )
        refl
  tokens-line t (u ∷ us) q out remainder p h =
      rw
        (
          (strlen-line delim (length out) t (u ∷ us) q d p h).1,
          strtok_loop-next delim t (line delim u us q) out d p.0 p.1,
          next_tokens-line (length out) u us q (after t out) (length-after t out p.1) h.0 h.1,
          text-after delim t out p.0,
        )
        refl
