-- ===== src/CString/Length.antt =====
-- The length functions of src/string/string.c on a terminated string.
use conifer_os.Common.{
  ℕ, zero, suc, ◌≡◌, ◌≢◌, refl, ap, some, List, [], ◌∷◌, ◌++◌, arith, ne→==, length, min,
}
use conifer_os.CString.{strlen, strnlen, strnlen_terminator}

-- Every character satisfies `P`.
abbrev pub All {ℓ} : {A : Type 0} → (A → Type ℓ) → List A → Type ℓ
All P [] = Unit
All P (c ∷ s) = P c × All P s

-- No character is the terminator.
abbrev pub NonNull : List ℕ → Type 0
NonNull s = All (λ c. c ≢ 0) s

-- `strlen` of the characters `s` with a terminator behind them is the number of `s`.
pub strlen_lem : (s rest : List ℕ) → NonNull s → strlen (s ++ (0 ∷ rest)) ≡ some (length s)
unfolding strlen
strlen_lem [] rest h = refl
strlen_lem (c ∷ s) rest h = rw (ne→== c 0 h.0, strlen_lem s rest h.1)

-- `strnlen` of a terminated string is its length, or `n` if that is less.
pub strnlen_lem :
    (s rest : List ℕ) (n : ℕ) → NonNull s → strnlen (s ++ (0 ∷ rest)) n ≡ some (min n (length s))
unfolding strnlen
strnlen_lem s rest zero h = ap some (omega arith)
strnlen_lem [] rest (suc n) h = ap some (omega arith)
strnlen_lem (c ∷ s) rest (suc n) h =
    rw (ne→== c 0 h.0, strnlen_lem s rest n h.1) (ap some (omega arith))

-- `strnlen_terminator` counts the characters before the first `terminator`, up to `n`: `s` are those
-- before it, and none of them is the terminator or 0.
strnlen_terminator_lem :
    (s rest : List ℕ) (n terminator : ℕ)
    → NonNull s
    → All (λ c. c ≢ terminator) s
    → strnlen_terminator (s ++ (terminator ∷ rest)) n terminator ≡ some (min n (length s))
unfolding strnlen_terminator
strnlen_terminator_lem s rest zero t h k = ap some (omega arith)
strnlen_terminator_lem [] rest (suc n) t h k = ground arith
strnlen_terminator_lem (c ∷ s) rest (suc n) t h k =
    rw (ne→== c 0 h.0, ne→== c t k.0, strnlen_terminator_lem s rest n t h.1 k.1)
      (ap some (omega arith))
