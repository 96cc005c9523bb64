-- ===== src/CString/Copy.antt =====
-- `strcpy` and `strncpy` of src/string/string.c, on a terminated source and a separate destination.
use conifer_os.Common.{
  ℕ, zero, suc, ◌≤◌, ◌<◌, ◌≡◌, refl, ap, none, some, List, [], ◌∷◌, ◌++◌, arith, ne→==, length, min,
  take, drop,
}
use conifer_os.CString.{strcpy, strncpy}
use conifer_os.CString.Length.{NonNull}

-- strcpy copies a string and its terminator over the front of a destination with room for both,
-- and leaves the rest of it.
pub strcpy_lem :
    (s rest dest : List ℕ)
    → NonNull s
    → length s < length dest
    → strcpy dest (s ++ (0 ∷ rest)) ≡ some (s ++ (0 ∷ drop (suc (length s)) dest))
unfolding strcpy
strcpy_lem s rest [] h room = absurd (omega arith)
strcpy_lem [] rest (d ∷ dest) h room = refl
strcpy_lem (c ∷ s) rest (d ∷ dest) h room =
    rw (ne→== c 0 h.0, strcpy_lem s rest dest h.1 (omega arith))

-- In a smaller destination it writes past the end.
strcpy-overrun :
    (s rest dest : List ℕ)
    → NonNull s
    → length dest ≤ length s
    → strcpy dest (s ++ (0 ∷ rest)) ≡ none
unfolding strcpy
strcpy-overrun [] rest [] h small = refl
strcpy-overrun [] rest (d ∷ dest) h small = absurd (omega arith)
strcpy-overrun (c ∷ s) rest [] h small = refl
strcpy-overrun (c ∷ s) rest (d ∷ dest) h small =
    rw (ne→== c 0 h.0, strcpy-overrun s rest dest h.1 (omega arith))

-- strncpy copies at most n characters of a string and always puts a terminator behind them, in a
-- destination with room for these, and leaves the rest of it.
strncpy_lem :
    (s rest dest : List ℕ) (n : ℕ)
    → NonNull s
    → min n (length s) < length dest
    → strncpy dest (s ++ (0 ∷ rest)) n ≡ some (take n s ++ (0 ∷ drop (suc (min n (length s))) dest))
unfolding strncpy
strncpy_lem s rest [] n h room = absurd (omega arith)
strncpy_lem [] rest (d ∷ dest) zero h room = refl
strncpy_lem [] rest (d ∷ dest) (suc n) h room =
    let e : 0 ≡ min (suc n) 0 = omega arith in ap (λ k. some (0 ∷ drop k dest)) e
strncpy_lem (c ∷ s) rest (d ∷ dest) zero h room =
    let e : 0 ≡ min 0 (suc (length s)) = omega arith in ap (λ k. some (0 ∷ drop k dest)) e
strncpy_lem (c ∷ s) rest (d ∷ dest) (suc n) h room =
    rw (ne→== c 0 h.0, strncpy_lem s rest dest n h.1 (omega arith))
      (let e : suc (min n (length s)) ≡ min (suc n) (suc (length s)) = omega arith in
        ap (λ k. some (c ∷ (take n s ++ (0 ∷ drop k dest)))) e)

-- With the size of the destination or more for n, strncpy of a string of that length or more
-- writes past the destination.
strncpy-overrun :
    (s rest dest : List ℕ) (n : ℕ)
    → NonNull s
    → length dest ≤ n
    → length dest ≤ length s
    → strncpy dest (s ++ (0 ∷ rest)) n ≡ none
unfolding strncpy
strncpy-overrun s rest [] n h size long = refl
strncpy-overrun s rest (d ∷ dest) zero h size long = absurd (omega arith)
strncpy-overrun [] rest (d ∷ dest) (suc n) h size long = absurd (omega arith)
strncpy-overrun (c ∷ s) rest (d ∷ dest) (suc n) h size long =
    rw (ne→== c 0 h.0, strncpy-overrun s rest dest n h.1 (omega arith) (omega arith))
