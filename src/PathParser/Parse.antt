-- ===== src/PathParser/Parse.antt =====
-- `pparser_parse` of src/fs/pparser.c against the reference in `PathParser.Names`.
use conifer_os.Common.{
  Bool, true, ℕ, zero, suc, ◌+◌, ◌-◌, ◌≤◌, ◌<◌, ◌≡◌, ◌≢◌, refl, ap, ◌∙◌, inl, inr, Option, none,
  some, List, [], ◌∷◌, ◌++◌, append_assoc, append-nil, arith, ◌==◌, ne→==, Bool-cases,
  if◌then◌else◌, length, replicate, store, store-append, length-snoc,
}
use conifer_os.CString.Length.{NonNull}
use conifer_os.PathParser.{
  slash, max_file_path_chars, copy_part, skip_slash, get_path_part, parse_parts,
}
use conifer_os.PathParser.Names.{split, names, pad, pad_all}

-- The characters before the first slash, and those behind it.
unfoldable pub word : List ℕ → List ℕ
word [] = []
word (c ∷ t) = if c == slash then [] else c ∷ word t

unfoldable pub next : List ℕ → List ℕ
next [] = []
next (c ∷ t) = if c == slash then t else next t

-- The same, with the slash.
tail_of : List ℕ → List ℕ
tail_of [] = []
tail_of (c ∷ t) = if c == slash then c ∷ t else tail_of t

stopped :
    (pre rest : List ℕ) (i k : ℕ)
    → ◌≡◌ {A = Option (List ℕ × ℕ × List ℕ)}
        (some (pre ++ replicate k 0, i, rest))
        (some ((pre ++ []) ++ replicate (k - 0) 0, i + 0, rest))
stopped pre rest i k =
    let a : k - 0 ≡ k = omega arith in let b : i + 0 ≡ i = omega arith in rw (append-nil, a, b)

moved_on :
    (pre w rest : List ℕ) (c i k : ℕ)
    → ◌≡◌ {A = Option (List ℕ × ℕ × List ℕ)}
        (some (((pre ++ (c ∷ [])) ++ w) ++ replicate (k - length w) 0, i + 1 + length w, rest))
        (some ((pre ++ (c ∷ w)) ++ replicate (suc k - suc (length w)) 0, i + suc (length w), rest))
moved_on pre w rest c i k =
    let a : suc k - suc (length w) ≡ k - length w = omega arith in
    let b : i + 1 + length w ≡ i + suc (length w) = omega arith in
    rw (append_assoc pre (c ∷ []) w, a, b)

copy_part_lem :
    (t rest pre : List ℕ) (i k : ℕ)
    → NonNull t
    → i ≡ length pre
    → length (word t) ≤ k
    → copy_part (t ++ (0 ∷ rest)) i (pre ++ replicate k 0)
      ≡ some (
        (pre ++ word t) ++ replicate (k - length (word t)) 0,
        i + length (word t),
        tail_of t ++ (0 ∷ rest),
      )
unfolding copy_part word tail_of
copy_part_lem [] rest pre i k h e room = stopped pre (0 ∷ rest) i k
copy_part_lem (c ∷ t) rest pre i zero h e room = elim (Bool-cases (c == slash)) [
  | inl s ↦ rw s (stopped pre (c ∷ (t ++ (0 ∷ rest))) i 0)
  | inr n ↦ absurd (omega (arith, rw n at room))
]
copy_part_lem (c ∷ t) rest pre i (suc k) h e room = elim (Bool-cases (c == slash)) [
  | inl s ↦ rw s (stopped pre (c ∷ (t ++ (0 ∷ rest))) i (suc k))
  | inr n ↦
      let stored : store (pre ++ (0 ∷ replicate k 0)) i c
          ≡ some ((pre ++ (c ∷ [])) ++ replicate k 0) =
        ap (λ j. store (pre ++ (0 ∷ replicate k 0)) j c) e ∙ store-append pre 0 (replicate k 0) c in
      rw (n, ne→== c 0 h.0, stored)
        (copy_part_lem t rest (pre ++ (c ∷ [])) (i + 1) k h.1 (omega (arith, e, length-snoc pre c))
            (omega (arith, rw n at room))
          ∙ moved_on pre (word t) (tail_of t ++ (0 ∷ rest)) c i k)
]

skip_slash_lem :
    (t rest : List ℕ) → skip_slash (tail_of t ++ (0 ∷ rest)) ≡ some (next t ++ (0 ∷ rest))
unfolding skip_slash tail_of next
skip_slash_lem [] rest = refl
skip_slash_lem (c ∷ t) rest = elim (Bool-cases (c == slash)) [
  | inl s ↦ rw (s, skip_slash) (rw s)
  | inr n ↦ rw n (skip_slash_lem t rest)
]

split_word :
    (t : List ℕ)
    → (ps : List (List ℕ)) × (split t ≡ word t ∷ ps) × (names ps ≡ names (split (next t)))
unfolding split word next names
split_word [] = ([], refl, refl)
split_word (c ∷ t) = elim (Bool-cases (c == slash)) [
  | inl s ↦ (split t, rw s, rw s)
  | inr n ↦ let (ps, e, f) = split_word t in (ps, rw (n, e), rw n f)
]

-- One part: the first word in its buffer, if there is one.
abbrev part_of : List ℕ → Option (List ℕ)
part_of [] = none
part_of (c ∷ w) = some (pad (c ∷ w))

part_of_lem :
    (w : List ℕ)
    → (if 0 + length w == 0 then none else some (w ++ replicate (max_file_path_chars - length w) 0))
      ≡ part_of w
part_of_lem [] = refl
part_of_lem (c ∷ w) = rw (ne→== (0 + suc (length w)) 0 (omega arith))

word-next : (t : List ℕ) → length (word t) + length (next t) ≤ length t
unfolding word next
word-next [] = omega arith
word-next (c ∷ t) = elim (Bool-cases (c == slash)) [
  | inl s ↦ rw s (omega arith)
  | inr n ↦ rw n (omega (arith, word-next t))
]

next-NonNull : (t : List ℕ) → NonNull t → NonNull (next t)
unfolding next
next-NonNull [] h = tt
next-NonNull (c ∷ t) h = elim (Bool-cases (c == slash)) [
  | inl s ↦ rw s h.1
  | inr n ↦ rw n (next-NonNull t h.1)
]

get_path_part_lem :
    (t rest : List ℕ)
    → NonNull t
    → length t ≤ max_file_path_chars
    → get_path_part true (t ++ (0 ∷ rest)) ≡ some (part_of (word t), next t ++ (0 ∷ rest))
unfolding get_path_part
get_path_part_lem t rest h room =
    let copied =
      copy_part_lem t rest [] 0 max_file_path_chars h refl (omega (arith, word-next t)) in
    rw (copied, skip_slash_lem t rest)
      (ap (λ p. some (p, next t ++ (0 ∷ rest))) (part_of_lem (word t)))

unfoldable pub names_of : List ℕ → List (List ℕ) → List (List ℕ)
names_of [] ps = []
names_of (c ∷ w) ps = (c ∷ w) ∷ ps

pub names_split : (t : List ℕ) → names (split t) ≡ names_of (word t) (names (split (next t)))
unfolding names_of names
names_split t = let (ps, e, f) = split_word t in rw e (by_word (word t) ps f)
  where
    by_word :
        (w : List ℕ) (ps : List (List ℕ)) {qs : List (List ℕ)}
        → names ps ≡ qs
        → names (w ∷ ps) ≡ names_of w qs
    by_word [] ps f = refl
    by_word (c ∷ w) ps f = ap (λ q. (c ∷ w) ∷ q) f

-- What one round of `parse_parts` does, given the rest.
parse_parts_step :
    (memory : ℕ → Bool) (i : ℕ)
    → ((j : ℕ) → memory j ≡ true)
    → (w : List ℕ) (fuel : ℕ) (t rest : List ℕ) (qs : List (List ℕ)) → word t ≡ w
    → NonNull t
    → length t ≤ max_file_path_chars
    → (length w ≢ 0 → parse_parts memory (i + 2) fuel (next t ++ (0 ∷ rest)) ≡ some (pad_all qs))
    → parse_parts memory i (suc fuel) (t ++ (0 ∷ rest)) ≡ some (pad_all (names_of w qs))
unfolding parse_parts names_of pad_all
parse_parts_step memory i all [] fuel t rest qs e h room ih =
    rw (all i, get_path_part_lem t rest h room, e)
parse_parts_step memory i all (c ∷ w) fuel t rest qs e h room ih =
    rw (all i, get_path_part_lem t rest h room, e, all (i + 1), ih (omega arith))

-- With more fuel than characters and with memory, the parts are the names in front of the first empty one, each in
-- its buffer.
pub parse_parts_lem :
    (memory : ℕ → Bool) (i : ℕ)
    → ((j : ℕ) → memory j ≡ true)
    → (fuel : ℕ) (t rest : List ℕ) → NonNull t
    → length t ≤ max_file_path_chars
    → length t < fuel
    → parse_parts memory i fuel (t ++ (0 ∷ rest)) ≡ some (pad_all (names (split t)))
parse_parts_lem memory i all zero t rest h room enough = absurd (omega arith)
parse_parts_lem memory i all (suc fuel) t rest h room enough = rw (names_split t) (
    parse_parts_step memory i all (word t) fuel t rest (names (split (next t))) refl h room (λ ne.
      parse_parts_lem memory (i + 2) all fuel (next t) rest (next-NonNull t h)
        (omega (arith, word-next t)) (omega (arith, word-next t))))
