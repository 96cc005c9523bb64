-- ===== src/PathParser/RoundTrip.antt =====
-- Printing a path and parsing it again: `pparser_parse` of src/fs/pparser.c on paths of names.
use conifer_os.Common.{
  Bool, ℕ, suc, ◌+◌, ◌-◌, ◌≤◌, ◌<◌, ◌≡◌, ◌≢◌, refl, ◌∙◌, true, some, List, [], ◌∷◌, ◌++◌, arith,
  ne→==, le→ltb, length, pos,
}
use conifer_os.CString.{is_digit}
use conifer_os.CString.Length.{All, NonNull}
use conifer_os.PathParser.{slash, max_file_path_chars, link_parts, pparser_parse}
use conifer_os.PathParser.Names.{split, names, pad_all}
use conifer_os.PathParser.Parse.{word, next, names_of, names_split}
use conifer_os.PathParser.Root.{root_of, pparser_parse_lem}

-- A file or directory name: not empty, and without a slash or a terminator.
pub record IsName (p : List ℕ) : Type 0 where
  pub nonempty : p ≢ []
  pub no_null : NonNull p
  pub no_slash : All (λ c. c ≢ slash) p

-- Names with slashes between them.
unfoldable pub join : List (List ℕ) → List ℕ
join [] = []
join (p ∷ []) = p
join (p ∷ q ∷ ps) = p ++ (slash ∷ join (q ∷ ps))

word_name :
    (p u : List ℕ)
    → All (λ c. c ≢ slash) p
    → (word (p ++ (slash ∷ u)) ≡ p) × (next (p ++ (slash ∷ u)) ≡ u)
unfolding word next
word_name [] u h = (refl, refl)
word_name (c ∷ p) u h =
    let (e, f) = word_name p u h.1 in (rw (ne→== c slash h.0, e), rw (ne→== c slash h.0, f))

word_last : (p : List ℕ) → All (λ c. c ≢ slash) p → (word p ≡ p) × (next p ≡ [])
unfolding word next
word_last [] h = (refl, refl)
word_last (c ∷ p) h =
    let (e, f) = word_last p h.1 in (rw (ne→== c slash h.0, e), rw (ne→== c slash h.0, f))

names_of_name : (p : List ℕ) (ps : List (List ℕ)) → p ≢ [] → names_of p ps ≡ p ∷ ps
unfolding names_of
names_of_name [] ps h = absurd (h refl)
names_of_name (c ∷ p) ps h = refl

names-join : (ps : List (List ℕ)) → All IsName ps → names (split (join ps)) ≡ ps
unfolding join
names-join [] h = unfold split names in refl
names-join (p ∷ []) h =
    let (e, f) = word_last p h.0.no_slash in
    rw (names_split p, e, f)
      (names_of_name p (names (split [])) h.0.nonempty ∙ unfold split names in refl)
names-join (p ∷ q ∷ ps) h =
    let (e, f) = word_name p (join (q ∷ ps)) h.0.no_slash in
    rw (
      names_split (p ++ (slash ∷ join (q ∷ ps))),
      e,
      f,
      names_of_name p _ h.0.nonempty,
      names-join (q ∷ ps) h.1,
    )

All-append : (P : ℕ → Type 0) (p q : List ℕ) → All P p → All P q → All P (p ++ q)
All-append P [] q h k = k
All-append P (c ∷ p) q h k = (h.0, All-append P p q h.1 k)

NonNull-join : (ps : List (List ℕ)) → All IsName ps → NonNull (join ps)
unfolding join
NonNull-join [] h = tt
NonNull-join (p ∷ []) h = h.0.no_null
NonNull-join (p ∷ q ∷ ps) h =
    All-append _ p (slash ∷ join (q ∷ ps)) h.0.no_null (omega arith, NonNull-join (q ∷ ps) h.1)

digit_lem : (drive : ℕ) → drive < 10 → is_digit (48 + drive) ≡ true
unfolding is_digit
digit_lem drive h = ground arith

-- The text of a path: a drive digit, `:/`, and the names with slashes between them.
unfoldable pub print_path : ℕ → List (List ℕ) → List ℕ
print_path drive ps = (48 + drive) ∷ 58 ∷ slash ∷ join ps

-- Where all its allocations succeed, parsing the text of a path, a drive digit and names with
-- slashes between them, of at most 128 characters, gives the drive and the names back.
pub pparser_parse-print_path :
    (memory : ℕ → Bool) (drive : ℕ) (p : List ℕ) (ps : List (List ℕ)) (rest : List ℕ)
    → ((i : ℕ) → memory i ≡ true)
    → drive < 10
    → All IsName (p ∷ ps)
    → length (print_path drive (p ∷ ps)) ≤ max_file_path_chars
    → pparser_parse memory (print_path drive (p ∷ ps) ++ (0 ∷ rest))
      ≡ some (some (record { drive_no = pos drive; first = pad_all (p ∷ ps) }))
unfolding print_path root_of link_parts pad_all
pparser_parse-print_path memory drive p ps rest all digit h room =
    pparser_parse_lem memory all rest (print_path drive (p ∷ ps))
      (omega arith, (omega arith, (omega arith, NonNull-join (p ∷ ps) h)))
    ∙ rw (
      le→ltb max_file_path_chars (suc (suc (suc (length (join (p ∷ ps)))))) room,
      digit_lem drive digit,
      names-join (p ∷ ps) h,
      number,
    )
  where
    number : 48 + drive - 48 ≡ drive
    number = omega arith
