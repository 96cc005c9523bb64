-- ===== src/PathParser/Root.antt =====
-- `pparser_parse` of src/fs/pparser.c on any string, and on the paths of names.
use conifer_os.Common.{
  Bool, true, ℕ, suc, ◌-◌, ◌≤◌, ◌≡◌, inl, inr, ◌&&◌, Option, none, some, List, [], ◌∷◌, ◌++◌, arith,
  ltb, ◌==◌, lt→ltb, le→ltb, Bool-cases, if◌then◌else◌, length, length-append, min, pos, ok, err,
  ebadpath,
}
use conifer_os.CString.{is_digit, ctoi}
use conifer_os.CString.Length.{NonNull, strlen_lem, strnlen_lem}
use conifer_os.PathParser.{
  slash, max_file_path_chars, drive_form, path_valid_form, drive_number, get_drive_by_path,
  parse_from, link_parts, pparser_parse, PathRoot,
}
use conifer_os.PathParser.Names.{split, names, pad_all}
use conifer_os.PathParser.Parse.{parse_parts_lem}

-- A digit, `:/`, and at least one name.
unfoldable pub root_of : List ℕ → Option PathRoot
root_of (d ∷ c ∷ e ∷ t) =
    if is_digit d && c == 58 && e == slash
    then link_parts (pos (d - 48)) (pad_all (names (split t)))
    else none
root_of _ = none

drive_form_lem :
    (d c e : ℕ) (r : List ℕ)
    → drive_form (d ∷ c ∷ e ∷ r) ≡ some (is_digit d && c == 58 && e == slash)
unfolding drive_form
drive_form_lem d c e r = ground arith

module _ (memory : ℕ → Bool) (all : (i : ℕ) → memory i ≡ true) (rest : List ℕ) where
  parse_from_lem :
      (n : ℕ) (t : List ℕ)
      → NonNull t
      → length t ≤ max_file_path_chars
      → parse_from memory (pos n) (t ++ (0 ∷ rest))
        ≡ some (link_parts (pos n) (pad_all (names (split t))))
  unfolding parse_from
  parse_from_lem n t h room = rw (
    all 0,
    parse_parts_lem memory 1 all (suc (length (t ++ (0 ∷ rest)))) t rest h room
        (omega (arith, length-append t (0 ∷ rest))),
  )

  short_path :
      (s : List ℕ)
      → NonNull s
      → length s ≤ 2
      → get_drive_by_path (s ++ (0 ∷ rest)) ≡ some (err ebadpath)
  unfolding get_drive_by_path path_valid_form
  short_path s h k = rw (strnlen_lem s rest 128 h, le→ltb 2 (min 128 (length s)) (omega arith))

  long_path :
      (d c e : ℕ) (t : List ℕ)
      → NonNull (d ∷ c ∷ e ∷ t)
      → get_drive_by_path ((d ∷ c ∷ e ∷ t) ++ (0 ∷ rest))
        ≡ some (
            if is_digit d && c == 58 && e == slash
            then ok (pos (d - 48), t ++ (0 ∷ rest))
            else err ebadpath)
  unfolding get_drive_by_path path_valid_form drive_number ctoi
  long_path d c e t h =
      rw
        (
          strnlen_lem (d ∷ c ∷ e ∷ t) rest 128 h,
          lt→ltb 2 (min 128 (suc (suc (suc (length t))))) (omega arith),
          drive_form_lem d c e (t ++ (0 ∷ rest)),
        )
        (elim (Bool-cases (is_digit d)) [ inl y ↦ rw y | inr n ↦ rw n ])

  -- On any terminated string, where all its allocations succeed, pparser_parse returns null if
  -- the string is longer than 128 characters, and otherwise the drive and names that root_of
  -- describes, null if there are none; it runs past neither the string nor a buffer.
  pub pparser_parse_lem :
      (s : List ℕ)
      → NonNull s
      → pparser_parse memory (s ++ (0 ∷ rest))
        ≡ some (if ltb max_file_path_chars (length s) then none else root_of s)
  unfolding pparser_parse root_of
  pparser_parse_lem [] h = rw (strlen_lem [] rest h, short_path [] h (omega arith))
  pparser_parse_lem (d ∷ []) h =
      rw (strlen_lem (d ∷ []) rest h, short_path (d ∷ []) h (omega arith))
  pparser_parse_lem (d ∷ c ∷ []) h =
      rw (strlen_lem (d ∷ c ∷ []) rest h, short_path (d ∷ c ∷ []) h (omega arith))
  pparser_parse_lem (d ∷ c ∷ e ∷ t) h =
      elim (Bool-cases (ltb max_file_path_chars (suc (suc (suc (length t)))))) [
        | inl long ↦ rw (strlen_lem (d ∷ c ∷ e ∷ t) rest h, long)
        | inr fits ↦
            rw (strlen_lem (d ∷ c ∷ e ∷ t) rest h, fits, long_path d c e t h)
              (elim (Bool-cases (is_digit d && c == 58 && e == slash)) [
                | inl y ↦ rw y (parse_from_lem (d - 48) t h.1.1.1 (ground arith))
                | inr n ↦ rw n
              ])
      ]
