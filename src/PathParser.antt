-- ===== src/PathParser.antt =====
-- src/fs/pparser.c: file paths such as `0:/bin/shell.bin`. A path is a C string, and a pointer into
-- it is what stands from there on. Each `struct path_part` is the buffer of its name, and the chain
-- of them a list. `memory i` is whether the allocation `i` of a call succeeds; the program writes through
-- each result, or frees it, without a test, so a failure faults. pparser_create_root is tested only then.
pub mod Names
pub mod Parse
pub mod Root
pub mod RoundTrip
use conifer_os.Common.{
  ℕ, zero, suc, ◌+◌, Bool, true, false, Option, none, some, List, [], ◌∷◌, ltb, leb, ◌==◌,
  if◌then◌else◌, ◌>>=◌, ℤ, pos, negsuc, Result, ok, err, ebadpath, length, drop, replicate, store,
}
use conifer_os.Memory.{memcmp}
use conifer_os.CString.{strlen, strnlen, is_digit, ctoi}

abbrev pub max_file_path_chars : ℕ
max_file_path_chars = 128

-- '/'
abbrev pub slash : ℕ
slash = 47

abbrev is_zero : ℤ → Bool
is_zero (pos n) = n == 0
is_zero (negsuc n) = false

-- The tests behind `len > 2`: a digit, and `:/`.
unfoldable pub drive_form : List ℕ → Option Bool
unfolding is_digit memcmp
drive_form [] = none
drive_form (c ∷ s) =
    if is_digit c then (memcmp s (58 ∷ slash ∷ []) 2 >>= λ r. some (is_zero r)) else some false

unfoldable pub path_valid_form : List ℕ → Option Bool
unfolding drive_form
path_valid_form filename = strnlen filename max_file_path_chars >>= λ len.
    if ltb 2 len then drive_form filename else some false

-- `ctoi(*path[0])`
unfoldable pub drive_number : List ℕ → ℤ
unfolding ctoi
drive_number [] = negsuc 0
drive_number (c ∷ s) = ctoi c

-- The drive number and the path behind `0:/`.
unfoldable pub get_drive_by_path : List ℕ → Option (Result (ℤ × List ℕ))
get_drive_by_path path = path_valid_form path >>= λ valid.
    some (if valid then ok (drive_number path, drop 3 path) else err ebadpath)

-- The copying loop: the buffer, the number of characters in it, and the rest of the path.
unfoldable pub copy_part : List ℕ → ℕ → List ℕ → Option (List ℕ × ℕ × List ℕ)
copy_part [] i buf = none
copy_part (c ∷ path) i buf =
    let more = store buf i c >>= λ buf'. copy_part path (i + 1) buf' in
    if c == slash then some (buf, i, c ∷ path) else if c == 0 then some (buf, i, c ∷ path) else more

unfoldable pub skip_slash : List ℕ → Option (List ℕ)
skip_slash [] = none
skip_slash (c ∷ path) = some (if c == slash then path else c ∷ path)

-- `none` in the first component is a null pointer: there was no part.
unfoldable pub get_path_part : Bool → List ℕ → Option (Option (List ℕ) × List ℕ)
get_path_part memory path =
    if memory
    then (copy_part path 0 (replicate max_file_path_chars 0) >>= λ (buf, i, rest).
        skip_slash rest >>= λ rest'. some (if i == 0 then none else some buf, rest'))
    else none

-- `parse_path_part` until it returns null: the parts that it links. The allocation `i` is the first of
-- these calls. `none` also if the fuel runs out.
unfoldable pub parse_parts : (ℕ → Bool) → ℕ → ℕ → List ℕ → Option (List (List ℕ))
parse_parts memory i zero path = none
parse_parts memory i (suc fuel) path = get_path_part (memory i) path >>= λ (part, rest). elim part [
  | none ↦ some []
  | some buf ↦
      let rest_parts = parse_parts memory (i + 2) fuel rest in
      if memory (i + 1) then (rest_parts >>= λ parts. some (buf ∷ parts)) else none
]

pub record PathRoot : Type 0 where
  pub drive_no : ℤ
  pub first : List (List ℕ)

-- A root with no part is not returned.
unfoldable pub link_parts : ℤ → List (List ℕ) → Option PathRoot
link_parts drive_no [] = none
link_parts drive_no (p ∷ ps) = some (record { drive_no = drive_no; first = p ∷ ps })

abbrev is_negative : ℤ → Bool
is_negative (pos n) = false
is_negative (negsuc n) = true

-- Every round of the loop takes a character of the path, so its length is enough fuel.
unfoldable pub parse_from : (ℕ → Bool) → ℤ → List ℕ → Option (Option PathRoot)
parse_from memory drive_no path =
    if is_negative drive_no
    then some none
    else if memory 0
    then (parse_parts memory 1 (suc (length path)) path >>= λ parts.
        some (link_parts drive_no parts))
    else none

-- `none` inside is a null pointer.
unfoldable pub pparser_parse : (ℕ → Bool) → List ℕ → Option (Option PathRoot)
pparser_parse memory path = strlen path >>= λ len.
    if ltb max_file_path_chars len
    then some none
    else (get_drive_by_path path >>= λ drive. elim drive [
      | err e ↦ some none
      | ok d ↦ parse_from memory d.0 d.1
    ])
