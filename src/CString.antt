-- ===== src/CString.antt =====
-- src/string/string.c: C strings as arrays of characters. A pointer is the array from where it
-- points on; an access behind its end faults (`none`). Characters are bytes.
pub mod Length
pub mod Copy
pub mod Compare
use conifer_os.Common.{
  ℕ, zero, suc, ◌+◌, ◌-◌, ◌%◌, Bool, ◌&&◌, not, Option, none, some, List, [], ◌∷◌, ltb, leb, ◌==◌,
  if◌then◌else◌, ◌>>=◌, ℤ, pos, negsuc, sub_ℕ,
}

-- A negative `char`, 0x80 or more, is below 65.
unfoldable pub tolower : ℕ → ℕ
tolower c = if leb 65 c && leb c 90 then c + 32 else c

unfoldable pub strlen : List ℕ → Option ℕ
strlen [] = none
strlen (c ∷ s) = let rest = strlen s >>= λ n. some (suc n) in if c == 0 then some 0 else rest

unfoldable pub strnlen : List ℕ → ℕ → Option ℕ
strnlen s zero = some 0
strnlen [] (suc n) = none
strnlen (c ∷ s) (suc n) =
    let rest = strnlen s n >>= λ k. some (suc k) in if c == 0 then some 0 else rest

unfoldable pub strnlen_terminator : List ℕ → ℕ → ℕ → Option ℕ
strnlen_terminator s zero terminator = some 0
strnlen_terminator [] (suc n) terminator = none
strnlen_terminator (c ∷ s) (suc n) terminator =
    let rest = strnlen_terminator s n terminator >>= λ k. some (suc k) in
    if c == 0 then some 0 else if c == terminator then some 0 else rest

-- A negative `char`, 0x80 or more, is no digit.
unfoldable pub is_digit : ℕ → Bool
is_digit c = ltb 47 c && ltb c 58

-- -1 for what is no digit.
unfoldable pub ctoi : ℕ → ℤ
ctoi c = if is_digit c then pos (c - 48) else negsuc 0

unfoldable pub strcpy : List ℕ → List ℕ → Option (List ℕ)
strcpy dest [] = none
strcpy [] (c ∷ src) = none
strcpy (d ∷ dest) (c ∷ src) =
    let rest = strcpy dest src >>= λ dest'. some (c ∷ dest') in
    if c == 0 then some (0 ∷ dest) else rest

-- The terminator goes behind the `n` characters: `n + 1` may be written.
unfoldable pub strncpy : List ℕ → List ℕ → ℕ → Option (List ℕ)
strncpy [] src n = none
strncpy (d ∷ dest) src zero = some (0 ∷ dest)
strncpy (d ∷ dest) [] (suc n) = none
strncpy (d ∷ dest) (c ∷ src) (suc n) =
    let rest = strncpy dest src n >>= λ dest'. some (c ∷ dest') in
    if c == 0 then some (0 ∷ dest) else rest

unfoldable pub strncmp : List ℕ → List ℕ → ℕ → Option ℤ
strncmp s1 s2 zero = some (pos 0)
strncmp [] s2 (suc n) = none
strncmp (u1 ∷ s1) [] (suc n) = none
strncmp (u1 ∷ s1) (u2 ∷ s2) (suc n) =
    let rest = strncmp s1 s2 n in
    if not (u1 == u2) then some (sub_ℕ u1 u2) else if u1 == 0 then some (pos 0) else rest

-- a - b for two `char` values.
abbrev pub char_diff : ℕ → ℕ → ℤ
char_diff a b = sub_ℕ ((a + 128) % 256) ((b + 128) % 256)

-- `tolower` takes and returns `char`, so its results are compared as signed numbers.
unfoldable pub strnicmp : List ℕ → List ℕ → ℕ → Option ℤ
strnicmp s1 s2 zero = some (pos 0)
strnicmp [] s2 (suc n) = none
strnicmp (u1 ∷ s1) [] (suc n) = none
strnicmp (u1 ∷ s1) (u2 ∷ s2) (suc n) =
    let rest = strnicmp s1 s2 n in
    if not (u1 == u2) && not (tolower u1 == tolower u2)
    then some (char_diff (tolower u1) (tolower u2))
    else if u1 == 0
    then some (pos 0)
    else rest
