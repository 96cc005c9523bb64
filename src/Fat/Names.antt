-- ===== src/Fat/Names.antt =====
-- src/fs/fat/fat16.c: the names that `fat16_get_filename` reads from directory entries.
use conifer_os.Common.{
  ℕ, zero, suc, ◌+◌, ◌-◌, ◌<◌, ◌≡◌, ◌≢◌, ◌⊎◌, inl, inr, refl, ap, ◌∙◌, some, List, [], ◌∷◌, ◌++◌,
  append_assoc, append-nil, arith, ne→==, eq→==, length, length-append, drop, replicate,
}
use conifer_os.Fat.{ext, put, put_null, convert_spaces_to_null, put_extension, get_filename}

-- Characters of a name: no null character and no space.
abbrev pub Plain : List ℕ → Type 0
Plain [] = Unit
Plain (c ∷ s) = (c ≢ 0) × ((c ≢ 32) × Plain s)

-- A name with its extension behind a dot, if it has one.
unfoldable pub dotted : List ℕ → List ℕ → List ℕ
dotted name [] = name
dotted name (c ∷ extension) = name ++ (46 ∷ c ∷ extension)

convert-Plain :
    (s rest before : List ℕ) (n stop : ℕ)
    → Plain s
    → (stop ≡ 0) ⊎ (stop ≡ 32)
    → length s < n
    → convert_spaces_to_null (before, replicate n 0) (s ++ (stop ∷ rest))
      ≡ some (before ++ s, replicate (n - length s) 0)
unfolding convert_spaces_to_null put put_null
convert-Plain [] rest before zero stop p e h = absurd (omega arith)
convert-Plain [] rest before (suc n) stop p (inl e) h =
    let m : suc n - 0 ≡ suc n = omega arith in rw (e, append-nil before, m) refl
convert-Plain [] rest before (suc n) stop p (inr e) h =
    let m : suc n - 0 ≡ suc n = omega arith in rw (e, append-nil before, m) refl
convert-Plain (c ∷ s) rest before zero stop p e h = absurd (omega arith)
convert-Plain (c ∷ s) rest before (suc n) stop (z, (b, p)) e h =
    let m : suc n - suc (length s) ≡ n - length s = omega arith in
    rw
      (
        ne→== c 0 z,
        ne→== c 32 b,
        convert-Plain s rest (before ++ (c ∷ [])) n stop p e (omega arith),
        append_assoc before (c ∷ []) s,
        m,
      )
      refl

put-replicate :
    (before : List ℕ) (n c : ℕ)
    → 0 < n
    → put (before, replicate n 0) c ≡ some (before ++ (c ∷ []), replicate (n - 1) 0)
unfolding put
put-replicate before zero c h = absurd (omega arith)
put-replicate before (suc n) c h = let m : suc n - 1 ≡ n = omega arith in rw (m) refl

convert-name :
    (name rest raw_entry : List ℕ) (stop maxlen : ℕ)
    → Plain name
    → (stop ≡ 0) ⊎ (stop ≡ 32)
    → raw_entry ≡ name ++ (stop ∷ rest)
    → length name < maxlen
    → convert_spaces_to_null ([], replicate maxlen 0) raw_entry
      ≡ some (name, replicate (maxlen - length name) 0)
convert-name name rest raw_entry stop maxlen p e f h =
    ap (convert_spaces_to_null ([], replicate maxlen 0)) f
    ∙ convert-Plain name rest [] maxlen stop p e h

put_extension-Plain :
    (before : List ℕ) (n : ℕ) (extension rest raw_entry : List ℕ) (stop : ℕ)
    → Plain extension
    → (stop ≡ 0) ⊎ (stop ≡ 32)
    → drop 8 raw_entry ≡ extension ++ (stop ∷ rest)
    → length extension + 1 < n
    → put_extension (before, replicate n 0) raw_entry
      ≡ some (before ++ (46 ∷ extension), replicate (n - 1 - length extension) 0)
unfolding put_extension ext
put_extension-Plain before n extension rest raw_entry stop p e g h =
    rw
      (
        put-replicate before n 46 (omega arith),
        put_extension,
        g,
        convert-Plain extension rest (before ++ (46 ∷ [])) (n - 1) stop p e (omega arith),
        append_assoc before (46 ∷ []) extension,
      )
      refl

-- Where the memory of an entry begins with characters that a space or a null character ends, and
-- that from its extension on with such characters too, fat16_get_filename fills its buffer, which
-- is larger, with these names, a dot between them if there is an extension, and null characters.
pub get_filename_lem :
    (name extension rest rest' raw_entry : List ℕ) (stop stop' maxlen : ℕ)
    → Plain name
    → Plain extension
    → (stop ≡ 0) ⊎ (stop ≡ 32)
    → (stop' ≡ 0) ⊎ (stop' ≡ 32)
    → raw_entry ≡ name ++ (stop ∷ rest)
    → drop 8 raw_entry ≡ extension ++ (stop' ∷ rest')
    → length (dotted name extension) < maxlen
    → get_filename raw_entry maxlen
      ≡ some (dotted name extension ++ replicate (maxlen - length (dotted name extension)) 0)
unfolding get_filename ext dotted
get_filename_lem name [] rest rest' raw stop stop' maxlen p q e (inl z) f g h =
    rw (convert-name name rest raw stop maxlen p e f h, get_filename, g, eq→== stop' 0 z) refl
get_filename_lem name [] rest rest' raw stop stop' maxlen p q e (inr z) f g h =
    rw
      (
        convert-name name rest raw stop maxlen p e f h,
        get_filename,
        g,
        ne→== stop' 0 (λ y. omega (arith, y, z)),
        eq→== stop' 32 z,
      )
      refl
get_filename_lem name (c ∷ extension) rest rest' raw stop stop' maxlen p (z, (b, q)) e e' f g h =
    let all = length-append name (46 ∷ c ∷ extension) in
    let left : maxlen - length name - 1 - length (c ∷ extension)
        ≡ maxlen - length (name ++ (46 ∷ c ∷ extension)) =
      omega (arith, all) in
    rw
      (
        convert-name name rest raw stop maxlen p e f (omega (arith, all)),
        get_filename,
        put_extension-Plain name (maxlen - length name) (c ∷ extension) rest' raw stop' (z, (b, q))
            e' g (omega (arith, all)),
        g,
        ne→== c 0 z,
        ne→== c 32 b,
        left,
      )
      refl
