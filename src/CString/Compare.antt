-- ===== src/CString/Compare.antt =====
-- `strncmp` and `strnicmp` of src/string/string.c on terminated strings.
use conifer_os.Common.{
  ℕ, zero, suc, ◌<◌, ◌≡◌, ◌≢◌, ◌↔◌, refl, sym, some, List, [], ◌∷◌, ◌++◌, arith, ne→==, take, pos,
}
use mathlib.Core.Option.{some-injective}
use conifer_os.CString.{char_diff, tolower, strncmp, strnicmp}
use conifer_os.CString.Length.{All, NonNull}

abbrev pub lower : List ℕ → List ℕ
lower [] = []
lower (c ∷ s) = tolower c ∷ lower s

-- strncmp of two strings returns 0 exactly when their first n characters are the same.
pub strncmp_iff :
    (s t r q : List ℕ) (n : ℕ)
    → NonNull s
    → NonNull t
    → (strncmp (s ++ (0 ∷ r)) (t ++ (0 ∷ q)) n ≡ some (pos 0)) ↔ (take n s ≡ take n t)
unfolding strncmp
strncmp_iff s t r q zero h k = (λ _. refl, λ _. refl)
strncmp_iff [] [] r q (suc n) h k = (λ _. refl, λ _. refl)
strncmp_iff [] (b ∷ t) r q (suc n) h k = (λ e. ground (arith, k.0), λ e. ground arith)
strncmp_iff (a ∷ s) [] r q (suc n) h k = (λ e. ground (arith, h.0), λ e. ground arith)
strncmp_iff (a ∷ s) (b ∷ t) r q (suc n) h k =
    let ih = strncmp_iff s t r q n h.1 k.1 in
    (λ e. ground (arith, ih.0, h.0), λ e. ground (arith, ih.1, h.0))

-- Every character is a byte other than the terminator.
abbrev pub Chars : List ℕ → Type 0
Chars s = All (λ c. (c ≢ 0) × (c < 256)) s

tolower_bounds : (c : ℕ) → c ≢ 0 → c < 256 → (tolower c ≢ 0) × (tolower c < 256)
unfolding tolower
tolower_bounds c h k = ground arith

tolower-zero : tolower 0 ≡ 0
unfolding tolower
tolower-zero = refl

char_diff-ne : (a b : ℕ) → a < 256 → b < 256 → a ≢ b → char_diff a b ≢ pos 0
char_diff-ne a b h k ne = ground arith

-- strnicmp of two strings returns 0 exactly when their first n characters are the same up to the
-- case of letters.
pub strnicmp_iff :
    (s t r q : List ℕ) (n : ℕ)
    → Chars s
    → Chars t
    → (strnicmp (s ++ (0 ∷ r)) (t ++ (0 ∷ q)) n ≡ some (pos 0))
      ↔ (take n (lower s) ≡ take n (lower t))
unfolding strnicmp
strnicmp_iff s t r q zero h k = (λ _. refl, λ _. refl)
strnicmp_iff [] [] r q (suc n) h k = (λ _. refl, λ _. refl)
strnicmp_iff [] (b ∷ t) r q (suc n) h k =
    let (nz, lt) = tolower_bounds b k.0.0 k.0.1 in
    rw (tolower-zero, ne→== 0 b (λ e. k.0.0 (sym e)), ne→== 0 (tolower b) (λ e. nz (sym e)))
      (
        λ e.
            absurd (
              char_diff-ne 0 (tolower b) (omega arith) lt (λ e. nz (sym e)) (some-injective _ _ e)),
        λ e. cc,
      )
strnicmp_iff (a ∷ s) [] r q (suc n) h k =
    let (nz, lt) = tolower_bounds a h.0.0 h.0.1 in
    rw (tolower-zero, ne→== a 0 h.0.0, ne→== (tolower a) 0 nz)
      (λ e. absurd (char_diff-ne (tolower a) 0 lt (omega arith) nz (some-injective _ _ e)), λ e. cc)
strnicmp_iff (a ∷ s) (b ∷ t) r q (suc n) h k =
    let ih = strnicmp_iff s t r q n h.1 k.1 in
    let la = (tolower_bounds a h.0.0 h.0.1).1 in
    let lb = (tolower_bounds b k.0.0 k.0.1).1 in
    (
      λ e. ground (arith, ih.0, h.0, char_diff-ne (tolower a) (tolower b) la lb),
      λ e. ground (arith, ih.1, h.0),
    )
