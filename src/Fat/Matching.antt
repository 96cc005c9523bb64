-- ===== src/Fat/Matching.antt =====
-- src/fs/fat/fat16.c: when a name of a path is the name of a directory entry.
use mathlib.Core.Option.{some-injective}
use conifer_os.Common.{
  ℕ, suc, zero, ◌-◌, ◌<◌, ◌≡◌, ◌⊎◌, ◌↔◌, ap, Option, some, none, List, ◌∷◌, ◌++◌, arith, true, drop,
  take, replicate, length, ℤ, pos, negsuc, ◌>>=◌, ==_iff, eq→==,
}
use conifer_os.CString.Compare.{Chars, lower, strnicmp_iff}
use conifer_os.Fat.Directory.{is_zero, matches}
use conifer_os.PathParser.{max_file_path_chars}
use conifer_os.Fat.Names.{Plain, dotted, get_filename_lem}

is_zero_iff : (o : Option ℤ) → (o >>= (λ r. some (is_zero r)) ≡ some true) ↔ (o ≡ some (pos 0))
unfolding is_zero
is_zero_iff none = (λ e. cc, λ e. cc)
is_zero_iff (some (pos n)) = (
  λ e. ap (λ i. some (pos i)) ((==_iff n 0).0 (some-injective _ _ e)),
  λ e. let z : n ≡ 0 = cc in ap some (eq→== n 0 z),
)
is_zero_iff (some (negsuc n)) = (λ e. cc, λ e. cc)

replicate-pred : (n : ℕ) → 0 < n → replicate {A = ℕ} n 0 ≡ 0 ∷ replicate (n - 1) 0
replicate-pred zero h = absurd (omega arith)
replicate-pred (suc n) h = ap (λ m. 0 ∷ replicate {A = ℕ} m 0) (omega arith)

-- Where the memory of an entry holds a name and an extension of bytes, each ended by a space or a
-- null character and together shorter than 128 characters, the test of
-- fat16_find_entry_in_directory succeeds exactly when the first 128 characters of the name with
-- the dot and of the name in the path are the same up to the case of letters.
pub matches_iff :
    (name extension rest rest' raw_entry t q : List ℕ) (stop stop' : ℕ)
    → Plain name
    → Plain extension
    → (stop ≡ 0) ⊎ (stop ≡ 32)
    → (stop' ≡ 0) ⊎ (stop' ≡ 32)
    → raw_entry ≡ name ++ (stop ∷ rest)
    → drop 8 raw_entry ≡ extension ++ (stop' ∷ rest')
    → length (dotted name extension) < max_file_path_chars
    → Chars (dotted name extension)
    → Chars t
    → (matches raw_entry (t ++ (0 ∷ q)) ≡ some true) ↔ (
        take max_file_path_chars (lower (dotted name extension))
        ≡ take max_file_path_chars (lower t))
unfolding matches
matches_iff name extension rest rest' raw t q stop stop' p x e e' f g h u v =
    let file = dotted name extension in
    let left = max_file_path_chars - length file in
    rw
      (
        get_filename_lem name extension rest rest' raw stop stop' max_file_path_chars p x e e' f g
            h,
        matches,
        replicate-pred left (omega arith),
      )
      (
        λ m.
            (strnicmp_iff file t (replicate (left - 1) 0) q max_file_path_chars u v).0
              ((is_zero_iff _).0 m),
        λ m.
            (is_zero_iff _).1
              ((strnicmp_iff file t (replicate (left - 1) 0) q max_file_path_chars u v).1 m),
      )
