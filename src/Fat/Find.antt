-- ===== src/Fat/Find.antt =====
-- src/fs/fat/fat16.c: which entry `fat16_fopen` opens.
use conifer_os.Common.{
  ℕ, zero, suc, ◌+◌, ◌*◌, ◌≤◌, ◌≡◌, refl, ap, sym, ◌∙◌, Option, some, none, List, [], ◌∷◌, arith,
  ok, err, eq→==, take, drop, length, false, true, ◌>>=◌, bit_and, replicate, append-nil,
}
use mathlib.Core.Path.{subst}
use conifer_os.Memory.{memcpy_lem}
use conifer_os.File.{read}
use conifer_os.Fat.{
  Fat, EasyDirectoryEntry, FatDirectory, file, directory_entry_size, fat_file_subdirectory,
  attribute,
}
use conifer_os.Fat.Directory.{
  matches, clone_raw_dir_entry, get_easy_entry, find_loop, find_entry_in_directory,
  get_directory_entry, walk,
}
use conifer_os.Fat.Operations.{fat16_fopen}

-- The first `n` entries of the memory do not have the name.
abbrev pub NoneMatches : ℕ → List ℕ → List ℕ → Type 0
NoneMatches zero raw_entry name = Unit
NoneMatches (suc n) raw_entry name =
    (matches raw_entry name ≡ some false) × NoneMatches n (drop directory_entry_size raw_entry) name

-- The driver with `l` live allocations, when every allocation succeeds.
unfoldable pub with_live : Fat → ℕ → Fat
with_live s l = record s { heap = record { outcomes = []; live = l } }

drop-empty : (n : ℕ) → drop {A = ℕ} n [] ≡ []
drop-empty zero = refl
drop-empty (suc n) = refl

-- What a pointer that moves on by one entry sees.
drop-more : (n a : ℕ) (xs : List ℕ) → drop n (drop a xs) ≡ drop (a + n) xs
drop-more n zero xs = ap (λ i. drop i xs) (omega arith)
drop-more n (suc a) [] = drop-empty n ∙ sym (drop-empty (suc a + n))
drop-more n (suc a) (x ∷ xs) =
    let e : suc (a + n) ≡ suc a + n = omega arith in drop-more n a xs ∙ ap (λ i. drop i (x ∷ xs)) e

drop-entries :
    (k : ℕ) (raw_entry : List ℕ)
    → drop (k * directory_entry_size) (drop directory_entry_size raw_entry)
      ≡ drop (suc k * directory_entry_size) raw_entry
drop-entries k raw_entry =
    drop-more (k * directory_entry_size) directory_entry_size raw_entry
    ∙ ap (λ i. drop i raw_entry) (omega arith)

clone_lem :
    (l : ℕ) (raw_entry : List ℕ)
    → directory_entry_size ≤ length raw_entry
    → clone_raw_dir_entry (record { outcomes = []; live = l }) raw_entry directory_entry_size
      ≡ some (some (take directory_entry_size raw_entry), record { outcomes = []; live = l + 1 })
unfolding clone_raw_dir_entry
clone_lem l raw h =
    rw
      (
        memcpy_lem (replicate directory_entry_size 0) raw directory_entry_size (omega arith) h,
        append-nil (take directory_entry_size raw),
      )
      refl

-- The entry `k` of the root directory.
abbrev pub opened_entry : Fat → ℕ → List ℕ
opened_entry s k = drop (k * directory_entry_size) s.private.root_directory.entry

module _ (sector : ℕ → List ℕ) (max_entries : ℕ) where
  find_loop-none :
      (n : ℕ) (s : Fat) (raw_entry name : List ℕ) (entry : Option EasyDirectoryEntry)
      → NoneMatches n raw_entry name
      → find_loop sector max_entries n s raw_entry name entry ≡ some (entry, s)
  unfolding find_loop
  find_loop-none zero s raw name entry h = refl
  find_loop-none (suc n) s raw name entry (h, hs) =
      rw (h, find_loop-none n s (drop directory_entry_size raw) name entry hs) refl

  -- An entry that is found stays found when no other matches.
  keep_found :
      (m : ℕ) (raw_entry name : List ℕ) (found : Option (Option EasyDirectoryEntry × Fat))
      → NoneMatches m raw_entry name
      → found >>= (λ (e, s). find_loop sector max_entries m s raw_entry name e) ≡ found
  keep_found m raw name none h = refl
  keep_found m raw name (some (e, s)) h = find_loop-none m s raw name e h

  find_loop-single :
      (k m : ℕ) (s : Fat) (raw_entry name : List ℕ) (entry : Option EasyDirectoryEntry)
      → NoneMatches k raw_entry name
      → matches (drop (k * directory_entry_size) raw_entry) name ≡ some true
      → NoneMatches m (drop (suc k * directory_entry_size) raw_entry) name
      → find_loop sector max_entries (k + suc m) s raw_entry name entry
        ≡ get_easy_entry sector max_entries s (drop (k * directory_entry_size) raw_entry)
  unfolding find_loop
  find_loop-single zero m s raw name entry a b c =
      let n : 0 + suc m ≡ suc m = omega arith in
      rw (n, find_loop, b)
        (keep_found m (drop directory_entry_size raw) name (get_easy_entry sector max_entries s raw)
          c)
  find_loop-single (suc k) m s raw name entry (a, rest) b c =
      let n : suc k + suc m ≡ suc (k + suc m) = omega arith in
      let here = drop-entries k raw in
      rw (n, find_loop, a)
        (find_loop-single k m s (drop directory_entry_size raw) name entry rest
            (ap (λ t. matches t name) here ∙ b)
            (subst (λ t. NoneMatches m t name) (sym (drop-entries (suc k) raw)) c)
          ∙ ap (get_easy_entry sector max_entries s) here)

  get_easy_entry-file :
      (s : Fat) (l flags : ℕ) (raw_entry : List ℕ)
      → attribute raw_entry ≡ some flags
      → bit_and flags fat_file_subdirectory ≡ 0
      → directory_entry_size ≤ length raw_entry
      → get_easy_entry sector max_entries (with_live s l) raw_entry
        ≡ some (some (file (some (take directory_entry_size raw_entry))), with_live s (l + 1 + 1))
  unfolding get_easy_entry with_live
  get_easy_entry-file s l flags raw a z h =
      rw
        (
          a,
          get_easy_entry,
          eq→== (bit_and flags fat_file_subdirectory) 0 z,
          clone_lem (l + 1) raw h,
        )
        refl

  find_entry_in_directory-file :
      (s : Fat) (l k m flags : ℕ) (d : FatDirectory) (name : List ℕ)
      → d.total ≡ ok (k + suc m)
      → NoneMatches k d.entry name
      → matches (drop (k * directory_entry_size) d.entry) name ≡ some true
      → NoneMatches m (drop (suc k * directory_entry_size) d.entry) name
      → attribute (drop (k * directory_entry_size) d.entry) ≡ some flags
      → bit_and flags fat_file_subdirectory ≡ 0
      → directory_entry_size ≤ length (drop (k * directory_entry_size) d.entry)
      → find_entry_in_directory sector max_entries (with_live s l) d name
        ≡ some (
          some (file (some (take directory_entry_size (drop (k * directory_entry_size) d.entry)))),
          with_live s (l + 1 + 1),
        )
  unfolding find_entry_in_directory
  find_entry_in_directory-file s l k m flags d name t a b c f z h =
      ap
        (λ o. elim o [
          | err e ↦ some (none, with_live s l)
          | ok total ↦ find_loop sector max_entries total (with_live s l) d.entry name none
        ])
        t
      ∙ find_loop-single k m (with_live s l) d.entry name none a b c
      ∙ get_easy_entry-file s l flags (drop (k * directory_entry_size) d.entry) f z h

  -- Where every allocation succeeds and exactly one entry of the root directory has the name and
  -- is not a directory, fat16_fopen of that name for reading returns a descriptor at position 0
  -- with a copy of the entry, and allocates three times.
  pub fat16_fopen-single :
      (s : Fat) (l k m flags : ℕ) (name : List ℕ)
      → s.private.root_directory.total ≡ ok (k + suc m)
      → NoneMatches k s.private.root_directory.entry name
      → matches (opened_entry s k) name ≡ some true
      → NoneMatches m (drop (suc k * directory_entry_size) s.private.root_directory.entry) name
      → attribute (opened_entry s k) ≡ some flags
      → bit_and flags fat_file_subdirectory ≡ 0
      → directory_entry_size ≤ length (opened_entry s k)
      → fat16_fopen sector max_entries (with_live s l) (name ∷ []) read
        ≡ some (
          ok (record {
            easy_directory_entry = file (some (take directory_entry_size (opened_entry s k)));
            pos = 0;
          }),
          with_live s (l + 3),
        )
  unfolding fat16_fopen get_directory_entry with_live walk
  fat16_fopen-single s l k m flags name t a b c f z h =
      let n : l + 1 + 1 + 1 ≡ l + 3 = omega arith in
      rw
        (
          find_entry_in_directory-file s (l + 1) k m flags s.private.root_directory name t a b c f z
              h,
          n,
        )
        refl
