-- ===== src/Fat/Balance.antt =====
-- src/fs/fat/fat16.c: the heap over `fat16_fopen` and `fat16_fclose`.
use conifer_os.Common.{
  ℕ, zero, suc, ◌+◌, ◌≤◌, refl, Option, some, none, List, [], ◌∷◌, arith, Result, ok, err, eio,
  drop,
}
use conifer_os.File.{FileMode}
use conifer_os.Fat.Outcomes.{
  After, fails, returns, bind-After, from-After, if-After, branch-After, result-After,
}
use conifer_os.Fat.{
  Fat, FatDirectory, FatFileDescriptor, EasyDirectoryEntry, directory, file, allocation, release,
  directory_entry_size,
}
use conifer_os.Fat.Directory.{
  matches, get_easy_entry, find_loop, find_entry_in_directory, walk, get_directory_entry,
  easy_dir_entry_free, free_directory,
}
use conifer_os.Fat.Operations.{is_read, fat16_fopen, fat16_fclose, free_file_descriptor}
use conifer_os.Fat.Ownership.{
  blocks, Holds, get_easy_entry-Holds, allocation-true, allocation-false,
}

-- At least `l` live allocations beside those of the entry.
abbrev Covers : ℕ → Option EasyDirectoryEntry → Fat → Type 0
Covers l none s = l ≤ s.heap.live
Covers l (some e) s = l + blocks e ≤ s.heap.live

Holds-Covers :
    (l k : ℕ) (e : Option EasyDirectoryEntry) (s : Fat) → l ≤ k → Holds k e s → Covers l e s
Holds-Covers l k none s h g = omega (arith, g)
Holds-Covers l k (some e) s h g = omega (arith, g)

below : (l : ℕ) (e : Option EasyDirectoryEntry) (s : Fat) → Covers l e s → l ≤ s.heap.live
below l none s h = h
below l (some e) s h = omega arith

module _ (sector : ℕ → List ℕ) (max_entries : ℕ) where
  find_loop-Covers :
      (n : ℕ) (s : Fat) (raw_entry name : List ℕ) (e : Option EasyDirectoryEntry) (l : ℕ)
      → Covers l e s
      → After (Covers l) (find_loop sector max_entries n s raw_entry name e)
  unfolding find_loop
  find_loop-Covers zero s raw name e l h = returns h
  find_loop-Covers (suc n) s raw name e l h = from-After (matches raw name) _ (λ same.
      if-After same _ _
        (bind-After (get_easy_entry sector max_entries s raw) _
          (get_easy_entry-Holds sector max_entries s raw s.heap.live refl)
          (λ e' s' g.
            find_loop-Covers n s' (drop directory_entry_size raw) name e' l
              (Holds-Covers l s.heap.live e' s' (below l e s h) g)))
        (find_loop-Covers n s (drop directory_entry_size raw) name e l h))

  find_entry_in_directory-Covers :
      (s : Fat) (d : FatDirectory) (name : List ℕ) (l : ℕ)
      → l ≤ s.heap.live
      → After (Covers l) (find_entry_in_directory sector max_entries s d name)
  unfolding find_entry_in_directory
  find_entry_in_directory-Covers s d name l h =
      result-After d.total _ _ (λ e. returns h)
        (λ total. find_loop-Covers total s d.entry name none l h)

  walk-Covers :
      (s : Fat) (e : Option EasyDirectoryEntry) (parts : List (List ℕ)) (l : ℕ)
      → Covers l e s
      → After (Covers l) (walk sector max_entries s e parts)
  unfolding walk easy_dir_entry_free release free_directory
  walk-Covers s e [] l h = returns h
  walk-Covers s none (part ∷ parts) l h = fails
  walk-Covers s (some (file f)) (part ∷ parts) l h = returns (below l (some (file f)) s h)
  walk-Covers s (some (directory none)) (part ∷ parts) l h = fails
  walk-Covers s (some (directory (some d))) (part ∷ parts) l h =
      bind-After (find_entry_in_directory sector max_entries s d part) _
        (find_entry_in_directory-Covers s d part (l + 3) h)
        (λ e s' g.
          walk-Covers (record s' { heap = release (release (release s'.heap)) }) e parts l
            (freed e s' g))
    where
      freed :
          (e : Option EasyDirectoryEntry) (s' : Fat)
          → Covers (l + 3) e s'
          → Covers l e (record s' { heap = release (release (release s'.heap)) })
      freed none s' g = omega arith
      freed (some e) s' g = omega arith

  get_directory_entry-Covers :
      (s : Fat) (path : List (List ℕ)) (l : ℕ)
      → l ≤ s.heap.live
      → After (Covers l) (get_directory_entry sector max_entries s path)
  unfolding get_directory_entry
  get_directory_entry-Covers s [] l h = fails
  get_directory_entry-Covers s (part ∷ parts) l h =
      bind-After (find_entry_in_directory sector max_entries s s.private.root_directory part) _
        (find_entry_in_directory-Covers s s.private.root_directory part l h) go
    where
      go :
          (e : Option EasyDirectoryEntry) (s' : Fat)
          → Covers l e s'
          → After (Covers l) (elim e as (λ _. Option (Option EasyDirectoryEntry × Fat)) [
            | none ↦ some (none, s')
            | some e ↦ walk sector max_entries s' (some e) parts
          ])
      go none s' g = returns g
      go (some e) s' g = walk-Covers s' (some e) parts l g

-- At least `l` live allocations after `fat16_fclose`.
abbrev pub Closes : ℕ → FatFileDescriptor → Fat → Type 0
Closes l desc s = After (λ (rc : Result ℕ) h. l ≤ h.live) (fat16_fclose s.heap desc)

-- At least `l` live allocations after `fat16_fopen`, and after closing what it opened.
abbrev pub Opens : ℕ → Result FatFileDescriptor → Fat → Type 0
Opens l (err e) s = l ≤ s.heap.live
Opens l (ok desc) s = Closes l desc s

closes_lem :
    (l : ℕ) (e : EasyDirectoryEntry) (s : Fat)
    → l + 1 + blocks e ≤ s.heap.live
    → Closes l (record { easy_directory_entry = e; pos = 0 }) s
unfolding fat16_fclose free_file_descriptor easy_dir_entry_free free_directory release
closes_lem l (directory none) s h = returns (omega arith)
closes_lem l (directory (some d)) s h = returns (omega arith)
closes_lem l (file none) s h = fails
closes_lem l (file (some e)) s h = returns (omega arith)

-- Whatever is on the disk, whichever allocations fail, and for any path and mode: if fat16_fopen
-- returns an error, no fewer allocations are live than before, and if it returns a descriptor and
-- fat16_fclose of it returns, no fewer are live then.
pub fat16_fopen-Opens :
    (sector : ℕ → List ℕ) (max_entries : ℕ) (s : Fat) (path : List (List ℕ)) (mode : FileMode)
    → After (Opens s.heap.live) (fat16_fopen sector max_entries s path mode)
unfolding fat16_fopen release
fat16_fopen-Opens sector max_entries s path mode =
    let l = s.heap.live in
    if-After (is_read mode) _ _
      (branch-After (allocation s.heap).0 _ _
        (λ t.
          bind-After
            (get_directory_entry sector max_entries (record s { heap = (allocation s.heap).1 })
              path)
            _
            (get_directory_entry-Covers sector max_entries
              (record s { heap = (allocation s.heap).1 }) path (l + 1)
              (omega (arith, allocation-true s.heap l refl t)))
            opened)
        (λ t. returns (omega (arith, allocation-false s.heap l refl t))))
      (returns (omega arith))
  where
    opened :
        (e : Option EasyDirectoryEntry) (s' : Fat)
        → Covers (s.heap.live + 1) e s'
        → After (Opens s.heap.live) (elim e as (λ _. Option (Result FatFileDescriptor × Fat)) [
          | none ↦ some (err eio, record s' { heap = release s'.heap })
          | some e ↦ some (ok (record { easy_directory_entry = e; pos = 0 }), s')
        ])
    opened none s' g = returns (omega arith)
    opened (some e) s' g = returns (closes_lem s.heap.live e s' g)
