-- ===== src/File/Open.antt =====
-- `fopen` and `fclose` of src/fs/file.c, whatever the driver does.
use conifer_os.Common.{
  ℕ, suc, true, ◌≡◌, ◌≢◌, refl, ap, ◌∙◌, inl, inr, Option, none, some, List, [], ◌∷◌, ◌++◌, arith,
  set, length, length-set, store-some, ◌>>=◌, Option-cases, Bool-cases, if◌then◌else◌, ltb, le→ltb,
  ◌==◌, ℤ, pos, sub_ℕ, Result, ok, err, enomem, eio, einvarg,
}
use conifer_os.CString.{strncmp}
use conifer_os.CString.Length.{NonNull}
use conifer_os.PathParser.{PathRoot, max_file_path_chars}
use conifer_os.PathParser.Root.{pparser_parse_lem, root_of}
use conifer_os.File.{
  Files, Filesystem, FileDescriptor, FileMode, read, write, append, invalid, max_open_files,
  find_slot, new_descriptor, get_descriptor, free_descriptor, bind_descriptor, open_with, open_root,
  open_mode, open_disk, later, drive_disk, get_mode_by_string, fopen, fclose,
}
use conifer_os.File.Slots.{Slot, FirstNull, find_slot-Slot, get_elem?-set, set-set, set_same}

module _ {World Priv : Type 0} where
  abbrev pub with_world : Files World Priv → World → Files World Priv
  with_world s w = record s { world = w }

  -- What a call that opens a file leaves: a failure changes nothing but the state of the driver, and
  -- closing the descriptor of a success takes back all but that.
  abbrev pub Undone : Files World Priv → Result ℕ × Files World Priv → Type 0
  Undone s (err e, s') = (w : World) × (s' ≡ with_world s w)
  Undone s (ok fd, s') = (w : World) × (fclose s' fd ≡ some (ok 0, with_world s w))

  -- A result that is not a fault.
  abbrev pub Returns : Files World Priv → Option (Result ℕ × Files World Priv) → Type 0
  Returns s r = (a : Result ℕ × Files World Priv) × (r ≡ some a) × Undone s a

  abbrev bound : Files World Priv → Filesystem World Priv → ℕ → Priv → ℕ → Files World Priv
  bound s fs d priv i = record s {
    file_descriptors =
        set s.file_descriptors i
          (some (record { index = i; filesystem = some fs; disk = some d; private = some priv }));
  }

  close_bound :
      (s : Files World Priv) (fs : Filesystem World Priv) (d : ℕ) (priv : Priv) (i : ℕ)
      → length s.file_descriptors ≡ max_open_files
      → FirstNull s.file_descriptors i
      → fclose (bound s fs d priv i) i ≡ some (ok 0, with_world s (fs.fs_fclose s.world priv))
  unfolding fclose get_descriptor free_descriptor
  close_bound s fs d priv i l f =
      let desc : Option (FileDescriptor World Priv) =
        some (record { index = i; filesystem = some fs; disk = some d; private = some priv }) in
      rw (
        le→ltb 511 i (omega (arith, f.inside, l)),
        get_elem?-set s.file_descriptors i desc f.inside,
        store-some (set s.file_descriptors i desc) i none
            (omega (arith, f.inside, length-set s.file_descriptors i desc)),
        set-set s.file_descriptors i desc none,
        set_same s.file_descriptors i none f.null,
      )

  bind_by :
      (s : Files World Priv) (fs : Filesystem World Priv) (d : ℕ) (priv : Priv) (r : Option ℕ)
      → length s.file_descriptors ≡ max_open_files
      → find_slot s.file_descriptors 0 ≡ r
      → Slot s.file_descriptors 0 r
      → Returns s (bind_descriptor true s fs d priv)
  unfolding bind_descriptor new_descriptor
  bind_by s fs d priv none l e h =
      ((err enomem, s), rw (e, new_descriptor, bind_descriptor), (s.world, refl))
  bind_by s fs d priv (some k) l e (i, at, f) =
      let blank : Option (FileDescriptor World Priv) =
        some (record { index = i; filesystem = none; disk = none; private = none }) in
      let desc : Option (FileDescriptor World Priv) =
        some (record { index = i; filesystem = some fs; disk = some d; private = some priv }) in
      let found : find_slot s.file_descriptors 0 ≡ some i = e ∙ ap some (omega (arith, at)) in
      (
        (ok i, bound s fs d priv i),
        rw (
          found,
          new_descriptor,
          bind_descriptor,
          store-some s.file_descriptors i blank f.inside,
          store-some (set s.file_descriptors i blank) i desc
              (omega (arith, f.inside, length-set s.file_descriptors i blank)),
          set-set s.file_descriptors i blank desc,
        ),
        (fs.fs_fclose s.world priv, close_bound s fs d priv i l f),
      )

  -- A result from a later state of the driver.
  of_world :
      (s : Files World Priv) (w : World) (r : Option (Result ℕ × Files World Priv))
      → Returns (with_world s w) r
      → Returns s r
  of_world s w r ((err e, s'), f, (w', g)) = ((err e, s'), f, (w', g))
  of_world s w r ((ok fd, s'), f, (w', g)) = ((ok fd, s'), f, (w', g))

  open_with-Returns :
      (s : Files World Priv) (fs : Filesystem World Priv) (d : ℕ) (parts : List (List ℕ))
      (mode : FileMode)
      → length s.file_descriptors ≡ max_open_files
      → Returns s (open_with true s fs d parts mode)
  unfolding open_with
  open_with-Returns s fs d parts mode l = by_driver (fs.fs_open s.world d parts mode).0 refl
    where
      by_driver :
          (r : Result Priv)
          → (fs.fs_open s.world d parts mode).0 ≡ r
          → Returns s (open_with true s fs d parts mode)
      by_driver (err e) f = (
        (err e, with_world s (fs.fs_open s.world d parts mode).1),
        rw (f, open_with),
        ((fs.fs_open s.world d parts mode).1, refl),
      )
      by_driver (ok priv) f =
          let w = (fs.fs_open s.world d parts mode).1 in
          let bound =
            bind_by (with_world s w) fs d priv (find_slot s.file_descriptors 0) l refl
              (find_slot-Slot s.file_descriptors 0) in
          rw (f, open_with) (of_world s w (bind_descriptor true (with_world s w) fs d priv) bound)

strncmp_one : (a c : ℕ) (t u : List ℕ) → (z : ℤ) × (strncmp (c ∷ t) (a ∷ u) 1 ≡ some z)
unfolding strncmp
strncmp_one a c t u = elim (Bool-cases (c == a)) [
  | inr n ↦ (sub_ℕ c a, rw n)
  | inl y ↦ elim (Bool-cases (c == 0)) [ inl z ↦ (pos 0, rw (y, z)) | inr z ↦ (pos 0, rw (y, z)) ]
]

not_none : {A : Type 0} (x : A) → some x ≢ none
not_none x e = cc

mode_total : (c : ℕ) (t : List ℕ) → (mode : FileMode) × (get_mode_by_string (c ∷ t) ≡ some mode)
unfolding get_mode_by_string
mode_total c t =
    let (r, e) = strncmp_one 114 c t (0 ∷ []) in
    let (w, f) = strncmp_one 119 c t (0 ∷ []) in
    let (a, g) = strncmp_one 97 c t (0 ∷ []) in
    elim (Option-cases (get_mode_by_string (c ∷ t))) [
      | inr m ↦ m
      | inl n ↦ absurd (not_none _ (rw (e, f, g) at n))
    ]

module _ {World Priv : Type 0} where
  mode-Returns :
      (s : Files World Priv) (fs : Filesystem World Priv) (d : ℕ) (parts : List (List ℕ))
      (mode : FileMode)
      → length s.file_descriptors ≡ max_open_files
      → Returns s (open_mode true s fs d parts mode)
  unfolding open_mode
  mode-Returns s fs d parts read l = open_with-Returns s fs d parts read l
  mode-Returns s fs d parts write l = open_with-Returns s fs d parts write l
  mode-Returns s fs d parts append l = open_with-Returns s fs d parts append l
  mode-Returns s fs d parts invalid l = ((err einvarg, s), refl, (s.world, refl))

  disk-Returns :
      (s : Files World Priv) (d : ℕ) (parts : List (List ℕ)) (c : ℕ) (t : List ℕ)
      → length s.file_descriptors ≡ max_open_files
      → Returns s (open_disk true s d parts (c ∷ t))
  unfolding open_disk
  disk-Returns s d parts c t l = by_driver s.disk_filesystem
    where
      by_driver :
          (o : Option (Filesystem World Priv))
          → Returns s (elim o [
            | none ↦ some (err eio, s)
            | some fs ↦ get_mode_by_string (c ∷ t) >>= λ mode. open_mode true s fs d parts mode
          ])
      by_driver none = ((err eio, s), refl, (s.world, refl))
      by_driver (some fs) =
          let (mode, f) = mode_total c t in rw f (mode-Returns s fs d parts mode l)

  root-Returns :
      (s : Files World Priv) (root : PathRoot) (c : ℕ) (t : List ℕ)
      → length s.file_descriptors ≡ max_open_files
      → Returns s (open_root true s root (c ∷ t))
  unfolding open_root
  root-Returns s root c t l = elim (Option-cases (drive_disk root.drive_no)) [
    | inl e ↦ ((err eio, s), rw (e, open_root), (s.world, refl))
    | inr (d, e) ↦ rw (e, open_root) (disk-Returns s d root.first c t l)
  ]

  -- With 512 slots for descriptors, whatever the driver does, and where the allocations of the
  -- path and the descriptor succeed, fopen of a terminated path with any mode string reaches a
  -- result; after an error the open files are as they were, and after a success closing the
  -- descriptor leaves them as they were.
  pub fopen-Undone :
      (s : Files World Priv) (path rest : List ℕ) (c : ℕ) (t : List ℕ)
      → NonNull path
      → length s.file_descriptors ≡ max_open_files
      → ((i : ℕ) → s.memory 0 i ≡ true)
      → Returns (later s) (fopen s (path ++ (0 ∷ rest)) (c ∷ t))
  unfolding fopen
  fopen-Undone s path rest c t h l all =
      rw (pparser_parse_lem (λ i. s.memory 0 (suc i)) (λ i. all (suc i)) rest path h)
        (by_root (if ltb max_file_path_chars (length path) then none else root_of path))
    where
      by_root :
          (root : Option PathRoot)
          → Returns (later s) (elim root [
            | none ↦ some (err einvarg, later s)
            | some r ↦ open_root (s.memory 0 0) (later s) r (c ∷ t)
          ])
      by_root none = ((err einvarg, later s), refl, (s.world, refl))
      by_root (some r) = rw (all 0) (root-Returns (later s) r c t l)
