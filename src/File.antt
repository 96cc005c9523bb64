-- ===== src/File.antt =====
-- src/fs/file.c: open files on top of the file system drivers. A driver is the record of its
-- functions; what they change is a state `World` of their own, and `Priv` is their private data.
-- A null pointer is `none`. Which allocations of fopen succeed is given.
pub mod Slots
pub mod Open
use conifer_os.Common.{
  ℕ, zero, suc, ◌+◌, ◌-◌, Bool, true, false, not, ◌&&◌, ◌||◌, Option, none, some, List, [], ◌∷◌,
  replicate, ltb, ◌==◌, if◌then◌else◌, ◌>>=◌, ℤ, pos, negsuc, Result, ok, err, einvarg, enomem, eio,
  get_elem?, store,
}
use conifer_os.CString.{strncmp}
use conifer_os.PathParser.{PathRoot, pparser_parse}
use conifer_os.Disk.{disk_get}

abbrev pub max_filesystems : ℕ
max_filesystems = 12

abbrev pub max_open_files : ℕ
max_open_files = 512

-- `enum file_mode`
pub data FileMode : Type 0 where
  read write append invalid : FileMode

-- `enum file_seek_mode`
pub data SeekMode : Type 0 where
  seek_set seek_cur seek_end : SeekMode

pub record FileStat : Type 0 where
  pub flags : ℕ
  pub filesize : ℕ

-- `struct filesystem`. `resolve` says whether it returned 0; `fs_fread` returns its count and the
-- bytes it put out.
pub record Filesystem (World Priv : Type 0) : Type 0 where
  pub fs_open : World → ℕ → List (List ℕ) → FileMode → Result Priv × World
  pub resolve : World → ℕ → Bool × World
  pub fs_fread : World → ℕ → Priv → ℕ → ℕ → (Result ℕ × List ℕ) × World
  pub fs_fseek : World → Priv → ℕ → SeekMode → Result ℕ × World
  pub fs_fstat : World → ℕ → Priv → Result FileStat × World
  pub fs_fclose : World → Priv → World

pub record FileDescriptor (World Priv : Type 0) : Type 0 where
  pub index : ℕ
  pub filesystem : Option (Filesystem World Priv)
  pub disk : Option ℕ
  pub private : Option Priv

-- `filesystems`, `file_descriptors`, `disk.filesystem` of the one disk, and for each call of `fopen` to
-- come, which of its allocations succeed: the one of the descriptor first, then those of the path.
pub record Files (World Priv : Type 0) : Type 0 where
  pub filesystems : List (Option (Filesystem World Priv))
  pub file_descriptors : List (Option (FileDescriptor World Priv))
  pub disk_filesystem : Option (Filesystem World Priv)
  pub world : World
  pub memory : ℕ → ℕ → Bool

-- The first null pointer of an array, from index `i` on.
unfoldable pub find_slot : {A : Type 0} → List (Option A) → ℕ → Option ℕ
find_slot [] i = none
find_slot (none ∷ xs) i = some i
find_slot (some x ∷ xs) i = find_slot xs (i + 1)

unfoldable pub get_mode_by_string : List ℕ → Option FileMode
get_mode_by_string str = strncmp str (114 ∷ 0 ∷ []) 1 >>= λ r. strncmp str (119 ∷ 0 ∷ []) 1 >>= λ w.
    strncmp str (97 ∷ 0 ∷ []) 1 >>= λ a.
    some (
      if is_zero r
      then read
      else if is_zero w
      then write
      else if is_zero a
      then append
      else invalid)
  where
    is_zero : ℤ → Bool
    is_zero (pos n) = n == 0
    is_zero (negsuc n) = false

-- `disk_get` of a drive number.
unfoldable pub drive_disk : ℤ → Option ℕ
drive_disk (pos n) = disk_get n
drive_disk (negsuc n) = none

module _ {World Priv : Type 0} where
  -- `none` is a panic.
  unfoldable pub fs_insert_filesystem :
      Files World Priv → Option (Filesystem World Priv) → Option (Files World Priv)
  fs_insert_filesystem s none = none
  fs_insert_filesystem s (some fs) = find_slot s.filesystems 0 >>= λ i.
      store s.filesystems i (some fs) >>= λ fss. some (record s { filesystems = fss })

  -- `driver` is the one that `fat16_init` returns.
  unfoldable pub fs_init :
      Files World Priv → Option (Filesystem World Priv) → Option (Files World Priv)
  unfolding fs_insert_filesystem
  fs_init s driver =
      fs_insert_filesystem
        (record s {
          file_descriptors = replicate max_open_files none;
          filesystems = replicate max_filesystems none;
        })
        driver

  -- The descriptor's number in `ok`. It is written without a test of its allocation. The new descriptor is zeroed but for that.
  unfoldable pub new_descriptor : Bool → Files World Priv → Option (Result ℕ × Files World Priv)
  new_descriptor memory s = elim (find_slot s.file_descriptors 0) [
    | none ↦ some (err enomem, s)
    | some i ↦
        if memory
        then (store s.file_descriptors i
              (some (record { index = i; filesystem = none; disk = none; private = none }))
            >>= λ fds. some (ok i, record s { file_descriptors = fds }))
        else none
  ]

  -- A number that is not negative.
  unfoldable pub get_descriptor : Files World Priv → ℕ → Option (Option (FileDescriptor World Priv))
  get_descriptor s fd =
      if ltb (max_open_files - 1) fd then some none else get_elem? s.file_descriptors fd

  unfoldable pub free_descriptor :
      Files World Priv → FileDescriptor World Priv → Option (Files World Priv)
  free_descriptor s desc =
      store s.file_descriptors desc.index none >>= λ fds. some (record s { file_descriptors = fds })

  -- The drivers of the array `fss`, in turn.
  unfoldable pub resolve_loop :
      List (Option (Filesystem World Priv)) → World → ℕ → Option (Filesystem World Priv) × World
  resolve_loop [] w d = (none, w)
  resolve_loop (none ∷ fss) w d = resolve_loop fss w d
  resolve_loop (some fs ∷ fss) w d =
      let r = fs.resolve w d in
      let rest = resolve_loop fss r.1 d in if r.0 then (some fs, r.1) else rest

  unfoldable pub fs_resolve :
      Files World Priv → ℕ → Option (Filesystem World Priv) × Files World Priv
  fs_resolve s d = let r = resolve_loop s.filesystems s.world d in (r.0, record s { world = r.1 })

  -- The last part of `fopen`: a descriptor for private data that a driver returned.
  unfoldable pub bind_descriptor :
      Bool
      → Files World Priv
      → Filesystem World Priv
      → ℕ
      → Priv
      → Option (Result ℕ × Files World Priv)
  bind_descriptor memory s fs d priv = new_descriptor memory s >>= λ (rc, s'). elim rc [
    | err e ↦ some (err e, s')
    | ok fd ↦
        store s'.file_descriptors fd
          (some (record { index = fd; filesystem = some fs; disk = some d; private = some priv }))
        >>= λ fds. some (ok fd, record s' { file_descriptors = fds })
  ]

  -- `fopen` from the call of the driver on.
  unfoldable pub open_with :
      Bool
      → Files World Priv
      → Filesystem World Priv
      → ℕ
      → List (List ℕ)
      → FileMode
      → Option (Result ℕ × Files World Priv)
  open_with memory s fs d parts mode =
      let r = fs.fs_open s.world d parts mode in
      elim r.0 [
        | err e ↦ some (err e, record s { world = r.1 })
        | ok priv ↦ bind_descriptor memory (record s { world = r.1 }) fs d priv
      ]

  unfoldable pub open_mode :
      Bool
      → Files World Priv
      → Filesystem World Priv
      → ℕ
      → List (List ℕ)
      → FileMode
      → Option (Result ℕ × Files World Priv)
  open_mode memory s fs d parts invalid = some (err einvarg, s)
  open_mode memory s fs d parts mode = open_with memory s fs d parts mode

  -- `fopen` on the disk `d`.
  unfoldable pub open_disk :
      Bool → Files World Priv → ℕ → List (List ℕ) → List ℕ → Option (Result ℕ × Files World Priv)
  open_disk memory s d parts mode_str = elim s.disk_filesystem [
    | none ↦ some (err eio, s)
    | some fs ↦ get_mode_by_string mode_str >>= λ mode. open_mode memory s fs d parts mode
  ]

  -- `fopen` on a path that was parsed.
  unfoldable pub open_root :
      Bool → Files World Priv → PathRoot → List ℕ → Option (Result ℕ × Files World Priv)
  open_root memory s root mode_str = elim (drive_disk root.drive_no) [
    | none ↦ some (err eio, s)
    | some d ↦ open_disk memory s d root.first mode_str
  ]

  -- The open files behind a call of `fopen` that does nothing else.
  abbrev pub later : Files World Priv → Files World Priv
  later s = record s { memory = λ call. s.memory (suc call) }

  unfoldable pub fopen : Files World Priv → List ℕ → List ℕ → Option (Result ℕ × Files World Priv)
  fopen s filename mode_str =
      let s' = later s in
      pparser_parse (λ i. s.memory 0 (suc i)) filename >>= λ root. elim root [
        | none ↦ some (err einvarg, s')
        | some r ↦ open_root (s.memory 0 0) s' r mode_str
      ]

  -- Closing the descriptor `fd`, whose private data the driver closes.
  unfoldable pub fclose : Files World Priv → ℕ → Option (Result ℕ × Files World Priv)
  fclose s fd = get_descriptor s fd >>= λ found. elim found [
    | none ↦ some (err einvarg, s)
    | some desc ↦ desc.filesystem >>= λ fs. desc.private >>= λ priv.
        free_descriptor (record s { world = fs.fs_fclose s.world priv }) desc >>= λ s'.
        some (ok 0, s')
  ]

  -- The count, the bytes that are put out, and the state.
  unfoldable pub fread :
      Files World Priv → ℕ → ℕ → ℕ → Option ((Result ℕ × List ℕ) × Files World Priv)
  fread s size nmemb fd =
      if (size == 0) || (nmemb == 0)
      then some ((err einvarg, []), s)
      else (get_descriptor s fd >>= λ found. elim found [
        | none ↦ some ((err einvarg, []), s)
        | some desc ↦ desc.filesystem >>= λ fs. desc.disk >>= λ d. desc.private >>= λ priv.
            let r = fs.fs_fread s.world d priv size nmemb in some (r.0, record s { world = r.1 })
      ])

  unfoldable pub fseek : Files World Priv → ℕ → ℕ → SeekMode → Option (Result ℕ × Files World Priv)
  fseek s fd offset whence = get_descriptor s fd >>= λ found. elim found [
    | none ↦ some (err einvarg, s)
    | some desc ↦ desc.filesystem >>= λ fs. desc.private >>= λ priv.
        let r = fs.fs_fseek s.world priv offset whence in some (r.0, record s { world = r.1 })
  ]

  unfoldable pub fstat : Files World Priv → ℕ → Option (Result FileStat × Files World Priv)
  fstat s fd = get_descriptor s fd >>= λ found. elim found [
    | none ↦ some (err einvarg, s)
    | some desc ↦ desc.filesystem >>= λ fs. desc.disk >>= λ d. desc.private >>= λ priv.
        let r = fs.fs_fstat s.world d priv in some (r.0, record s { world = r.1 })
  ]
