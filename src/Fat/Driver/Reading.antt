-- ===== src/Fat/Driver/Reading.antt =====
-- A file of the disk, from its path to its bytes, by the functions of src/fs/file.c and the driver.
use conifer_os.Common.{
  true, ℕ, ◌+◌, ◌-◌, ◌<◌, ◌≡◌, refl, ap, arith, Option, some, none, List, [], ◌∷◌, ◌++◌, ◌>>=◌,
  replicate, length, get_elem?-append, pos, Result, ok, err, eio, ne→==,
}
use conifer_os.CString.{strncmp}
use conifer_os.Disk.{disk_get}
use conifer_os.PathParser.{pparser_parse}
use conifer_os.File.{
  Files, Filesystem, FileMode, read, max_open_files, find_slot, new_descriptor, get_descriptor,
  free_descriptor, bind_descriptor, open_with, open_root, open_mode, open_disk, drive_disk,
  get_mode_by_string, fopen, fclose, fread,
}
use conifer_os.Fat.{FatPrivate, FatFileDescriptor, file, release}
use conifer_os.Fat.Directory.{easy_dir_entry_free}
use conifer_os.Fat.Operations.{fat16_fopen, fat16_fread, fat16_fclose, free_file_descriptor}
use conifer_os.Fat.Driver.{
  FatWorld, with_fat, outcome, keep_descriptor, open_path, read_items, close_file, fat16_fs,
}

-- A call of the driver that opens a file.
open_with-ok :
    {World Priv : Type 0} (s : Files World Priv) (fs : Filesystem World Priv) (d : ℕ)
    (parts : List (List ℕ)) (mode : FileMode) (priv : Priv) (w : World)
    → fs.fs_open s.world d parts mode ≡ (ok priv, w)
    → open_with true s fs d parts mode ≡ bind_descriptor true (record s { world = w }) fs d priv
unfolding open_with
open_with-ok s fs d parts mode priv w e =
    rw (e, open_with) (ap (λ r. bind_descriptor true (record s { world = r.1 }) fs d priv) e)

module _ (sector : ℕ → List ℕ) (max_entries : ℕ) where
  -- No file is open, and the driver is mounted with `l` live allocations.
  abbrev pub mounted : FatPrivate → ℕ → List FatFileDescriptor → Files (Option FatWorld) ℕ
  mounted p l ds = record {
    filesystems = some (fat16_fs sector max_entries) ∷ [];
    file_descriptors = replicate max_open_files none;
    disk_filesystem = some (fat16_fs sector max_entries);
    world =
        some (record {
          private = some p;
          heap = record { outcomes = []; live = l };
          descriptors = ds;
        });
    memory = λ call i. true;
  }

  -- The same with the file number 0, whose descriptor of the driver is the first behind `ds`.
  abbrev pub opened :
      FatPrivate → ℕ → List FatFileDescriptor → FatFileDescriptor → Files (Option FatWorld) ℕ
  opened p l ds desc = record (mounted p l (ds ++ (desc ∷ []))) {
    file_descriptors =
        some (record {
          index = 0;
          filesystem = some (fat16_fs sector max_entries);
          disk = some 0;
          private = some (length ds);
        })
        ∷ replicate 511 none;
  }

  open_path-opened :
      (p p' : FatPrivate) (l l' : ℕ) (ds : List FatFileDescriptor) (desc : FatFileDescriptor)
      (name : List ℕ)
      → fat16_fopen sector max_entries
          (record { private = p; heap = record { outcomes = []; live = l } })
          (name ∷ [])
          read
        ≡ some (ok desc, record { private = p'; heap = record { outcomes = []; live = l' } })
      → (fat16_fs sector max_entries).fs_open (mounted p l ds).world 0 (name ∷ []) read
        ≡ (ok (length ds), (mounted p' l' (ds ++ (desc ∷ []))).world)
  unfolding fat16_fs open_path keep_descriptor
  open_path-opened p p' l l' ds desc name e =
      ap
        (λ o. outcome (err eio) (
          o >>= λ (rc, s). some (
            keep_descriptor
              (with_fat
                (record {
                  private = some p;
                  heap = record { outcomes = []; live = l };
                  descriptors = ds;
                })
                s)
              rc)))
        e

  pub fopen-opened :
      (p p' : FatPrivate) (l l' : ℕ) (ds : List FatFileDescriptor) (desc : FatFileDescriptor)
      (name : List ℕ) (path rest : List ℕ)
      → pparser_parse (λ i. true) path
        ≡ some (some (record { drive_no = pos 0; first = name ∷ [] }))
      → fat16_fopen sector max_entries
          (record { private = p; heap = record { outcomes = []; live = l } })
          (name ∷ [])
          read
        ≡ some (ok desc, record { private = p'; heap = record { outcomes = []; live = l' } })
      → fopen (mounted p l ds) path (114 ∷ 0 ∷ rest) ≡ some (ok 0, opened p' l' ds desc)
  unfolding fopen open_root drive_disk disk_get open_disk get_mode_by_string strncmp open_mode
      open_with bind_descriptor new_descriptor find_slot
  fopen-opened p p' l l' ds desc name path rest parsed e =
      rw (parsed, fopen)
        (open_with-ok (mounted p l ds) (fat16_fs sector max_entries) 0 (name ∷ []) read (length ds)
          _ (open_path-opened p p' l l' ds desc name e))

  read_items-opened :
      (p p' : FatPrivate) (l : ℕ) (ds : List FatFileDescriptor) (desc : FatFileDescriptor)
      (size nmemb : ℕ) (r : Result ℕ × List ℕ)
      → fat16_fread sector
          (record { private = p; heap = record { outcomes = []; live = l } })
          desc
          size
          nmemb
        ≡ some (r, record { private = p'; heap = record { outcomes = []; live = l } })
      → (fat16_fs sector max_entries).fs_fread (opened p l ds desc).world 0 (length ds) size nmemb
        ≡ (r, (opened p' l ds desc).world)
  unfolding fat16_fs read_items
  read_items-opened p p' l ds desc size nmemb r e =
      let w : FatWorld = record {
        private = some p;
        heap = record { outcomes = []; live = l };
        descriptors = ds ++ (desc ∷ []);
      } in
      let items : read_items sector max_entries (length ds) size nmemb w
          ≡ some (r, record w { private = some p' }) =
        rw (get_elem?-append ds desc []) (ap (λ o. o >>= λ (x, s). some (x, with_fat w s)) e) in
      ap (outcome (err eio, [])) items

  pub fread-opened :
      (p p' : FatPrivate) (l : ℕ) (ds : List FatFileDescriptor) (desc : FatFileDescriptor)
      (size nmemb : ℕ) (r : Result ℕ × List ℕ)
      → 0 < size
      → 0 < nmemb
      → fat16_fread sector
          (record { private = p; heap = record { outcomes = []; live = l } })
          desc
          size
          nmemb
        ≡ some (r, record { private = p'; heap = record { outcomes = []; live = l } })
      → fread (opened p l ds desc) size nmemb 0 ≡ some (r, opened p' l ds desc)
  unfolding fread get_descriptor
  fread-opened p p' l ds desc size nmemb r some_bytes some_items e =
      rw
        (
          ne→== size 0 (λ x. omega (arith, x, some_bytes)),
          ne→== nmemb 0 (λ x. omega (arith, x, some_items)),
        )
        (ap (λ x. some (x.0, record (opened p l ds desc) { world = x.1 }))
          (read_items-opened p p' l ds desc size nmemb r e))

  pub fclose-opened :
      (p : FatPrivate) (l : ℕ) (ds : List FatFileDescriptor) (desc : FatFileDescriptor)
      (raw : List ℕ)
      → desc.easy_directory_entry ≡ file (some raw)
      → fclose (opened p (l + 3) ds desc) 0 ≡ some (ok 0, mounted p l (ds ++ (desc ∷ [])))
  unfolding fclose get_descriptor free_descriptor fat16_fs close_file fat16_fclose
      free_file_descriptor easy_dir_entry_free release
  fclose-opened p l ds desc raw e =
      let three : l + 3 - 1 - 1 - 1 ≡ l = omega arith in
      rw (get_elem?-append ds desc [], e, three) refl
