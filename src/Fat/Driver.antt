-- ===== src/Fat/Driver.antt =====
-- src/fs/fat/fat16.c: fat16_fs, the driver as the file layer sees it. Its state is what fs_private of
-- the disk points to, the kernel heap, and the descriptors that were opened, a pointer to one being its
-- index; it is `none` after a fault.
pub mod Reading
pub mod Paths
use conifer_os.Common.{
  ℕ, Bool, true, false, Option, none, some, List, [], ◌∷◌, ◌++◌, ◌>>=◌, length, get_elem?, store,
  Result, ok, err, eio,
}
use conifer_os.File.{Filesystem, FileMode, SeekMode, FileStat}
use conifer_os.Fat.{Fat, FatFileDescriptor, FatPrivate, Allocations}
use conifer_os.Fat.Operations.{
  fat16_resolve, fat16_fopen, fat16_fread, fat16_fseek, fat16_fstat, fat16_fclose,
}

pub record FatWorld : Type 0 where
  pub private : Option FatPrivate
  pub heap : Allocations
  pub descriptors : List FatFileDescriptor

-- What a call changes in the private data and the heap.
abbrev pub with_fat : FatWorld → Fat → FatWorld
with_fat w s = record w { private = some s.private; heap = s.heap }

-- The result and the state of a call; after a fault the result does not matter.
abbrev pub outcome : {A : Type 0} → A → Option (A × FatWorld) → A × Option FatWorld
outcome a none = (a, none)
outcome a (some (b, w)) = (b, some w)

-- A call on a state that may have faulted.
abbrev pub run :
    {A : Type 0} → A → Option FatWorld → (FatWorld → Option (A × FatWorld)) → A × Option FatWorld
run a w call = outcome a (w >>= call)

abbrev pub is_ok : Result ℕ → Bool
is_ok (ok n) = true
is_ok (err e) = false

-- A new descriptor is put behind the others.
unfoldable pub keep_descriptor : FatWorld → Result FatFileDescriptor → Result ℕ × FatWorld
keep_descriptor w (err e) = (err e, w)
keep_descriptor w (ok desc) =
    (ok (length w.descriptors), record w { descriptors = w.descriptors ++ (desc ∷ []) })

module _ (sector : ℕ → List ℕ) (max_entries : ℕ) where
  unfoldable pub resolve_disk : ℕ → FatWorld → Option (Bool × FatWorld)
  unfolding fat16_resolve
  resolve_disk d w = fat16_resolve sector max_entries w.heap d >>= λ (rc, (private, heap)).
      some (is_ok rc, record w { private = private; heap = heap })

  unfoldable pub open_path : List (List ℕ) → FileMode → FatWorld → Option (Result ℕ × FatWorld)
  unfolding fat16_fopen keep_descriptor
  open_path path mode w = w.private >>= λ p.
      fat16_fopen sector max_entries (record { private = p; heap = w.heap }) path mode
      >>= λ (rc, s). some (keep_descriptor (with_fat w s) rc)

  unfoldable pub read_items : ℕ → ℕ → ℕ → FatWorld → Option ((Result ℕ × List ℕ) × FatWorld)
  unfolding fat16_fread
  read_items i size nmemb w = w.private >>= λ p. get_elem? w.descriptors i >>= λ desc.
      fat16_fread sector (record { private = p; heap = w.heap }) desc size nmemb >>= λ (r, s).
      some (r, with_fat w s)

  unfoldable pub seek_to : ℕ → ℕ → SeekMode → FatWorld → Option (Result ℕ × FatWorld)
  unfolding fat16_fseek
  seek_to i offset whence w = get_elem? w.descriptors i >>= λ desc.
      fat16_fseek desc offset whence >>= λ (rc, desc').
      store w.descriptors i desc' >>= λ ds. some (rc, record w { descriptors = ds })

  unfoldable pub stat_of : ℕ → FatWorld → Option (Result FileStat × FatWorld)
  unfolding fat16_fstat
  stat_of i w = get_elem? w.descriptors i >>= λ desc. fat16_fstat desc >>= λ rc. some (rc, w)

  unfoldable pub close_file : ℕ → FatWorld → Option (Result ℕ × FatWorld)
  unfolding fat16_fclose
  close_file i w = get_elem? w.descriptors i >>= λ desc.
      fat16_fclose w.heap desc >>= λ (rc, heap). some (rc, record w { heap = heap })

  -- What `fat16_init` returns.
  unfoldable pub fat16_fs : Filesystem (Option FatWorld) ℕ
  unfolding resolve_disk open_path read_items seek_to stat_of close_file
  fat16_fs = record {
    fs_open = λ w d path mode. run (err eio) w (open_path path mode);
    resolve = λ w d. run false w (resolve_disk d);
    fs_fread = λ w d i size nmemb. run (err eio, []) w (read_items i size nmemb);
    fs_fseek = λ w i offset whence. run (err eio) w (seek_to i offset whence);
    fs_fstat = λ w d i. run (err eio) w (stat_of i);
    fs_fclose = λ w i. (run (err eio) w (close_file i)).1;
  }
