-- ===== src/Fat/Operations.antt =====
-- src/fs/fat/fat16.c: the functions that the driver hands to the file layer.
use conifer_os.Common.{
  ℕ, zero, suc, ◌+◌, ◌%◌, ◌^◌, Bool, false, true, Option, none, some, List, [], ◌++◌, leb, ◌==◌,
  if◌then◌else◌, ◌>>=◌, replicate, Result, ok, err, Errno, einvarg, enomem, eio, efsnotus, erdonly,
  eunimp, bit_and,
}
use conifer_os.Disk.{DiskStream, get_disk_stream, disk_stream_read}
use conifer_os.File.{FileMode, read, SeekMode, seek_set, seek_cur, seek_end, FileStat}
use conifer_os.Fat.{
  Fat, FatFileDescriptor, FatPrivate, directory, file, Allocations, allocation, release, fat_header,
  header_size, filesize, attribute, fat_file_read_only, get_first_cluster,
}
use conifer_os.Fat.Clusters.{read_internal}
use conifer_os.Fat.Directory.{easy_dir_entry_free, get_directory_entry, get_root_directory}

-- A new stream. The result of its allocation is not tested: a failure faults.
unfoldable pub new_stream : Allocations → ℕ → Option (DiskStream × Allocations)
unfolding allocation get_disk_stream
new_stream h id = get_disk_stream id >>= λ stream.
    let allocated = allocation h in if allocated.0 then some (stream, allocated.1) else none

unfoldable pub free_file_descriptor : Allocations → FatFileDescriptor → Option Allocations
unfolding release easy_dir_entry_free
free_file_descriptor h desc =
    easy_dir_entry_free h desc.easy_directory_entry >>= λ h'. some (release h')

unfoldable pub fat16_fclose : Allocations → FatFileDescriptor → Option (Result ℕ × Allocations)
unfolding free_file_descriptor
fat16_fclose h desc = free_file_descriptor h desc >>= λ h'. some (ok 0, h')

-- An entry that is a null pointer faults.
unfoldable pub fat16_fstat : FatFileDescriptor → Option (Result FileStat)
unfolding filesize attribute
fat16_fstat desc = elim desc.easy_directory_entry [
  | directory d ↦ some (err einvarg)
  | file raw_entry ↦ raw_entry >>= λ e. filesize e >>= λ size. attribute e >>= λ a.
      some (
        ok (record { flags = if bit_and a fat_file_read_only == 0 then 0 else 1; filesize = size }))
]

-- `pos` is a `uint32_t`.
unfoldable pub fat16_fseek :
    FatFileDescriptor → ℕ → SeekMode → Option (Result ℕ × FatFileDescriptor)
unfolding filesize
fat16_fseek desc offset whence = elim desc.easy_directory_entry [
  | directory d ↦ some (err einvarg, desc)
  | file raw_entry ↦ raw_entry >>= λ e. filesize e >>= λ size.
      if leb size offset then some (err eio, desc) else some (reposition whence)
]
  where
    reposition : SeekMode → Result ℕ × FatFileDescriptor
    reposition seek_set = (ok 0, record desc { pos = offset % 2 ^ 32 })
    reposition seek_cur = (ok 0, record desc { pos = (desc.pos + offset) % 2 ^ 32 })
    reposition seek_end = (err eunimp, desc)

-- Whether the mode is READ.
unfoldable pub is_read : FileMode → Bool
is_read read = true
is_read _ = false

-- The zeroed private data with its three streams.
unfoldable pub init_private : Allocations → ℕ → Option Fat
unfolding new_stream fat_header
init_private h id = fat_header (replicate header_size 0) >>= λ header.
    new_stream h id >>= λ (clusters, h1). new_stream h1 id >>= λ (table, h2).
    new_stream h2 id >>= λ (directories, h3). some (record {
      private = record {
        header = header;
        root_directory = record { entry = []; total = ok 0; sector = 0; end_sector = 0 };
        cluster_read_stream = clusters;
        fat_read_stream = table;
        directory_stream = directories;
      };
      heap = h3;
    })

-- `disk->fs_private` after `fat16_resolve` set it to null: the private data is freed.
unfoldable pub refuse : Allocations → Errno → Result ℕ × (Option FatPrivate × Allocations)
unfolding release
refuse h e = (err e, (none, release h))

module _ (sector : ℕ → List ℕ) where
  -- `offset` is an `int` by its 32 bits; as an `int`, a `size` from 2 ^ 31 on is below 0.
  -- `nmemb` items are left to read, `count` are read. The bytes are those of the items that were
  -- read.
  unfoldable pub fread_loop : ℕ → Fat → ℕ → ℕ → ℕ → ℕ → List ℕ → Option ((Result ℕ × List ℕ) × Fat)
  unfolding read_internal
  fread_loop zero s cluster offset size count out = some ((ok count, out), s)
  fread_loop (suc nmemb) s cluster offset size count out =
      read_internal sector s cluster offset size >>= λ (rc, s'). elim rc [
        | err e ↦ some ((ok count, out), s')
        | ok bytes ↦
            fread_loop nmemb s' cluster ((offset + size) % 2 ^ 32) size (count + 1) (out ++ bytes)
      ]

  -- The count, the bytes that are put out, and the state.
  unfoldable pub fat16_fread : Fat → FatFileDescriptor → ℕ → ℕ → Option ((Result ℕ × List ℕ) × Fat)
  unfolding fread_loop get_first_cluster
  fat16_fread s desc size nmemb = elim desc.easy_directory_entry [
    | directory d ↦ some ((err einvarg, []), s)
    | file raw_entry ↦ raw_entry >>= λ e.
        get_first_cluster e >>= λ cluster. fread_loop nmemb s cluster desc.pos size 0 []
  ]

module _ (sector : ℕ → List ℕ) (max_entries : ℕ) where
  unfoldable pub fat16_fopen :
      Fat → List (List ℕ) → FileMode → Option (Result FatFileDescriptor × Fat)
  unfolding is_read allocation release get_directory_entry
  fat16_fopen s path mode =
      let allocated = allocation s.heap in
      let opened =
        get_directory_entry sector max_entries (record s { heap = allocated.1 }) path
        >>= λ (entry, s'). elim entry [
          | none ↦ some (err eio, record s' { heap = release s'.heap })
          | some e ↦ some (ok (record { easy_directory_entry = e; pos = 0 }), s')
        ] in
      if is_read mode
      then if allocated.0 then opened else some (err enomem, record s { heap = allocated.1 })
      else some (err erdonly, s)

  -- `fat16_resolve` from the test of the header on. The stream that the header was read from is
  -- closed in the end.
  unfoldable pub resolve_header : Fat → Option (Result ℕ × (Option FatPrivate × Allocations))
  unfolding release refuse get_root_directory
  resolve_header s =
      let resolved = get_root_directory sector max_entries s >>= λ (rc, s'). elim rc [
        | err e ↦ some (refuse (release s'.heap) e)
        | ok r ↦ some (ok r, (some s'.private, release s'.heap))
      ] in
      if s.private.header.fat_header_extended.extended_boot_signature == 0x29
      then resolved
      else some (refuse (release s.heap) efsnotus)

  -- `fat16_resolve` with the stream `stream` and the private data without its header.
  unfoldable pub resolve_with :
      Fat → DiskStream → Option (Result ℕ × (Option FatPrivate × Allocations))
  unfolding release refuse fat_header resolve_header
  resolve_with s stream =
      disk_stream_read sector (suc header_size) stream header_size >>= λ (rc, stream'). elim rc [
        | err e ↦ some (refuse (release s.heap) e)
        | ok bytes ↦ fat_header bytes >>= λ header.
            resolve_header (record s { private = record s.private { header = header } })
      ]

  -- What `fat16_resolve` returns, `disk->fs_private`, and the heap, for the disk number `id`.
  -- The allocation of the private data is not tested: a failure faults.
  unfoldable pub fat16_resolve :
      Allocations → ℕ → Option (Result ℕ × (Option FatPrivate × Allocations))
  unfolding allocation get_disk_stream init_private new_stream refuse resolve_with
  fat16_resolve h id =
      let allocated = allocation h in
      let streams = init_private allocated.1 id >>= λ s.
      new_stream s.heap id >>= λ (stream, h'). resolve_with (record s { heap = h' }) stream in
      let no_disk : Option (Result ℕ × (Option FatPrivate × Allocations)) =
        some (refuse allocated.1 enomem) in
      let resolved : Option (Result ℕ × (Option FatPrivate × Allocations)) =
        elim (get_disk_stream id) [ none ↦ no_disk | some d ↦ streams ] in
      if allocated.0 then resolved else none
