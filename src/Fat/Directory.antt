-- ===== src/Fat/Directory.antt =====
-- src/fs/fat/fat16.c: directories and paths. `sector` gives the bytes that the drive delivers, and
-- `max_entries` bounds the entries that are read when a directory is counted.
use conifer_os.Common.{
  ◌%◌, ◌^◌, ℕ, zero, suc, ◌+◌, ◌*◌, ◌/◌, Bool, false, Option, none, some, List, [], ◌∷◌, ltb, ◌==◌,
  if◌then◌else◌, drop, replicate, get_elem?, ◌>>=◌, ℤ, pos, negsuc, Result, ok, err, enomem,
  bit_and,
}
use conifer_os.CString.{strnicmp}
use conifer_os.Memory.{memcpy}
use conifer_os.PathParser.{max_file_path_chars}
use conifer_os.Disk.{DiskStream, disk_sector_size, disk_stream_read, disk_stream_seek}
use conifer_os.Fat.{
  Fat, FatDirectory, FatHeaderPrimary, EasyDirectoryEntry, directory, file, Allocations, allocation,
  release, sector_to_absolute_pos, directory_entry_size, fat_file_subdirectory, attribute,
  get_first_cluster, cluster_to_start_sector, get_filename,
}
use conifer_os.Fat.Clusters.{seek_read, read_internal}

unfoldable pub free_directory : Allocations → Option FatDirectory → Allocations
unfolding release
free_directory h none = h
free_directory h (some d) = release (release h)

-- Freeing a null pointer faults.
unfoldable pub easy_dir_entry_free : Allocations → EasyDirectoryEntry → Option Allocations
unfolding release free_directory
easy_dir_entry_free h (directory d) = some (release (free_directory h d))
easy_dir_entry_free h (file none) = none
easy_dir_entry_free h (file (some entry)) = some (release (release h))

-- The copy in `some (some …)`, a null pointer in `some none`.
unfoldable pub clone_raw_dir_entry :
    Allocations → List ℕ → ℕ → Option (Option (List ℕ) × Allocations)
unfolding allocation
clone_raw_dir_entry h raw_entry n =
    let allocated = allocation h in
    let copied =
      memcpy (replicate n 0) raw_entry n >>= λ entry_copy. some (some entry_copy, allocated.1) in
    if ltb n directory_entry_size
    then some (none, h)
    else if allocated.0
    then copied
    else some (none, allocated.1)

unfoldable pub is_zero : ℤ → Bool
is_zero (pos n) = n == 0
is_zero (negsuc n) = false

-- Whether an entry has the name, without regard to case.
unfoldable pub matches : List ℕ → List ℕ → Option Bool
unfolding get_filename is_zero
matches raw_entry name = get_filename raw_entry max_file_path_chars >>= λ tmp_filename.
    strnicmp tmp_filename name max_file_path_chars >>= λ r. some (is_zero r)

module _ (sector : ℕ → List ℕ) where
  unfoldable pub items_loop : ℕ → DiskStream → ℕ → Option (Result ℕ × DiskStream)
  items_loop zero stream count = none
  items_loop (suc fuel) stream count =
      disk_stream_read sector (suc directory_entry_size) stream directory_entry_size
      >>= λ (rc, stream'). elim rc [
        | err e ↦ some (err e, stream')
        | ok entry ↦ get_elem? entry 0 >>= λ c.
            let rest = items_loop fuel stream' (if c == 0xe5 then count else count + 1) in
            if c == 0 then some (ok count, stream') else rest
      ]

module _ (sector : ℕ → List ℕ) (max_entries : ℕ) where
  unfoldable pub get_total_items_for_directory : Fat → ℕ → Option (Result ℕ × Fat)
  unfolding items_loop sector_to_absolute_pos disk_stream_seek
  get_total_items_for_directory s directory_start_sector =
      items_loop sector max_entries
        (disk_stream_seek s.private.directory_stream
          (sector_to_absolute_pos directory_start_sector))
        0
      >>= λ (rc, stream).
          some (rc, record s { private = record s.private { directory_stream = stream } })

  -- `load_fat_directory` from the count of the entries on; `directory` is allocated. For a total
  -- below 0 the size is near 2 ^ 32: the heap gives no block, and kzalloc clears nearly all of memory.
  unfoldable pub fill_fat_directory : Fat → ℕ → Result ℕ → Option (Option FatDirectory × Fat)
  unfolding allocation release free_directory read_internal
  fill_fat_directory s cluster (err e) = none
  fill_fat_directory s cluster (ok total) =
      let allocated = allocation s.heap in
      let filled =
        read_internal sector (record s { heap = allocated.1 }) cluster 0
          (total * directory_entry_size % 2 ^ 32)
        >>= λ (rc, s'). elim rc [
          | err e ↦ some (none, record s' { heap = release (release s'.heap) })
          | ok bytes ↦
              some
                (some (record { entry = bytes; total = ok total; sector = 0; end_sector = 0 }), s')
        ] in
      if allocated.0 then filled else some (none, record s { heap = release allocated.1 })

  unfoldable pub load_fat_directory : Fat → List ℕ → Option (Option FatDirectory × Fat)
  unfolding allocation attribute get_first_cluster cluster_to_start_sector
      get_total_items_for_directory fill_fat_directory
  load_fat_directory s raw_entry = attribute raw_entry >>= λ flags.
      let allocated = allocation s.heap in
      let loaded = get_first_cluster raw_entry >>= λ cluster.
      cluster_to_start_sector s.private cluster >>= λ cluster_sector.
      get_total_items_for_directory (record s { heap = allocated.1 }) cluster_sector
      >>= λ (total, s'). fill_fat_directory s' cluster total in
      if bit_and flags fat_file_subdirectory == 0
      then some (none, s)
      else if allocated.0
      then loaded
      else some (none, record s { heap = allocated.1 })

  -- The pointer to what a failed load returned is stored all the same.
  unfoldable pub get_easy_entry : Fat → List ℕ → Option (Option EasyDirectoryEntry × Fat)
  unfolding allocation attribute load_fat_directory clone_raw_dir_entry
  get_easy_entry s raw_entry =
      let allocated = allocation s.heap in
      let s' = record s { heap = allocated.1 } in
      let filled = attribute raw_entry >>= λ flags.
      let as_directory =
        load_fat_directory s' raw_entry >>= λ (d, s''). some (some (directory d), s'') in
      let as_file = clone_raw_dir_entry s'.heap raw_entry directory_entry_size >>= λ (copy, h).
      some (some (file copy), record s' { heap = h }) in
      if bit_and flags fat_file_subdirectory == 0 then as_file else as_directory in
      if allocated.0 then filled else some (none, s')

  -- The entries `remaining` from `raw_entry` on; `entry` is the last that was found.
  unfoldable pub find_loop :
      ℕ
      → Fat
      → List ℕ
      → List ℕ
      → Option EasyDirectoryEntry
      → Option (Option EasyDirectoryEntry × Fat)
  unfolding matches get_easy_entry
  find_loop zero s raw_entry name entry = some (entry, s)
  find_loop (suc remaining) s raw_entry name entry = matches raw_entry name >>= λ same.
      let next = drop directory_entry_size raw_entry in
      let found = get_easy_entry s raw_entry >>= λ (e, s'). find_loop remaining s' next name e in
      let skipped = find_loop remaining s next name entry in if same then found else skipped

  unfoldable pub find_entry_in_directory :
      Fat → FatDirectory → List ℕ → Option (Option EasyDirectoryEntry × Fat)
  unfolding find_loop
  find_entry_in_directory s d name = elim d.total [
    | err e ↦ some (none, s)
    | ok total ↦ find_loop total s d.entry name none
  ]

  -- The loop of `get_directory_entry`. It reads the type of `curr_part_entry` without a test for the
  -- null pointer, and the directory that it points to.
  unfoldable pub walk :
      Fat → Option EasyDirectoryEntry → List (List ℕ) → Option (Option EasyDirectoryEntry × Fat)
  unfolding find_entry_in_directory easy_dir_entry_free
  walk s curr_part_entry [] = some (curr_part_entry, s)
  walk s none (part ∷ parts) = none
  walk s (some (file f)) (part ∷ parts) = some (none, s)
  walk s (some (directory none)) (part ∷ parts) = none
  walk s (some (directory (some d))) (part ∷ parts) =
      find_entry_in_directory s d part >>= λ (tmp_entry, s').
      easy_dir_entry_free s'.heap (directory (some d)) >>= λ h.
      walk (record s' { heap = h }) tmp_entry parts

  -- A path has a first part.
  unfoldable pub get_directory_entry :
      Fat → List (List ℕ) → Option (Option EasyDirectoryEntry × Fat)
  unfolding find_entry_in_directory walk
  get_directory_entry s [] = none
  get_directory_entry s (part ∷ parts) =
      find_entry_in_directory s s.private.root_directory part >>= λ (first_part_entry, s').
      elim first_part_entry [ none ↦ some (none, s') | some e ↦ walk s' (some e) parts ]

  -- The root directory of the volume whose header is in the private data.
  unfoldable pub get_root_directory : Fat → Option (Result ℕ × Fat)
  unfolding get_total_items_for_directory allocation seek_read sector_to_absolute_pos
  get_root_directory s = get_total_items_for_directory s root_dir_sector >>= λ (total, s1).
      let allocated = allocation s1.heap in
      let read =
        seek_read sector s1.private.directory_stream (sector_to_absolute_pos root_dir_sector)
          root_dir_size
        >>= λ (rc, stream). elim rc [
          | err e ↦ some (
            err e,
            record {
              private = record s1.private { directory_stream = stream };
              heap = allocated.1;
            },
          )
          | ok bytes ↦ some (
            ok 0,
            record {
              private = record s1.private {
                directory_stream = stream;
                root_directory = record {
                  entry = bytes;
                  total = total;
                  sector = root_dir_sector;
                  end_sector = root_dir_sector + root_dir_size / disk_sector_size;
                };
              };
              heap = allocated.1;
            },
          )
        ] in
      if allocated.0 then read else some (err enomem, record s1 { heap = allocated.1 })
    where
      primary_header : FatHeaderPrimary
      primary_header = s.private.header.fat_header_primary

      root_dir_sector : ℕ
      root_dir_sector =
          primary_header.fat_copies * primary_header.sectors_per_fat
          + primary_header.reserved_sectors

      root_dir_size : ℕ
      root_dir_size = primary_header.root_dir_entries * directory_entry_size
