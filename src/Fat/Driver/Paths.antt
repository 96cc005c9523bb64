-- ===== src/Fat/Driver/Paths.antt =====
-- The bytes of the file that a path names.
use conifer_os.Common.{
  ◌^◌, ℕ, suc, ◌+◌, ◌*◌, ◌≤◌, ◌<◌, ◌≡◌, refl, ◌∙◌, arith, Option, some, List, [], ◌∷◌, ◌++◌, true,
  take, drop, length, ok, bit_and,
}
use conifer_os.Disk.{disk_sector_size}
use conifer_os.Disk.Stream.{bytes}
use conifer_os.PathParser.{max_file_path_chars}
use conifer_os.PathParser.Names.{pad, pad_all}
use conifer_os.PathParser.RoundTrip.{IsName, print_path, pparser_parse-print_path}
use conifer_os.File.{Files, fopen, fclose, fread}
use conifer_os.Fat.{
  Fat, FatFileDescriptor, file, attribute, fat_file_subdirectory, directory_entry_size,
  cluster_size_bytes, cluster_to_start_sector, get_first_cluster,
}
use conifer_os.Fat.Directory.{matches}
use conifer_os.Fat.Find.{NoneMatches, with_live, opened_entry, fat16_fopen-single}
use conifer_os.Fat.Items.{Stops, fat16_fread-ItemsRead}
use conifer_os.Fat.Reads.{streams_at, InRange}
use conifer_os.Fat.Driver.{FatWorld}
use conifer_os.Fat.Driver.Reading.{mounted, opened, fopen-opened, fread-opened, fclose-opened}

-- The entry `k` of the root directory, behind which there are `m`, is the only one with the name, and
-- that of a file.
pub record OneFile (s : Fat) (k m flags : ℕ) (name : List ℕ) : Type 0 where
  pub total : s.private.root_directory.total ≡ ok (k + suc m)
  pub before : NoneMatches k s.private.root_directory.entry name
  pub same : matches (opened_entry s k) name ≡ some true
  pub behind :
      NoneMatches m (drop (suc k * directory_entry_size) s.private.root_directory.entry) name
  pub kind : attribute (opened_entry s k) ≡ some flags
  pub no_directory : bit_and flags fat_file_subdirectory ≡ 0
  pub whole : directory_entry_size ≤ length (opened_entry s k)

-- The entry that is copied.
abbrev pub raw_entry : Fat → ℕ → List ℕ
raw_entry s k = take directory_entry_size (opened_entry s k)

-- Where the first cluster of the entry begins.
pub record Placed (s : Fat) (k cluster start : ℕ) : Type 0 where
  pub first : get_first_cluster (raw_entry s k) ≡ some cluster
  pub size : 0 < cluster_size_bytes s.private
  pub begin : cluster_to_start_sector s.private cluster ≡ some start
  pub range : InRange s cluster start

-- The path is opened, `k` of `nmemb` items are read, which are the bytes from the sector `start` on, and
-- the file is closed, with `l` live allocations of the driver as before.
pub record ReadBack (sector : ℕ → List ℕ) (s : Fat) (start size nmemb l : ℕ)
    (files : Files (Option FatWorld) ℕ) (path : List ℕ) : Type 0 where
  pub with_file : Files (Option FatWorld) ℕ
  pub opens : fopen files path (114 ∷ 0 ∷ []) ≡ some (ok 0, with_file)
  pub items : ℕ
  pub within : items ≤ nmemb
  pub stops : Stops s 0 size nmemb items
  pub after : Files (Option FatWorld) ℕ
  pub reads :
      fread with_file size nmemb 0
      ≡ some ((ok items, bytes sector (start * disk_sector_size) (items * size)), after)
  pub closed : Files (Option FatWorld) ℕ
  pub world : FatWorld
  pub closes : fclose after 0 ≡ some (ok 0, closed)
  pub unopened : closed.file_descriptors ≡ files.file_descriptors
  pub last : closed.world ≡ some world
  pub balance : world.heap.live ≡ l

module _ (sector : ℕ → List ℕ) (max_entries : ℕ)
    (full : (lba : ℕ) → length (sector lba) ≡ disk_sector_size) where
  -- On a drive with full sectors, with the FAT16 driver mounted, no file open and all allocations
  -- succeeding, for a name of which exactly one entry of the root directory has the name and is
  -- not a directory, with a cluster size that is not 0 and a first cluster that begins at a
  -- sector of the disk, where two clusters from there on and the entry of the first cluster in
  -- the table lie below 2 ^ 31: fopen of the path of drive 0 and that name for reading gives the
  -- file number 0; fread of nmemb items from it, both numbers not 0 and the size of an item below
  -- 2 ^ 31, gives the bytes of the disk from that sector on, for as many items as it counts, and
  -- stops when all are read, when the next begins behind the first cluster, or at once when an
  -- item is larger than a cluster; and fclose then leaves all file numbers free, and as many live
  -- allocations of the driver as before.
  pub fread-fopen :
      (s : Fat) (c f d l k m flags cluster start size nmemb : ℕ) (name : List ℕ)
      (ds : List FatFileDescriptor)
      → IsName name
      → length (print_path 0 (name ∷ [])) ≤ max_file_path_chars
      → OneFile s k m flags (pad name)
      → Placed s k cluster start
      → 0 < size
      → size < 2 ^ 31
      → 0 < nmemb
      → ReadBack sector s start size nmemb l
          (mounted sector max_entries (streams_at s c f d).private l ds)
          (print_path 0 (name ∷ []) ++ (0 ∷ []))
  unfolding streams_at with_live pad_all
  fread-fopen s c f d l k m flags cluster start size nmemb name ds is_name room one placed
        some_bytes small some_items =
      let desc : FatFileDescriptor = record {
        easy_directory_entry = file (some (raw_entry s k));
        pos = 0;
      } in
      let parsed =
        pparser_parse-print_path (λ i. true) 0 name [] [] (λ i. refl) (omega arith) (is_name, tt)
          room in
      let p = (streams_at s c f d).private in
      let o =
        fat16_fopen-single sector max_entries (streams_at s c f d) l k m flags (pad name) one.total
          one.before one.same one.behind one.kind one.no_directory one.whole in
      let (n, (within, (stops, (c', (f', (d', e)))))) =
        fat16_fread-ItemsRead sector full (with_live s (l + 3)) c f d desc (raw_entry s k) cluster
          start size nmemb refl placed.first placed.size placed.begin
          (record { clusters = placed.range.clusters; table = placed.range.table }) (omega arith)
          small in
      let number : 0 + n ≡ n = omega arith in
      let position : start * disk_sector_size + 0 ≡ start * disk_sector_size = omega arith in
      let p' = (streams_at s c' f' d').private in
      record {
        with_file = opened sector max_entries p (l + 3) ds desc;
        opens = fopen-opened sector max_entries p p l (l + 3) ds desc (pad name) _ [] parsed o;
        items = n;
        within = within;
        stops = stops;
        after = opened sector max_entries p' (l + 3) ds desc;
        reads =
            fread-opened sector max_entries p p' (l + 3) ds desc size nmemb _ some_bytes some_items
              e
            ∙ rw (number, position) refl;
        closed = mounted sector max_entries p' l (ds ++ (desc ∷ []));
        world = record {
          private = some p';
          heap = record { outcomes = []; live = l };
          descriptors = ds ++ (desc ∷ []);
        };
        closes = fclose-opened sector max_entries p' l ds desc (raw_entry s k) refl;
        unopened = refl;
        last = refl;
        balance = refl;
      }
