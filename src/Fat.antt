-- ===== src/Fat.antt =====
-- src/fs/fat/fat16.c: the structures of the FAT16 driver and the functions on its names and sectors.
-- A packed structure that is read from the disk is its bytes; a pointer to a directory entry is the
-- memory from the entry on, and an access behind the memory's end faults (`none`). The kernel heap
-- is seen from here by whether each of the next allocations succeeds, and by how many are live.
pub mod Clusters
pub mod Directory
pub mod Operations
pub mod Driver
pub mod Counting
pub mod Items
pub mod Find
pub mod Matching
pub mod Outcomes
pub mod Balance
pub mod Ownership
pub mod Reads
pub mod Names
use Prim.Native.Nat.{bit_or}
use conifer_os.Common.{
  ℕ, zero, suc, ◌+◌, ◌-◌, ◌*◌, ◌^◌, Bool, true, false, not, ◌&&◌, Option, none, some, List, [], ◌∷◌,
  ◌++◌, leb, ◌==◌, if◌then◌else◌, take, drop, replicate, get_elem?, length, ◌>>=◌, Result,
}
use conifer_os.Disk.{DiskStream, disk_sector_size}

abbrev pub fat_file_read_only : ℕ
fat_file_read_only = 0x01

abbrev pub fat_file_subdirectory : ℕ
fat_file_subdirectory = 0x10

-- `sizeof(struct fat_directory_entry)`
abbrev pub directory_entry_size : ℕ
directory_entry_size = 32

-- `sizeof(struct fat_header)`
abbrev pub header_size : ℕ
header_size = 62

unfoldable pub uint16 : List ℕ → ℕ → Option ℕ
uint16 bytes i = get_elem? bytes i >>= λ a. get_elem? bytes (i + 1) >>= λ b. some (a + b * 2 ^ 8)

unfoldable pub uint32 : List ℕ → ℕ → Option ℕ
unfolding uint16
uint32 bytes i = uint16 bytes i >>= λ a. uint16 bytes (i + 2) >>= λ b. some (a + b * 2 ^ 16)

pub record FatHeaderExtended : Type 0 where
  pub drive_number : ℕ
  pub win_nt_bit : ℕ
  pub extended_boot_signature : ℕ
  pub volume_id : ℕ
  pub volume_id_string : List ℕ
  pub system_id_string : List ℕ

pub record FatHeaderPrimary : Type 0 where
  pub short_jmp_ins : List ℕ
  pub oem_id : List ℕ
  pub bytes_per_sector : ℕ
  pub sectors_per_cluster : ℕ
  pub reserved_sectors : ℕ
  pub fat_copies : ℕ
  pub root_dir_entries : ℕ
  pub number_of_sectors : ℕ
  pub media_type : ℕ
  pub sectors_per_fat : ℕ
  pub sectors_per_track : ℕ
  pub number_of_heads : ℕ
  pub hidden_sectors : ℕ
  pub sectors_big : ℕ

pub record FatHeader : Type 0 where
  pub fat_header_primary : FatHeaderPrimary
  pub fat_header_extended : FatHeaderExtended

-- The packed bytes of a boot sector as the structures.
unfoldable pub header_primary : List ℕ → Option FatHeaderPrimary
unfolding uint16 uint32
header_primary b = uint16 b 11 >>= λ bytes_per_sector. get_elem? b 13 >>= λ sectors_per_cluster.
    uint16 b 14 >>= λ reserved_sectors. get_elem? b 16 >>= λ fat_copies.
    uint16 b 17 >>= λ root_dir_entries. uint16 b 19 >>= λ number_of_sectors.
    get_elem? b 21 >>= λ media_type. uint16 b 22 >>= λ sectors_per_fat.
    uint16 b 24 >>= λ sectors_per_track. uint16 b 26 >>= λ number_of_heads.
    uint32 b 28 >>= λ hidden_sectors. uint32 b 32 >>= λ sectors_big. some (record {
      short_jmp_ins = take 3 b;
      oem_id = take 8 (drop 3 b);
      bytes_per_sector = bytes_per_sector;
      sectors_per_cluster = sectors_per_cluster;
      reserved_sectors = reserved_sectors;
      fat_copies = fat_copies;
      root_dir_entries = root_dir_entries;
      number_of_sectors = number_of_sectors;
      media_type = media_type;
      sectors_per_fat = sectors_per_fat;
      sectors_per_track = sectors_per_track;
      number_of_heads = number_of_heads;
      hidden_sectors = hidden_sectors;
      sectors_big = sectors_big;
    })

unfoldable pub header_extended : List ℕ → Option FatHeaderExtended
unfolding uint16 uint32
header_extended b = get_elem? b 36 >>= λ drive_number. get_elem? b 37 >>= λ win_nt_bit.
    get_elem? b 38 >>= λ signature. uint32 b 39 >>= λ volume_id. some (record {
      drive_number = drive_number;
      win_nt_bit = win_nt_bit;
      extended_boot_signature = signature;
      volume_id = volume_id;
      volume_id_string = take 11 (drop 43 b);
      system_id_string = take 8 (drop 54 b);
    })

unfoldable pub fat_header : List ℕ → Option FatHeader
unfolding header_primary header_extended
fat_header b = header_primary b >>= λ p.
    header_extended b >>= λ e. some (record { fat_header_primary = p; fat_header_extended = e })

-- The fields of `struct fat_directory_entry` that are used. Its file name is the memory that the
-- pointer points to.
unfoldable pub ext : List ℕ → List ℕ
ext raw_entry = drop 8 raw_entry

unfoldable pub attribute : List ℕ → Option ℕ
attribute raw_entry = get_elem? raw_entry 11

unfoldable pub filesize : List ℕ → Option ℕ
unfolding uint32
filesize raw_entry = uint32 raw_entry 28

-- `struct fat_directory`: its array of entries is their bytes, and a total below 0 is an error.
pub record FatDirectory : Type 0 where
  pub entry : List ℕ
  pub total : Result ℕ
  pub sector : ℕ
  pub end_sector : ℕ

-- `struct fat_easy_directory_entry` with its type; `none` is a null pointer.
pub data EasyDirectoryEntry : Type 0 where
  directory : Option FatDirectory → EasyDirectoryEntry
  file : Option (List ℕ) → EasyDirectoryEntry

-- `struct fat_file_descriptor`
pub record FatFileDescriptor : Type 0 where
  pub easy_directory_entry : EasyDirectoryEntry
  pub pos : ℕ

pub record FatPrivate : Type 0 where
  pub header : FatHeader
  pub root_directory : FatDirectory
  pub cluster_read_stream : DiskStream
  pub fat_read_stream : DiskStream
  pub directory_stream : DiskStream

-- Whether the next allocations succeed (all that are not listed do), and how many are live.
pub record Allocations : Type 0 where
  pub outcomes : List Bool
  pub live : ℕ

-- The private data of the driver, and the kernel heap.
pub record Fat : Type 0 where
  pub private : FatPrivate
  pub heap : Allocations

-- A call of `kzalloc`: whether it returned memory.
unfoldable pub allocation : Allocations → Bool × Allocations
allocation h = elim h.outcomes [
  | [] ↦ (true, record h { live = h.live + 1 })
  | true ∷ rest ↦ (true, record { outcomes = rest; live = h.live + 1 })
  | false ∷ rest ↦ (false, record h { outcomes = rest })
]

-- A call of `kfree`.
unfoldable pub release : Allocations → Allocations
release h = record h { live = h.live - 1 }

-- A product from 2 ^ 31 on is not an `int`; nothing is read from there.
unfoldable pub sector_to_absolute_pos : ℕ → ℕ
sector_to_absolute_pos sector = sector * disk_sector_size

unfoldable pub sectors_per_cluster_of : FatPrivate → ℕ
sectors_per_cluster_of p = p.header.fat_header_primary.sectors_per_cluster

unfoldable pub cluster_size_bytes : FatPrivate → ℕ
unfolding sectors_per_cluster_of
cluster_size_bytes p = sectors_per_cluster_of p * disk_sector_size

-- A sector below 0 is not on the disk.
unfoldable pub cluster_to_start_sector : FatPrivate → ℕ → Option ℕ
unfolding sectors_per_cluster_of
cluster_to_start_sector p cluster =
    let behind = p.root_directory.end_sector + cluster * sectors_per_cluster_of p in
    let skipped = 2 * sectors_per_cluster_of p in
    if leb skipped behind then some (behind - skipped) else none

unfoldable pub get_first_cluster : List ℕ → Option ℕ
unfolding uint16
get_first_cluster raw_entry =
    uint16 raw_entry 26 >>= λ low. uint16 raw_entry 20 >>= λ high. some (bit_or low high)

unfoldable pub get_first_fat_sector : FatPrivate → ℕ
get_first_fat_sector p = p.header.fat_header_primary.reserved_sectors

-- A buffer that is written from the front: what is before the pointer `out`, and the rest.
abbrev pub Buffer : Type 0
Buffer = List ℕ × List ℕ

-- A character stored at `out`, which moves on.
unfoldable pub put : Buffer → ℕ → Option Buffer
put (before, []) c = none
put (before, b ∷ rest) c = some (before ++ (c ∷ []), rest)

-- The character that ends the string when it is a space.
unfoldable pub put_null : Buffer → Option Buffer
put_null (before, []) = none
put_null (before, b ∷ rest) = some (before, 0 ∷ rest)

unfoldable pub convert_spaces_to_null : Buffer → List ℕ → Option Buffer
unfolding put put_null
convert_spaces_to_null out [] = none
convert_spaces_to_null out (c ∷ src) =
    let rest = put out c >>= λ out'. convert_spaces_to_null out' src in
    if not (c == 0) && not (c == 32) then rest else if c == 32 then put_null out else some out

-- The dot and the extension.
unfoldable pub put_extension : Buffer → List ℕ → Option Buffer
unfolding ext convert_spaces_to_null put
put_extension out raw_entry = put out 46 >>= λ out'. convert_spaces_to_null out' (ext raw_entry)

-- The buffer of `maxlen` characters with the name.
unfoldable pub get_filename : List ℕ → ℕ → Option (List ℕ)
unfolding ext convert_spaces_to_null put_extension
get_filename raw_entry maxlen = convert_spaces_to_null ([], replicate maxlen 0) raw_entry >>= λ out.
    get_elem? (ext raw_entry) 0 >>= λ c.
    (if not (c == 0) && not (c == 32) then put_extension out raw_entry else some out)
    >>= λ (before, rest). some (before ++ rest)
