-- ===== src/Tests/Fat.antt =====
-- src/fs/fat/fat16.c on a volume with one file, `a.bin`, of five bytes.
use conifer_os.Common.{
  ℕ, ◌+◌, ◌*◌, ◌<◌, ◌≡◌, ◌≢◌, ◌↔◌, inl, inr, refl, arith, true, List, [], ◌∷◌, ◌++◌, some,
  Bool-cases, ◌==◌, if◌then◌else◌, length, take, drop, replicate, ok,
}
use conifer_os.Disk.{disk_sector_size}
use conifer_os.Disk.Stream.{byte_at}
use conifer_os.CString.Compare.{Chars, lower}
use conifer_os.File.{read}
use conifer_os.Fat.{
  Fat, FatHeader, FatFileDescriptor, file, get_first_cluster, cluster_to_start_sector,
  cluster_size_bytes, get_first_fat_sector, attribute,
}
use conifer_os.Fat.Clusters.{read_internal}
use conifer_os.Fat.Directory.{matches, get_total_items_for_directory}
use conifer_os.Fat.Operations.{fat16_fopen, fat16_fread}
use conifer_os.Fat.Names.{Plain, dotted}
use conifer_os.Fat.Matching.{matches_iff}
use conifer_os.Fat.Counting.{counted_entries, get_total_items_for_directory-Puts}
use conifer_os.Fat.Reads.{Puts, streams_at, first_cluster_bytes, InRange, read_internal-Puts}
use conifer_os.Fat.Items.{ItemsRead, fat16_fread-ItemsRead}
use conifer_os.Fat.Outcomes.{After}
use conifer_os.Fat.Balance.{Opens, fat16_fopen-Opens}

-- Behind the name and the extension: the attribute and the fields up to the end.
abbrev tail : List ℕ
tail = 0x20 ∷ replicate 14 0 ++ (2 ∷ 0 ∷ 5 ∷ 0 ∷ 0 ∷ 0 ∷ [])

abbrev spaces : ℕ → List ℕ
spaces n = replicate n 32

-- `A       BIN`
abbrev pub raw : List ℕ
raw = 65 ∷ spaces 7 ++ (66 ∷ 73 ∷ 78 ∷ tail)

abbrev pub root_sector : List ℕ
root_sector = raw ++ replicate 480 0

abbrev data_sector : List ℕ
data_sector = 1 ∷ 2 ∷ 3 ∷ 4 ∷ 5 ∷ replicate 507 0

abbrev pub volume : ℕ → List ℕ
volume lba = if lba == 2 then root_sector else if lba == 3 then data_sector else replicate 512 0

pub full : (lba : ℕ) → length (volume lba) ≡ disk_sector_size
full lba = elim (Bool-cases (lba == 2)) [
  | inl y ↦ rw (y) refl
  | inr n ↦ elim (Bool-cases (lba == 3)) [ inl y ↦ rw (n, y) refl | inr m ↦ rw (n, m) refl ]
]

abbrev header : FatHeader
header = record {
  fat_header_primary = record {
    short_jmp_ins = [];
    oem_id = [];
    bytes_per_sector = 512;
    sectors_per_cluster = 1;
    reserved_sectors = 1;
    fat_copies = 1;
    root_dir_entries = 16;
    number_of_sectors = 4;
    media_type = 0;
    sectors_per_fat = 1;
    sectors_per_track = 0;
    number_of_heads = 0;
    hidden_sectors = 0;
    sectors_big = 0;
  };
  fat_header_extended = record {
    drive_number = 0;
    win_nt_bit = 0;
    extended_boot_signature = 0x29;
    volume_id = 0;
    volume_id_string = [];
    system_id_string = [];
  };
}

abbrev pub driver : Fat
driver = record {
  private = record {
    header = header;
    root_directory = record { entry = root_sector; total = ok 1; sector = 2; end_sector = 3 };
    cluster_read_stream = record { pos = 0; disk = 0 };
    fat_read_stream = record { pos = 0; disk = 0 };
    directory_stream = record { pos = 0; disk = 0 };
  };
  heap = record { outcomes = []; live = 7 };
}

-- `a.bin`
abbrev pub wanted : List ℕ
wanted = 97 ∷ 46 ∷ 98 ∷ 105 ∷ 110 ∷ []

name-Plain : Plain (65 ∷ [])
name-Plain = ((λ e. omega (arith, e)), ((λ e. omega (arith, e)), tt))

extension-Plain : Plain (66 ∷ 73 ∷ 78 ∷ [])
extension-Plain = (
  λ e. omega (arith, e),
  (
    λ e. omega (arith, e),
    (
      λ e. omega (arith, e),
      (λ e. omega (arith, e), (λ e. omega (arith, e), (λ e. omega (arith, e), tt))),
    ),
  ),
)

-- Behind the name.
abbrev rest : List ℕ
rest = spaces 6 ++ (66 ∷ 73 ∷ 78 ∷ tail)

char : (c : ℕ) → 0 < c → c < 256 → (c ≢ 0) × (c < 256)
char c h k = (λ e. omega (arith, e), k)

abbrev expected : List ℕ
expected = 65 ∷ 46 ∷ 66 ∷ 73 ∷ 78 ∷ []

expected-Chars : Chars expected
expected-Chars = (
  char 65 (omega arith) (omega arith),
  (
    char 46 (omega arith) (omega arith),
    (
      char 66 (omega arith) (omega arith),
      (char 73 (omega arith) (omega arith), (char 78 (omega arith) (omega arith), tt)),
    ),
  ),
)

wanted-Chars : Chars wanted
wanted-Chars = (
  char 97 (omega arith) (omega arith),
  (
    char 46 (omega arith) (omega arith),
    (
      char 98 (omega arith) (omega arith),
      (char 105 (omega arith) (omega arith), (char 110 (omega arith) (omega arith), tt)),
    ),
  ),
)

matches_iff_example :
    (matches raw (wanted ++ (0 ∷ [])) ≡ some true)
    ↔ (take 128 (lower expected) ≡ take 128 (lower wanted))
unfolding dotted
matches_iff_example =
    matches_iff (65 ∷ []) (66 ∷ 73 ∷ 78 ∷ []) rest (drop 1 tail) raw wanted [] 32 32 name-Plain
      extension-Plain (inr refl) (inr refl) refl refl (omega arith) expected-Chars wanted-Chars

fat16_fopen-Opens_example : After (Opens 7) (fat16_fopen volume 16 driver (wanted ∷ []) read)
fat16_fopen-Opens_example = fat16_fopen-Opens volume 16 driver (wanted ∷ []) read

pub one_sector : cluster_to_start_sector driver.private 2 ≡ some 3
unfolding cluster_to_start_sector
one_sector = refl

pub one_cluster : 0 < cluster_size_bytes driver.private
unfolding cluster_size_bytes
one_cluster = omega arith

pub in_range : InRange driver 2 3
unfolding cluster_size_bytes get_first_fat_sector
in_range = record { clusters = omega arith; table = omega arith }

ends : byte_at volume (2 * disk_sector_size + 1 * 32) ≡ 0
unfolding byte_at
ends = refl

get_total_items_for_directory-Puts_example :
    Puts driver
      (get_total_items_for_directory volume 16 (streams_at driver 0 0 0) 2)
      (ok (counted_entries volume 16 (2 * disk_sector_size)))
get_total_items_for_directory-Puts_example =
    get_total_items_for_directory-Puts volume full 16 driver 0 0 0 2 1 (omega arith) ends
      (omega arith)

read_internal-Puts_example :
    Puts driver
      (read_internal volume (streams_at driver 0 0 0) 2 1 3)
      (first_cluster_bytes volume driver 3 1 3)
read_internal-Puts_example =
    read_internal-Puts volume full driver 0 0 0 2 3 1 3 one_cluster one_sector in_range
      (omega arith) (omega arith)

abbrev opened : FatFileDescriptor
opened = record { easy_directory_entry = file (some raw); pos = 1 }

pub its_cluster : get_first_cluster raw ≡ some 2
unfolding get_first_cluster
its_cluster = refl

fat16_fread-ItemsRead_example :
    ItemsRead volume driver 3 1 2 2 0 [] (fat16_fread volume (streams_at driver 0 0 0) opened 2 2)
fat16_fread-ItemsRead_example =
    fat16_fread-ItemsRead volume full driver 0 0 0 opened raw 2 3 2 2 refl its_cluster one_cluster
      one_sector in_range (omega arith) (omega arith)

pub its_flags : attribute root_sector ≡ some 0x20
unfolding attribute
its_flags = refl
