-- ===== src/Tests/Driver.antt =====
-- src/fs/fat/fat16.c under the file layer, on a volume with one file.
use conifer_os.Common.{◌≤◌, ◌≡◌, refl, arith, true, some, [], ◌∷◌, ◌++◌, length}
use conifer_os.PathParser.{max_file_path_chars}
use conifer_os.PathParser.Names.{pad}
use conifer_os.PathParser.RoundTrip.{IsName, join, print_path}
use conifer_os.CString.{strnicmp, tolower}
use conifer_os.Fat.Directory.{matches}
use conifer_os.Fat.Reads.{streams_at}
use conifer_os.Fat.Driver.Reading.{mounted}
use conifer_os.Fat.Driver.Paths.{OneFile, Placed, ReadBack, fread-fopen}
use conifer_os.Tests.Fat.{
  root_sector, volume, driver, wanted, full, one_cluster, one_sector, its_cluster, its_flags,
  in_range,
}

wanted-IsName : IsName wanted
wanted-IsName = record {
  nonempty = λ e. cc;
  no_null = (omega arith, (omega arith, (omega arith, (omega arith, (omega arith, tt)))));
  no_slash = (omega arith, (omega arith, (omega arith, (omega arith, (omega arith, tt)))));
}

room : length (print_path 0 (wanted ∷ [])) ≤ max_file_path_chars
unfolding print_path join
room = omega arith

its_name : matches root_sector (pad wanted) ≡ some true
unfolding matches strnicmp tolower
its_name = refl

wanted-OneFile : OneFile driver 0 0 0x20 (pad wanted)
wanted-OneFile = record {
  total = refl;
  before = tt;
  same = its_name;
  behind = tt;
  kind = its_flags;
  no_directory = refl;
  whole = omega arith;
}

wanted-Placed : Placed driver 0 2 3
wanted-Placed = record {
  first = its_cluster;
  size = one_cluster;
  begin = one_sector;
  range = in_range;
}

-- Five items of a byte.
fread-fopen_example :
    ReadBack volume driver 3 1 5 7
      (mounted volume 16 (streams_at driver 0 0 0).private 7 [])
      (print_path 0 (wanted ∷ []) ++ (0 ∷ []))
fread-fopen_example =
    fread-fopen volume 16 full driver 0 0 0 7 0 0 0x20 2 3 1 5 wanted [] wanted-IsName room
      wanted-OneFile wanted-Placed (omega arith) (omega arith) (omega arith)
