-- ===== src/Tests/File.antt =====
-- src/fs/file.c with a driver that opens every path and counts the open files.
use conifer_os.Common.{
  refl, ℕ, ◌+◌, ◌-◌, arith, true, List, [], ◌∷◌, ◌++◌, Option, some, none, replicate,
  length-replicate, ok,
}
use conifer_os.File.{Files, FileDescriptor, Filesystem, fopen, later, max_open_files}
use conifer_os.File.Open.{Returns, fopen-Undone}

abbrev counting : Filesystem ℕ ℕ
counting = record {
  fs_open = λ w d parts mode. (ok w, w + 1);
  resolve = λ w d. (true, w);
  fs_fread = λ w d priv size nmemb. ((ok nmemb, []), w);
  fs_fseek = λ w priv offset whence. (ok 0, w);
  fs_fstat = λ w d priv. (ok (record { flags = 0; filesize = 0 }), w);
  fs_fclose = λ w priv. w - 1;
}

abbrev files : Files ℕ ℕ
files = record {
  filesystems = some counting ∷ [];
  file_descriptors = replicate max_open_files none;
  disk_filesystem = some counting;
  world = 0;
  memory = λ call i. true;
}

-- `0:/a`
abbrev path : List ℕ
path = 48 ∷ 58 ∷ 47 ∷ 97 ∷ []

fopen-Undone_example : Returns (later files) (fopen files (path ++ (0 ∷ [])) (114 ∷ 0 ∷ []))
fopen-Undone_example =
    fopen-Undone files path [] 114 (0 ∷ [])
      (omega arith, (omega arith, (omega arith, (omega arith, tt))))
      (length-replicate {A = Option (FileDescriptor ℕ ℕ)} max_open_files none) (λ i. refl)

abbrev slots : List (Option ℕ)
slots = some 4 ∷ none ∷ some 6 ∷ []
