-- ===== src/Tests/Succeeds.antt =====
-- src/task/process.c loading a program from a driver that holds one ELF file.
use conifer_os.Common.{ℕ, ◌+◌, ◌*◌, true, none, some, List, [], ◌∷◌, replicate, ok}
use conifer_os.Elf.{ElfFile, process_pheader}
use conifer_os.File.{Filesystem, Files, max_open_files}
use conifer_os.Heap.Create.{fresh}
use conifer_os.KernelHeap.{kernel_heap_address}
use conifer_os.Loading.Executable.{Program, elf, elf_file_at}
use conifer_os.Loading.Slot.{LoaderState, process_load_with_args}
use conifer_os.Loading.Settles.{Settles}
use conifer_os.Loading.Slot.Table.{Loaded, process_load_with_args-Loaded}
use conifer_os.Processes.{max_processes}
use conifer_os.Tests.Elf.{file, first_header}

-- The world counts the open files.
abbrev holding : Filesystem ℕ ℕ
holding = record {
  fs_open = λ w d parts mode. (ok w, w + 1);
  resolve = λ w d. (true, w);
  fs_fread = λ w d priv size nmemb. ((ok nmemb, file), w);
  fs_fseek = λ w priv offset whence. (ok 0, w);
  fs_fstat = λ w d priv. (ok (record { flags = 0; filesize = 116 }), w);
  fs_fclose = λ w priv. w;
}

abbrev files : Files ℕ ℕ
files = record {
  filesystems = some holding ∷ replicate 11 none;
  file_descriptors = replicate max_open_files none;
  disk_filesystem = some holding;
  world = 0;
  memory = λ call i. true;
}

-- `0:/a`
abbrev path : List ℕ
path = 48 ∷ 58 ∷ 47 ∷ 97 ∷ 0 ∷ []

abbrev state : LoaderState ℕ ℕ
state = record {
  files = files;
  kernel = record { heap = fresh kernel_heap_address 1037; bytes = λ a. 0; page_tables = λ a. 0 };
  tasks = record {
    current_task = 0;
    task_list_head = 0;
    task_list_tail = 0;
    next = λ t. 0;
    prev = λ t. 0;
  };
  processes = replicate max_processes none;
}

-- A file with an entry is read, and the process is made.
process_load_with_args-Loaded_example :
    Settles (Loaded state path) (process_load_with_args state path 1 ((97 ∷ 0 ∷ []) ∷ []))
process_load_with_args-Loaded_example =
    process_load_with_args-Loaded state path 1 ((97 ∷ 0 ∷ []) ∷ [])

abbrev buffer : ℕ
buffer = kernel_heap_address + 4 * 4096

abbrev loaded : ElfFile
loaded = (process_pheader (elf_file_at buffer file) first_header).1

abbrev program : Program
program = elf (kernel_heap_address + 3 * 4096) loaded
