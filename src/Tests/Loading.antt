-- ===== src/Tests/Loading.antt =====
-- The loading of a program by src/task/process.c from a disk without a file system.
use conifer_os.Common.{
  true, ℕ, ◌≡◌, refl, Option, some, none, List, [], ◌∷◌, replicate, Result, ok, err, eio,
}
use conifer_os.File.{Files, max_open_files}
use conifer_os.KernelHeap.{kernel_heap_address}
use conifer_os.Loading.Slot.{LoaderState, process_load_with_args}
use conifer_os.Processes.{Kernel}
use conifer_os.KernelHeap.{kzalloc, kmalloc, kfree}
use conifer_os.Heap.{
  malloc, malloc_blocks, get_start_block_index, scan_blocks, align_upper_block_boundary,
  mark_blocks_taken, mark_taken_loop, block_to_address, first_entry, next_entry, free,
  address_to_block, mark_blocks_free, mark_free_loop,
}
use conifer_os.PathParser.{
  pparser_parse, get_drive_by_path, path_valid_form, parse_from, drive_number, parse_parts,
  get_path_part, copy_part, skip_slash, link_parts,
}
use conifer_os.CString.{strlen, strnlen}
use conifer_os.File.{open_root, drive_disk, open_disk}
use conifer_os.Disk.{disk_get}

abbrev pub files : Files ℕ ℕ
files = record {
  filesystems = none ∷ [];
  file_descriptors = replicate max_open_files none;
  disk_filesystem = none;
  world = 0;
  memory = λ call i. true;
}

abbrev pub kernel : Kernel
kernel = record {
  heap = record {
    start_addr = kernel_heap_address;
    table = record { entries = 0 ∷ 0 ∷ 0 ∷ 0 ∷ []; total_entries = 4 };
  };
  bytes = λ a. 0;
  page_tables = λ a. 0;
}

abbrev state : LoaderState ℕ ℕ
state = record {
  files = files;
  kernel = kernel;
  tasks = record {
    current_task = 0;
    task_list_head = 0;
    task_list_tail = 0;
    next = λ t. 0;
    prev = λ t. 0;
  };
  processes = none ∷ none ∷ [];
}

-- `0:/a`
abbrev path : List ℕ
path = 48 ∷ 58 ∷ 47 ∷ 97 ∷ 0 ∷ []

-- The error of fopen is returned.
abbrev outcome : Option (Result ℕ)
outcome = elim (process_load_with_args state path 0 []) [
  | none ↦ none
  | some r ↦ some (elim r.0 [ err e ↦ err e | ok p ↦ err eio ])
]

runs : outcome ≡ some (err eio)
unfolding process_load_with_args kzalloc kmalloc malloc malloc_blocks get_start_block_index
    scan_blocks align_upper_block_boundary mark_blocks_taken mark_taken_loop block_to_address
    first_entry next_entry pparser_parse strlen get_drive_by_path path_valid_form strnlen kfree free
    address_to_block mark_blocks_free mark_free_loop parse_from drive_number parse_parts
    get_path_part copy_part skip_slash link_parts open_root drive_disk disk_get open_disk
runs = refl
