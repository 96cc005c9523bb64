-- ===== src/Loading/Executable.antt =====
-- src/loader/formats/elf_file.c and src/task/process.c: how the file of a program gets into the memory
-- of the kernel. A fault, such as the freeing of a null pointer, is `none`.
use conifer_os.Common.{
  ℕ, ◌+◌, ◌==◌, Option, none, some, List, [], ◌∷◌, if◌then◌else◌, ◌>>=◌, Result, ok, err, enomem,
  eio, einvarg, eiformat, Errno,
}
use conifer_os.Elf.{ElfFile, process_elf_file}
use conifer_os.File.{Files, FileStat, fopen, fclose, fread, fstat}
use conifer_os.KernelHeap.{kzalloc}
use conifer_os.Processes.{Kernel, Executable, kernel_free}
use conifer_os.Processes
use conifer_os.UserMemory.{put_byte}

-- `sizeof(struct elf_file)`
abbrev pub elf_file_size : ℕ
elf_file_size = 152

-- "r"
abbrev pub read_mode : List ℕ
read_mode = 114 ∷ 0 ∷ []

-- A program that was read: a binary and its size, or the address of a `struct elf_file` and its contents.
pub data Program : Type 0 where
  binary : ℕ → ℕ → Program
  elf : ℕ → ElfFile → Program

-- What `process_free` sees of it.
abbrev pub executable : Program → Executable
executable (binary ptr size) = Processes.binary ptr
executable (elf address f) = Processes.elf (some (f.address, address))

-- Bytes that are put in memory from an address on.
unfoldable pub put_bytes : (ℕ → ℕ) → ℕ → List ℕ → ℕ → ℕ
unfolding put_byte
put_bytes bytes a [] = bytes
put_bytes bytes a (b ∷ bs) = put_bytes (put_byte bytes a b) (a + 1) bs

-- A null pointer is 0.
unfoldable pub kernel_kzalloc : Kernel → ℕ → Option (ℕ × Kernel)
kernel_kzalloc k size = kzalloc k.heap k.bytes size >>= λ (ptr, heap, bytes).
    some (elim ptr [ none ↦ 0 | some p ↦ p ], record k { heap = heap; bytes = bytes })

-- `struct elf_file` after `kzalloc`, with the file that was read to `buffer`.
abbrev pub elf_file_at : ℕ → List ℕ → ElfFile
elf_file_at buffer file = record {
  elf_file_buffer = if buffer == 0 then none else some file;
  address = buffer;
  elf_virtual_addr_base = 0;
  elf_virtual_addr_end = 0;
  elf_phys_addr_base = 0;
  elf_phys_addr_end = 0;
}

-- The file is not null.
unfoldable pub elf_file_close : Kernel → ℕ → ElfFile → Option Kernel
unfolding kernel_free
elf_file_close k address f = kernel_free k f.address >>= λ k1. kernel_free k1 address

module _ {World Priv : Type 0} where
  -- An error after two pieces of memory are freed.
  unfoldable pub fail_freeing :
      {A : Type 0}
      → Files World Priv
      → Kernel
      → ℕ
      → ℕ
      → Errno
      → Option (Result A × (Files World Priv × Kernel))
  unfolding kernel_free
  fail_freeing fs k buffer address e =
      kernel_free k buffer >>= λ k1. kernel_free k1 address >>= λ k2. some (err e, (fs, k2))

  -- `elf_file_init` when the file is in memory at `buffer`.
  unfoldable pub elf_file_check :
      Files World Priv
      → Kernel
      → ℕ
      → ℕ
      → ℕ
      → List ℕ
      → Option (Result (ℕ × ElfFile) × (Files World Priv × Kernel))
  unfolding fail_freeing process_elf_file fclose
  elf_file_check fs k fd address buffer file =
      process_elf_file (elf_file_at buffer file) >>= λ (rc, f). elim rc [
        | err e ↦ fail_freeing fs k buffer address e >>= λ (r, (fs1, k1)).
            fclose fs1 fd >>= λ (_, fs2). some (r, (fs2, k1))
        | ok r ↦ fclose fs fd >>= λ (_, fs1). some (ok (address, f), (fs1, k))
      ]

  -- `elf_file_init` from the reading on.
  unfoldable pub elf_file_read :
      Files World Priv
      → Kernel
      → ℕ
      → ℕ
      → FileStat
      → Option (Result (ℕ × ElfFile) × (Files World Priv × Kernel))
  unfolding kernel_kzalloc fread elf_file_check fail_freeing put_bytes
  elf_file_read fs k fd address stat = kernel_kzalloc k stat.filesize >>= λ (buffer, k1).
      fread fs stat.filesize 1 fd >>= λ ((count, file), fs1).
      let k2 = record k1 { bytes = put_bytes k1.bytes buffer file } in
      elim count [
        | err e ↦ fail_freeing fs1 k2 buffer address einvarg
        | ok n ↦
            if n == 1
            then elf_file_check fs1 k2 fd address buffer file
            else fail_freeing fs1 k2 buffer address einvarg
      ]

  -- `elf_file_init` with the file open.
  unfoldable pub elf_file_open :
      Files World Priv
      → Kernel
      → ℕ
      → ℕ
      → Option (Result (ℕ × ElfFile) × (Files World Priv × Kernel))
  unfolding fstat kernel_free elf_file_read
  elf_file_open fs k fd address = fstat fs fd >>= λ (stat, fs1). elim stat [
    | err e ↦ kernel_free k address >>= λ k1. some (err e, (fs1, k1))
    | ok s ↦ elf_file_read fs1 k fd address s
  ]

  -- The address of the structure, which is zeroed, and its contents.
  unfoldable pub elf_file_init :
      Files World Priv
      → Kernel
      → List ℕ
      → Option (Result (ℕ × ElfFile) × (Files World Priv × Kernel))
  unfolding kernel_kzalloc fopen kernel_free elf_file_open
  elf_file_init fs k elf_filename = kernel_kzalloc k elf_file_size >>= λ (address, k1).
      if address == 0
      then some (err enomem, (fs, k1))
      else (fopen fs elf_filename read_mode >>= λ (rc, fs1). elim rc [
        | err e ↦ kernel_free k1 address >>= λ k2. some (err e, (fs1, k2))
        | ok fd ↦ elf_file_open fs1 k1 fd address
      ])

  -- `process_load_binary_executable` with the file open, up to `out`.
  unfoldable pub binary_read :
      Files World Priv
      → Kernel
      → ℕ
      → FileStat
      → Option (Result Program × (Files World Priv × Kernel))
  unfolding kernel_kzalloc fread put_bytes
  binary_read fs k fd stat = kernel_kzalloc k stat.filesize >>= λ (ptr, k1).
      if ptr == 0
      then some (err enomem, (fs, k1))
      else (fread fs stat.filesize 1 fd >>= λ ((count, file), fs1).
          let k2 = record k1 { bytes = put_bytes k1.bytes ptr file } in
          elim count [
            | err e ↦ some (err e, (fs1, k2))
            | ok n ↦ some (ok (binary ptr stat.filesize), (fs1, k2))
          ])

  unfoldable pub process_load_binary_executable :
      Files World Priv → Kernel → List ℕ → Option (Result Program × (Files World Priv × Kernel))
  unfolding fopen fstat binary_read fclose
  process_load_binary_executable fs k filename = fopen fs filename read_mode >>= λ (rc, fs1).
      elim rc [
        | err e ↦ some (err eio, (fs1, k))
        | ok fd ↦ fstat fs1 fd >>= λ (stat, fs2).
            let body : Option (Result Program × (Files World Priv × Kernel)) = elim stat [
              | err e ↦ some (err e, (fs2, k))
              | ok s ↦ binary_read fs2 k fd s
            ] in
            body >>= λ (r, (fs3, k1)). fclose fs3 fd >>= λ (_, fs4). some (r, (fs4, k1))
      ]

  unfoldable pub process_load_elf_executable :
      Files World Priv → Kernel → List ℕ → Option (Result Program × (Files World Priv × Kernel))
  unfolding elf_file_init
  process_load_elf_executable fs k filename = elf_file_init fs k filename >>= λ (r, l). elim r [
    | err e ↦ some (err e, l)
    | ok (address, f) ↦ some (ok (elf address f), l)
  ]

  -- A file that is no ELF file is taken for a binary.
  unfoldable pub process_load_data :
      Files World Priv → Kernel → List ℕ → Option (Result Program × (Files World Priv × Kernel))
  unfolding process_load_elf_executable process_load_binary_executable
  process_load_data fs k filename = process_load_elf_executable fs k filename >>= λ (r, (fs1, k1)).
      elim r [
        | err eiformat ↦ process_load_binary_executable fs1 k1 filename
        | err e ↦ some (err e, (fs1, k1))
        | ok p ↦ some (ok p, (fs1, k1))
      ]
