-- ===== src/Tests/Elf.antt =====
-- src/loader/formats/elf_file.c at a file with two loadable segments.
use conifer_os.Common.{ℕ, ◌≡◌, refl, List, [], ◌∷◌, some, true, ok}
use conifer_os.Elf.{
  ElfFile, word, ProgramHeader, process_elf_file, process_pheader, half, valid_elf_file,
  valid_signature, valid_class, valid_encoding, is_executable, has_program_header_table, and_then,
  e_type, e_phoff, e_phnum, get_phdr_table,
}
use conifer_os.Elf.Segments.{process_elf_file-first}
use conifer_os.Memory.{memcmp}

abbrev pub file : List ℕ
file =
    127 ∷ 69 ∷ 76 ∷ 70 ∷ 1 ∷ 1 ∷ 0 ∷ 0 ∷ 0 ∷ 0 ∷ 0 ∷ 0 ∷ 0 ∷ 0 ∷ 0 ∷ 0 ∷ 2 ∷ 0 ∷ 0 ∷ 0 ∷ 0 ∷ 0 ∷ 0
    ∷ 0 ∷ 0 ∷ 0 ∷ 0 ∷ 0 ∷ 52 ∷ 0 ∷ 0 ∷ 0 ∷ 0 ∷ 0 ∷ 0 ∷ 0 ∷ 0 ∷ 0 ∷ 0 ∷ 0 ∷ 0 ∷ 0 ∷ 0 ∷ 0 ∷ 2 ∷ 0 ∷ 0
    ∷ 0 ∷ 0 ∷ 0 ∷ 0 ∷ 0 ∷ 1 ∷ 0 ∷ 0 ∷ 0 ∷ 116 ∷ 0 ∷ 0 ∷ 0 ∷ 0 ∷ 0 ∷ 64 ∷ 0 ∷ 0 ∷ 0 ∷ 0 ∷ 0 ∷ 0 ∷ 1
    ∷ 0 ∷ 0 ∷ 0 ∷ 0 ∷ 0 ∷ 0 ∷ 0 ∷ 0 ∷ 0 ∷ 0 ∷ 0 ∷ 0 ∷ 0 ∷ 0 ∷ 1 ∷ 0 ∷ 0 ∷ 0 ∷ 116 ∷ 1 ∷ 0 ∷ 0 ∷ 0
    ∷ 16 ∷ 64 ∷ 0 ∷ 0 ∷ 0 ∷ 0 ∷ 0 ∷ 0 ∷ 2 ∷ 0 ∷ 0 ∷ 0 ∷ 0 ∷ 0 ∷ 0 ∷ 0 ∷ 0 ∷ 0 ∷ 0 ∷ 0 ∷ 0 ∷ 0 ∷ 0
    ∷ []

-- The segments lie at 0x400000 and at 0x401000.
abbrev pub first_header : ProgramHeader
first_header = record { p_type = 1; p_offset = 0x74; p_vaddr = 0x400000; p_filesz = 0x100 }

abbrev second_header : ProgramHeader
second_header = record { p_type = 1; p_offset = 0x174; p_vaddr = 0x401000; p_filesz = 0x200 }

abbrev elf_file : ElfFile
elf_file = record {
  elf_file_buffer = some file;
  address = 0x1000000;
  elf_virtual_addr_base = 0;
  elf_virtual_addr_end = 0;
  elf_phys_addr_base = 0;
  elf_phys_addr_end = 0;
}

pub file_valid : valid_elf_file file ≡ some true
unfolding valid_elf_file valid_signature valid_class valid_encoding is_executable
    has_program_header_table and_then e_type e_phoff half word memcmp
file_valid = refl

pub file_phnum : e_phnum file ≡ some 2
unfolding e_phnum half
file_phnum = refl

pub file_phdr : get_phdr_table file ≡ some first_header
unfolding get_phdr_table e_phoff half word
file_phdr = refl

process_elf_file-first_example :
    process_elf_file elf_file ≡ some (ok 0, (process_pheader elf_file first_header).1)
process_elf_file-first_example =
    process_elf_file-first elf_file file 1 first_header refl file_valid file_phnum file_phdr
