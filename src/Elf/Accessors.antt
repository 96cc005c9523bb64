-- ===== src/Elf/Accessors.antt =====
-- src/loader/formats/elf_file.c: the functions on an ELF file that the loading of programs does without.
-- A pointer into the file is the file from there on.
use conifer_os.Common.{
  ℕ, ◌+◌, ◌*◌, ◌%◌, ◌^◌, Bool, Option, some, none, List, drop, ◌==◌, if◌then◌else◌, ◌>>=◌,
}
use conifer_os.Elf.{ElfFile, ProgramHeader, half, word, e_phoff, has_program_header_table}
use conifer_os.Loading.{task_load_virtual_address}

-- `sizeof(struct elf32_shdr)`
abbrev shdr_size : ℕ
shdr_size = 40

-- `sizeof(struct elf32_phdr)`
abbrev phdr_size : ℕ
phdr_size = 32

unfoldable e_shoff : List ℕ → Option ℕ
e_shoff file = word file 32

unfoldable e_shstrndx : List ℕ → Option ℕ
e_shstrndx file = half file 50

unfoldable valid_entry : List ℕ → Option Bool
valid_entry file = word file 24 >>= λ e_entry. some (e_entry == task_load_virtual_address)

-- A null pointer is `none`.
unfoldable get_ehdr : ElfFile → Option (List ℕ)
get_ehdr f = f.elf_file_buffer

unfoldable get_shdr_table : List ℕ → Option (List ℕ)
unfolding e_shoff
get_shdr_table file = e_shoff file >>= λ o. some (drop o file)

unfoldable get_shdr : List ℕ → ℕ → Option (List ℕ)
unfolding get_shdr_table
get_shdr file index = get_shdr_table file >>= λ shdr. some (drop (index * shdr_size) shdr)

-- Without a table the pointer is `some none`.
unfoldable get_phdr : List ℕ → ℕ → Option (Option (List ℕ))
get_phdr file index = has_program_header_table file >>= λ has.
    e_phoff file >>= λ o. some (if has then some (drop (index * phdr_size) (drop o file)) else none)

-- The field `sh_offset` of the header is read.
unfoldable get_string_table : List ℕ → Option (List ℕ)
unfolding e_shstrndx get_shdr
get_string_table file = e_shstrndx file >>= λ index.
    get_shdr file index >>= λ section. word section 16 >>= λ sh_offset. some (drop sh_offset file)

unfoldable get_segment_phys_addr : ElfFile → ProgramHeader → ℕ
get_segment_phys_addr f p = (f.address + p.p_offset) % 2 ^ 32
