-- ===== src/Elf.antt =====
-- src/loader/formats/elf_file.c: the checks on an ELF file and the range of its segments. The file is
-- an array of bytes; a field behind its end faults (`none`).
pub mod Segments
pub mod Accessors
use conifer_os.Common.{
  ℕ, zero, suc, ◌+◌, ◌*◌, ◌%◌, ◌^◌, Bool, true, false, ◌||◌, Option, none, some, List, [], ◌∷◌,
  drop, leb, ◌==◌, if◌then◌else◌, ◌>>=◌, get_elem?, ℤ, pos, negsuc, Result, ok, err, einvarg,
  eiformat,
}
use conifer_os.Memory.{memcmp}

-- PT_LOAD
abbrev pub pt_load : ℕ
pt_load = 1

-- `struct elf_file`: the file and the address that it was read to, and the ranges.
pub record ElfFile : Type 0 where
  pub elf_file_buffer : Option (List ℕ)
  pub address : ℕ
  pub elf_virtual_addr_base : ℕ
  pub elf_virtual_addr_end : ℕ
  pub elf_phys_addr_base : ℕ
  pub elf_phys_addr_end : ℕ

-- The fields of `struct elf32_phdr` that are used.
pub record ProgramHeader : Type 0 where
  pub p_type : ℕ
  pub p_offset : ℕ
  pub p_vaddr : ℕ
  pub p_filesz : ℕ

unfoldable pub half : List ℕ → ℕ → Option ℕ
half file i = get_elem? file i >>= λ a. get_elem? file (i + 1) >>= λ b. some (a + b * 2 ^ 8)

unfoldable pub word : List ℕ → ℕ → Option ℕ
word file i = half file i >>= λ a. half file (i + 2) >>= λ b. some (a + b * 2 ^ 16)

unfoldable pub e_type : List ℕ → Option ℕ
e_type file = half file 16

unfoldable pub e_phoff : List ℕ → Option ℕ
e_phoff file = word file 28

unfoldable pub e_phnum : List ℕ → Option ℕ
e_phnum file = half file 44

unfoldable pub valid_signature : List ℕ → Option Bool
valid_signature file = memcmp file (0x7f ∷ 69 ∷ 76 ∷ 70 ∷ []) 4 >>= λ r. some (is_zero r)
  where
    is_zero : ℤ → Bool
    is_zero (pos n) = n == 0
    is_zero (negsuc n) = false

unfoldable pub valid_class : List ℕ → Option Bool
valid_class file = get_elem? file 4 >>= λ c. some ((c == 0) || (c == 1))

unfoldable pub valid_encoding : List ℕ → Option Bool
valid_encoding file = get_elem? file 5 >>= λ c. some ((c == 0) || (c == 1))

unfoldable pub is_executable : List ℕ → Option Bool
is_executable file = e_type file >>= λ t. some (t == 2)

unfoldable pub has_program_header_table : List ℕ → Option Bool
has_program_header_table file = e_phoff file >>= λ o. some (if o == 0 then false else true)

-- `&&`: the second test is made if the first holds.
unfoldable pub and_then : Option Bool → Option Bool → Option Bool
and_then none b = none
and_then (some false) b = some false
and_then (some true) b = b

unfoldable pub valid_elf_file : List ℕ → Option Bool
valid_elf_file file = and_then (valid_signature file) (
    and_then (valid_class file) (
      and_then (valid_encoding file)
        (and_then (is_executable file) (has_program_header_table file))))

-- The header at the start of the program header table, which lies `e_phoff` bytes behind the start.
unfoldable pub get_phdr_table : List ℕ → Option ProgramHeader
get_phdr_table file = e_phoff file >>= λ o. word file o >>= λ t. word file (o + 4) >>= λ off.
    word file (o + 8) >>= λ v. word file (o + 16) >>= λ n.
    some (record { p_type = t; p_offset = off; p_vaddr = v; p_filesz = n })

-- The lower end of the range.
unfoldable pub lower_base : ElfFile → ProgramHeader → ElfFile
lower_base f p =
    if leb p.p_vaddr f.elf_virtual_addr_base || (f.elf_virtual_addr_base == 0)
    then record f {
      elf_virtual_addr_base = p.p_vaddr;
      elf_phys_addr_base = (f.address + p.p_offset) % 2 ^ 32;
    }
    else f

-- The upper end of the range.
unfoldable pub raise_end : ElfFile → ProgramHeader → ElfFile
raise_end f p =
    let end_virt_addr = (p.p_vaddr + p.p_filesz) % 2 ^ 32 in
    if leb f.elf_virtual_addr_end end_virt_addr || (f.elf_virtual_addr_end == 0)
    then record f {
      elf_virtual_addr_end = end_virt_addr;
      elf_phys_addr_end = (f.address + p.p_offset + p.p_filesz) % 2 ^ 32;
    }
    else f

unfoldable pub process_pheader_pt_load : ElfFile → ProgramHeader → Result ℕ × ElfFile
process_pheader_pt_load f p =
    if p.p_type == pt_load then (ok 0, raise_end (lower_base f p) p) else (err einvarg, f)

unfoldable pub process_pheader : ElfFile → ProgramHeader → Result ℕ × ElfFile
process_pheader f p = if p.p_type == pt_load then process_pheader_pt_load f p else (ok 0, f)

-- `n` rounds. An error of a header is printed only.
unfoldable pub pheaders_loop : ℕ → List ℕ → ElfFile → Option ElfFile
pheaders_loop zero file f = some f
pheaders_loop (suc n) file f =
    get_phdr_table file >>= λ p. pheaders_loop n file (process_pheader f p).1

unfoldable pub process_pheaders : List ℕ → ElfFile → Option ElfFile
process_pheaders file f = e_phnum file >>= λ n. pheaders_loop n file f

-- `process_elf_file` of a file that was read.
unfoldable pub process_buffer : ElfFile → List ℕ → Option (Result ℕ × ElfFile)
process_buffer f file = valid_elf_file file >>= λ valid.
    if valid then (process_pheaders file f >>= λ f'. some (ok 0, f')) else some (err eiformat, f)

unfoldable pub process_elf_file : ElfFile → Option (Result ℕ × ElfFile)
process_elf_file f = elim f.elf_file_buffer [
  | none ↦ some (err einvarg, f)
  | some file ↦ process_buffer f file
]
