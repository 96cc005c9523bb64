-- ===== src/Elf/Segments.antt =====
-- Which program headers src/loader/formats/elf_file.c takes into account.
use conifer_os.Common.{
  eq→==, ℕ, zero, suc, ◌+◌, ◌%◌, ◌^◌, ◌≤◌, ◌<◌, ◌≡◌, refl, ap, ◌∙◌, inl, inr, Bool, true, false,
  ◌||◌, none, some, List, leb, ◌==◌, arith, Bool-cases, if◌then◌else◌, ok, err, einvarg,
}
use conifer_os.Elf.{
  ElfFile, ProgramHeader, pt_load, lower_base, raise_end, process_pheader_pt_load, process_pheader,
  pheaders_loop, process_pheaders, process_elf_file, process_buffer, get_phdr_table, valid_elf_file,
  e_phnum,
}

abbrev lowers : ElfFile → ProgramHeader → Bool
lowers f p = leb p.p_vaddr f.elf_virtual_addr_base || (f.elf_virtual_addr_base == 0)

abbrev raises : ElfFile → ProgramHeader → Bool
raises f p =
    leb f.elf_virtual_addr_end ((p.p_vaddr + p.p_filesz) % 2 ^ 32) || (f.elf_virtual_addr_end == 0)

same_if : (b : Bool) (f : ElfFile) → (if b then f else f) ≡ f
same_if true f = refl
same_if false f = refl

lower_twice : (f : ElfFile) (p : ProgramHeader) → lower_base (lower_base f p) p ≡ lower_base f p
unfolding lower_base
lower_twice f p = elim (Bool-cases (lowers f p)) [ inl y ↦ rw y (same_if _ _) | inr n ↦ rw (n, n) ]

raise_twice : (f : ElfFile) (p : ProgramHeader) → raise_end (raise_end f p) p ≡ raise_end f p
unfolding raise_end
raise_twice f p = elim (Bool-cases (raises f p)) [ inl y ↦ rw y (same_if _ _) | inr n ↦ rw (n, n) ]

lower_raise :
    (f : ElfFile) (p : ProgramHeader) → lower_base (raise_end f p) p ≡ raise_end (lower_base f p) p
unfolding lower_base raise_end
lower_raise f p = elim (Bool-cases (lowers f p)) [
  | inl y ↦ elim (Bool-cases (raises f p)) [ inl z ↦ rw (y, z, y) | inr z ↦ rw (y, z, y) ]
  | inr y ↦ elim (Bool-cases (raises f p)) [ inl z ↦ rw (y, z, y) | inr z ↦ rw (y, z, y) ]
]

-- Both ends of the range.
abbrev widened : ElfFile → ProgramHeader → ElfFile
widened f p = raise_end (lower_base f p) p

widened_twice : (f : ElfFile) (p : ProgramHeader) → widened (widened f p) p ≡ widened f p
widened_twice f p =
    ap (λ g. raise_end g p)
      (lower_raise (lower_base f p) p ∙ ap (λ g. raise_end g p) (lower_twice f p))
    ∙ raise_twice (lower_base f p) p

process_twice :
    (f : ElfFile) (p : ProgramHeader)
    → (process_pheader (process_pheader f p).1 p).1 ≡ (process_pheader f p).1
unfolding process_pheader process_pheader_pt_load
process_twice f p = elim (Bool-cases (p.p_type == pt_load)) [
  | inl y ↦ rw y (widened_twice f p)
  | inr n ↦ rw n
]

loop_first :
    (n : ℕ) (file : List ℕ) (f : ElfFile) (p : ProgramHeader)
    → get_phdr_table file ≡ some p
    → pheaders_loop (suc n) file f ≡ some (process_pheader f p).1
unfolding pheaders_loop
loop_first zero file f p e = rw e
loop_first (suc n) file f p e =
    rw e (rw e at (loop_first n file (process_pheader f p).1 p e) ∙ ap some (process_twice f p))

buffer_first :
    (f : ElfFile) (file : List ℕ) (n : ℕ) (p : ProgramHeader)
    → valid_elf_file file ≡ some true
    → e_phnum file ≡ some (suc n)
    → get_phdr_table file ≡ some p
    → process_buffer f file ≡ some (ok 0, (process_pheader f p).1)
unfolding process_buffer process_pheaders
buffer_first f file n p valid num first = rw (valid, num, loop_first n file f p first)

-- On a valid file with at least one program header, whose first header can be read,
-- process_elf_file does what it does to that header: the others are never looked at.
pub process_elf_file-first :
    (f : ElfFile) (file : List ℕ) (n : ℕ) (p : ProgramHeader)
    → f.elf_file_buffer ≡ some file
    → valid_elf_file file ≡ some true
    → e_phnum file ≡ some (suc n)
    → get_phdr_table file ≡ some p
    → process_elf_file f ≡ some (ok 0, (process_pheader f p).1)
unfolding process_elf_file
process_elf_file-first f file n p at valid num first =
    ap (λ o. elim o [ none ↦ some (err einvarg, f) | some file ↦ process_buffer f file ]) at
    ∙ buffer_first f file n p valid num first

-- A segment lies within the range of a file.
pub record Covers (f : ElfFile) (p : ProgramHeader) : Type 0 where
  pub from_base : f.elf_virtual_addr_base ≤ p.p_vaddr
  pub to_end : p.p_vaddr + p.p_filesz ≤ f.elf_virtual_addr_end

raise_keeps :
    (f : ElfFile) (p : ProgramHeader)
    → (raise_end f p).elf_virtual_addr_base ≡ f.elf_virtual_addr_base
unfolding raise_end
raise_keeps f p = elim (Bool-cases (raises f p)) [ inl y ↦ rw y | inr n ↦ rw n ]

lower_base_lem :
    (f : ElfFile) (p : ProgramHeader) → (lower_base f p).elf_virtual_addr_base ≤ p.p_vaddr
unfolding lower_base
lower_base_lem f p = elim (Bool-cases (lowers f p)) [
  | inl y ↦ rw y (omega arith)
  | inr n ↦ rw n (ground arith)
]

raise_end_lem :
    (f : ElfFile) (p : ProgramHeader)
    → p.p_vaddr + p.p_filesz < 2 ^ 32
    → p.p_vaddr + p.p_filesz ≤ (raise_end f p).elf_virtual_addr_end
unfolding raise_end
raise_end_lem f p h = elim (Bool-cases (raises f p)) [
  | inl y ↦ rw y (omega (arith, h))
  | inr n ↦ rw n (ground arith)
]

-- Processing a loadable program header whose segment ends below 2 ^ 32 makes the range of the
-- file cover the segment.
pub process_pheader-Covers :
    (f : ElfFile) (p : ProgramHeader)
    → p.p_type ≡ pt_load
    → p.p_vaddr + p.p_filesz < 2 ^ 32
    → Covers (process_pheader f p).1 p
unfolding process_pheader process_pheader_pt_load
process_pheader-Covers f p load fits = rw (eq→== p.p_type pt_load load) (record {
  from_base = omega (arith, raise_keeps (lower_base f p) p, lower_base_lem f p);
  to_end = raise_end_lem (lower_base f p) p fits;
})
