-- ===== src/Loading/Mapping.antt =====
-- The mapping of a process succeeds where its parts fit into the address space.
use conifer_os.Common.{
  ℕ, zero, suc, ◌+◌, ◌-◌, ◌*◌, ◌/◌, ◌%◌, ◌^◌, ◌≤◌, ◌<◌, ◌≡◌, ◌≢◌, refl, ap, ◌∙◌, arith, some, List,
  ne→==, Result, Errno, ok, err,
}
use native.Mathlib.Decide.{ℕ_discrete}
use conifer_os.Elf.{word, e_phoff, e_phnum}
use conifer_os.Paging.{Memory, page_size, create_mapping, align_address, align_to_lower_page}
use conifer_os.Paging.Align.{align_address_lem, align_to_lower_page_lem}
use conifer_os.Paging.Range.{create_mapping-Mapped}
use conifer_os.Paging.Tables.{Apart}
use conifer_os.Processes.{user_writable}
use conifer_os.Loading.{
  Image, binary, elf, task_stack_size, task_stack_virt_addr_end, command_line_arg_virtual_addr,
  task_load_virtual_address, len_arg_block, process_map_task_binary, segment_flags, map_segment,
  map_segments, process_map_task_elf, map_image, map_stack, map_arg_block, process_map_task_memory,
}

pub elim_ok :
    {B : Type 0} (r : Result ℕ) (f : Errno → B) (g : ℕ → B)
    → r ≡ ok 0
    → elim r as (λ _. B) [ err e ↦ f e | ok c ↦ g c ] ≡ g 0
elim_ok {B = B} r f g e = ap (λ x. elim x as (λ _. B) [ err e ↦ f e | ok c ↦ g c ]) e

-- A mapping that succeeds and leaves the tables apart.
Fine : Result ℕ × Memory → ℕ → Type 0
Fine r pgd = (r.0 ≡ ok 0) × Apart r.1 pgd

create_mapping-Fine :
    (m : Memory) (pgd v p q flags : ℕ)
    → Apart m pgd
    → v % page_size ≡ 0
    → p % page_size ≡ 0
    → p ≤ q
    → q + page_size < 2 ^ 32
    → v + (q - p) + page_size ≤ 2 ^ 32
    → Fine (create_mapping m pgd v p (align_address (q % 2 ^ 32)) flags) pgd
unfolding Fine
create_mapping-Fine m pgd v p q flags apart a b le small fits =
    let e : align_address (q % 2 ^ 32) ≡ (q + 4095) / page_size * page_size =
      omega (arith, align_address_lem (q % 2 ^ 32) (omega arith), small) in
    let made =
      create_mapping-Mapped m pgd v p (align_address (q % 2 ^ 32)) flags apart
        (record {
          virt_aligned = a;
          phys_aligned = b;
          end_aligned = omega (arith, e);
          ordered = omega (arith, e, le);
        })
        (omega (arith, e, small)) (omega (arith, e, le, fits)) in
    (made.0, made.1.apart)

-- The fields of a program header for a segment that ends before the last page.
pub record SegmentFits (file : List ℕ) (buffer phdr : ℕ) : Type 0 where
  pub p_offset : ℕ
  pub p_vaddr : ℕ
  pub p_memsz : ℕ
  pub p_flags : ℕ
  pub has_offset : word file (phdr + 4) ≡ some p_offset
  pub has_vaddr : word file (phdr + 8) ≡ some p_vaddr
  pub has_memsz : word file (phdr + 20) ≡ some p_memsz
  pub has_flags : word file (phdr + 24) ≡ some p_flags
  pub phys : buffer + p_offset + p_memsz + page_size < 2 ^ 32
  pub virt : p_vaddr + p_memsz + 3 * page_size ≤ 2 ^ 32

abbrev pub SegmentsFit : ℕ → List ℕ → ℕ → ℕ → Type 0
SegmentsFit zero file buffer phdr = Unit
SegmentsFit (suc n) file buffer phdr =
    SegmentFits file buffer phdr × SegmentsFit n file buffer (phdr + 32)

-- A program that can be mapped: a binary at a page, or an ELF file with a program header table.
abbrev pub Fits : Image → Type 0
Fits (binary ptr size) =
    (ptr % page_size ≡ 0) × (ptr + size + page_size < 2 ^ 32) × (size + 0x401000 ≤ 2 ^ 32)
Fits (elf file buffer) =
    (o : ℕ) × ((n : ℕ) × (e_phoff file ≡ some o)
      × (e_phnum file ≡ some n)
      × (o ≢ 0)
      × SegmentsFit n file buffer o)

map_segment-Fine :
    (m : Memory) (pgd p_vaddr phys p_memsz p_flags : ℕ)
    → Apart m pgd
    → phys + p_memsz + page_size < 2 ^ 32
    → p_vaddr + p_memsz + 3 * page_size ≤ 2 ^ 32
    → Fine (map_segment m pgd p_vaddr phys p_memsz p_flags) pgd
unfolding map_segment
map_segment-Fine m pgd p_vaddr phys p_memsz p_flags apart small fits =
    let v = align_to_lower_page_lem p_vaddr in
    let p = align_to_lower_page_lem phys in
    create_mapping-Fine m pgd (align_to_lower_page p_vaddr) (align_to_lower_page phys)
      (phys + p_memsz) (segment_flags p_flags) apart (omega (arith, v)) (omega (arith, p))
      (omega (arith, p)) small (omega (arith, v, p, fits))

map_segments-ok :
    (n : ℕ) (m : Memory) (pgd : ℕ) (file : List ℕ) (buffer phdr : ℕ)
    → Apart m pgd
    → SegmentsFit n file buffer phdr
    → (m' : Memory) × (map_segments n m pgd file buffer phdr ≡ some (ok 0, m'))
unfolding map_segments Fine
map_segments-ok zero m pgd file buffer phdr apart h = (m, refl)
map_segments-ok (suc n) m pgd file buffer phdr apart (s, rest) =
    let phys : (buffer + s.p_offset) % 2 ^ 32 ≡ buffer + s.p_offset = omega (arith, s.phys) in
    let mapped = map_segment m pgd s.p_vaddr ((buffer + s.p_offset) % 2 ^ 32) s.p_memsz s.p_flags in
    let (done, apart') =
      map_segment-Fine m pgd s.p_vaddr ((buffer + s.p_offset) % 2 ^ 32) s.p_memsz s.p_flags apart
        (omega (arith, phys, s.phys)) s.virt in
    let (m', e) = map_segments-ok n mapped.1 pgd file buffer (phdr + 32) apart' rest in
    (m', rw (s.has_offset, s.has_vaddr, s.has_memsz, s.has_flags) (elim_ok mapped.0 _ _ done ∙ e))

map_image-ok :
    (m : Memory) (pgd : ℕ) (image : Image)
    → Apart m pgd
    → Fits image
    → (m' : Memory) × (map_image m pgd image ≡ some (ok 0, m'))
unfolding map_image process_map_task_binary process_map_task_elf Fine map_segments
map_image-ok m pgd (binary ptr size) apart (page, small, fits) =
    let (done, apart') =
      create_mapping-Fine m pgd task_load_virtual_address ptr (ptr + size) user_writable apart refl
        page (omega arith) small (omega (arith, fits)) in
    (
      (process_map_task_binary m pgd ptr size).1,
      ap (λ r. some (r, (process_map_task_binary m pgd ptr size).1)) done,
    )
map_image-ok m pgd (elf file buffer) apart (o, (n, e, f, ne, h)) = elim (ℕ_discrete n 0) [
  | yes z ↦ (m, rw (e, f, z) refl)
  | no nz ↦
      let (m', g) = map_segments-ok n m pgd file buffer o apart h in
      (m', rw (e, f, ne→== n 0 nz, ne→== o 0 ne) g)
]

pub process_map_task_memory-ok :
    (m : Memory) (pgd stack_addr arg_block : ℕ) (image : Image)
    → Apart m pgd
    → stack_addr % page_size ≡ 0
    → arg_block % page_size ≡ 0
    → stack_addr + 5 * page_size < 2 ^ 32
    → arg_block + 2 * page_size < 2 ^ 32
    → Fits image
    → (m' : Memory) × (process_map_task_memory m pgd stack_addr arg_block image ≡ some (ok 0, m'))
unfolding process_map_task_memory map_stack map_arg_block Fine
process_map_task_memory-ok m pgd stack_addr arg_block image apart a b s t fits =
    let (stack, apart1) =
      create_mapping-Fine m pgd task_stack_virt_addr_end stack_addr (stack_addr + task_stack_size)
        user_writable apart refl a (omega arith) (omega (arith, s)) (omega arith) in
    let m1 = (map_stack m pgd stack_addr).1 in
    let (args, apart2) =
      create_mapping-Fine m1 pgd command_line_arg_virtual_addr arg_block (arg_block + len_arg_block)
        user_writable apart1 refl b (omega arith) (omega (arith, t)) (omega arith) in
    let (m', e) = map_image-ok (map_arg_block m1 pgd arg_block).1 pgd image apart2 fits in
    (
      m',
      elim_ok (map_stack m pgd stack_addr).0 _ _ stack
          ∙ elim_ok (map_arg_block m1 pgd arg_block).0 _ _ args
          ∙ e,
    )
