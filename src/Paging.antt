-- ===== src/Paging.antt =====
-- src/memory/paging/paging.c: page directories and page tables. The memory is a function from
-- addresses to 32-bit words; a pointer is the address of its first word.
pub mod Tables
pub mod Range
pub mod Masks
pub mod Physical
pub mod Align
pub mod Init
pub mod Direct
use conifer_os.Common.{
  ℕ, zero, suc, ◌+◌, ◌-◌, ◌*◌, ◌/◌, ◌%◌, ◌^◌, Bool, not, ◌&&◌, ◌||◌, List, [], ◌∷◌, ◌++◌, bit_and,
  bit_or, ltb, ◌==◌, if◌then◌else◌, einvarg, Result, ok, err,
}

-- PAGING_DIR_ENTRIES
abbrev pub dir_entries : ℕ
dir_entries = 1024

-- PAGING_TABLE_ENTRIES
abbrev pub table_entries : ℕ
table_entries = 1024

-- PAGING_PAGE_SIZE
abbrev pub page_size : ℕ
page_size = 4096

-- PAGING_READ_WRITE
abbrev pub read_write : ℕ
read_write = 0b00000010

-- PGD_ENTRY_TABLE_ADDR
abbrev pub entry_table_addr : ℕ
entry_table_addr = 0xfffff000

abbrev pub Memory : Type 0
Memory = ℕ → ℕ

-- `p[i]` of a `uint32_t *`
abbrev pub load : Memory → ℕ → ℕ → ℕ
load m p i = m (p + 4 * i)

-- `p[i] = v`
unfoldable pub write : Memory → ℕ → ℕ → ℕ → Memory
write m p i v a = if a == p + 4 * i then v else m a

unfoldable pub is_aligned : ℕ → Bool
is_aligned addr = addr % page_size == 0

-- The index into the directory and the index into the table.
unfoldable pub get_indexes : ℕ → Result (ℕ × ℕ)
unfolding is_aligned
get_indexes virtual_address =
    if is_aligned virtual_address
    then ok (
      virtual_address / (table_entries * page_size),
      virtual_address % (table_entries * page_size) / page_size,
    )
    else err einvarg

-- The address of the table that a directory entry leads to.
unfoldable pub table_at : Memory → ℕ → ℕ → ℕ
table_at m pgd i = bit_and (load m pgd i) entry_table_addr

unfoldable pub set_entry : Memory → ℕ → ℕ → ℕ → Result ℕ × Memory
unfolding get_indexes table_at
set_entry m pgd virtual_address val = elim (get_indexes virtual_address) [
  | err e ↦ (err e, m)
  | ok is ↦ (ok 0, write m (table_at m pgd is.0) is.1 val)
]

-- The loop of `paging_map_range`. The copies of the addresses wrap like pointers.
unfoldable pub map_loop : ℕ → Memory → ℕ → ℕ → ℕ → ℕ → Result ℕ × Memory
map_loop zero m pgd virt phys pg_prot = (ok 0, m)
map_loop (suc num_pages) m pgd virt phys pg_prot =
    let r = set_entry m pgd virt (bit_or phys pg_prot) in
    let rest =
      map_loop num_pages r.1 pgd ((virt + page_size) % 2 ^ 32) ((phys + page_size) % 2 ^ 32)
        pg_prot in
    elim r.0 [ err e ↦ r | ok z ↦ rest ]

unfoldable pub map_range : Memory → ℕ → ℕ → ℕ → ℕ → ℕ → Result ℕ × Memory
map_range m pgd virt_addr phys_addr num_pages pg_prot =
    if not (is_aligned virt_addr) || not (is_aligned phys_addr)
    then (err einvarg, m)
    else map_loop num_pages m pgd virt_addr phys_addr pg_prot

unfoldable pub create_mapping : Memory → ℕ → ℕ → ℕ → ℕ → ℕ → Result ℕ × Memory
create_mapping m pgd virt_addr phys_addr phys_end_addr pg_prot =
    if not (is_aligned virt_addr) || not (is_aligned phys_addr) || not (is_aligned phys_end_addr)
    then (err einvarg, m)
    else if ltb phys_end_addr phys_addr
    then (err einvarg, m)
    else map_range m pgd virt_addr phys_addr ((phys_end_addr - phys_addr) / page_size) pg_prot

unfoldable pub align_address : ℕ → ℕ
align_address addr =
    if is_aligned addr then addr else (addr + page_size - addr % page_size) % 2 ^ 32

unfoldable pub align_to_lower_page : ℕ → ℕ
align_to_lower_page addr = if is_aligned addr then addr else addr - addr % page_size

-- -EINVARG is returned as a `uint32_t`.
unfoldable pub get_pte : Memory → ℕ → ℕ → ℕ
get_pte m pgd virt_addr = elim (get_indexes virt_addr) [
  | err e ↦ 2 ^ 32 - 2
  | ok is ↦ load m (table_at m pgd is.0) is.1
]

unfoldable pub get_physical_address : Memory → ℕ → ℕ → ℕ
get_physical_address m pgd virt_addr =
    let aligned = align_to_lower_page virt_addr in
    (bit_and (get_pte m pgd aligned) 0xfffff000 + (virt_addr - aligned)) % 2 ^ 32

-- The addresses that `free_page_tables` passes to `kfree` for the tables of the entries from `i` on:
-- the entry times the mask.
unfoldable pub freed_tables : ℕ → Memory → ℕ → ℕ → List ℕ
freed_tables zero m pgd i = []
freed_tables (suc n) m pgd i =
    load m pgd i * entry_table_addr % 2 ^ 32 ∷ freed_tables n m pgd (i + 1)

-- `pgd` is the field of the descriptor at `paging`.
unfoldable pub free_page_tables : Memory → ℕ → ℕ → List ℕ
free_page_tables m paging pgd = freed_tables dir_entries m pgd 0 ++ (pgd ∷ paging ∷ [])

-- The inner loop of `init_page_tables`: `n` entries of the table `pte` from the entry `b` on. The
-- offset wraps.
unfoldable pub fill_table : ℕ → Memory → ℕ → ℕ → ℕ → ℕ → Memory
fill_table zero m pte offset flags b = m
fill_table (suc n) m pte offset flags b =
    fill_table n (write m pte b (bit_or ((offset + b * page_size) % 2 ^ 32) flags)) pte offset flags
      (b + 1)

-- The outer loop: `n` entries of the directory from the entry `i` on. `ptes` are the addresses that
-- `kzalloc` returns for the tables.
unfoldable pub fill_directory : ℕ → Memory → ℕ → (ℕ → ℕ) → ℕ → ℕ → ℕ → Memory
unfolding fill_table
fill_directory zero m pgd ptes offset flags i = m
fill_directory (suc n) m pgd ptes offset flags i =
    fill_directory n
      (write (fill_table table_entries m (ptes i) offset flags 0) pgd i
        (bit_or (bit_or (ptes i) flags) read_write))
      pgd ptes ((offset + table_entries * page_size) % 2 ^ 32) flags (i + 1)

-- `pgd` is the address that `kzalloc` returns for the directory, which is returned in a new
-- `struct paging_desc`. No allocation fails.
unfoldable pub init_page_tables : Memory → ℕ → (ℕ → ℕ) → ℕ → Memory
unfolding fill_directory
init_page_tables m pgd ptes flags = fill_directory dir_entries m pgd ptes 0 flags 0
