-- ===== src/Paging/Direct.antt =====
-- The addresses after `init_page_tables` of src/memory/paging/paging.c.
use conifer_os.Common.{ℕ, ◌+◌, ◌*◌, ◌/◌, ◌%◌, ◌^◌, ◌<◌, ◌≡◌, ap, ◌∙◌, refl, arith, bit_and, bit_or}
use conifer_os.Paging.{
  Memory, page_size, dir_entries, read_write, table_at, get_pte, get_physical_address,
  init_page_tables,
}
use conifer_os.Paging.Tables.{Apart, IsPage, dir_of, index_of, get_pte_lem}
use conifer_os.Paging.Init.{Separate, fill_directory-pgd, fill_directory-table}
use conifer_os.Paging.Physical.{physical}
use conifer_os.Paging.Masks.{frame_of_flags}

-- Each page has the entry of the frame with its own address, and each address is its own.
pub record IsDirect (m : Memory) (pgd flags : ℕ) : Type 0 where
  pub apart : Apart m pgd
  pub entries : (v : ℕ) → IsPage v → get_pte m pgd v ≡ bit_or v flags
  pub addresses : (a : ℕ) → a < 2 ^ 32 → get_physical_address m pgd a ≡ a

-- Where `kzalloc` returns the tables.
pub record Tables (pgd : ℕ) (ptes : ℕ → ℕ) : Type 0 where
  pub separate : Separate pgd ptes
  pub aligned : (i : ℕ) → i < 1024 → ptes i % page_size ≡ 0
  pub bound : (i : ℕ) → i < 1024 → ptes i < 2 ^ 32

module _ (m : Memory) (pgd : ℕ) (ptes : ℕ → ℕ) (flags : ℕ) (tables : Tables pgd ptes)
    (small : flags < 256) where
  table_at-init_page_tables :
      (i : ℕ) → i < 1024 → table_at (init_page_tables m pgd ptes flags) pgd i ≡ ptes i
  unfolding table_at init_page_tables
  table_at-init_page_tables i h =
      ap (λ w. bit_and w 0xfffff000)
        (fill_directory-pgd pgd ptes flags tables.separate dir_entries m 0 0 i (omega arith)
          (omega arith) (omega (arith, h)))
      ∙ frame_of_flags (ptes i) flags read_write (tables.aligned i h) (tables.bound i h)
          (omega (arith, small)) (omega arith)

  init_page_tables-Apart : Apart (init_page_tables m pgd ptes flags) pgd
  init_page_tables-Apart = record {
    from_pgd =
        λ i j k a b c. rw (table_at-init_page_tables i a) (tables.separate.from_pgd i j k a b c);
    from_other = λ i j i' j' a b c d ne.
        rw (table_at-init_page_tables i a, table_at-init_page_tables i' c)
          (tables.separate.from_other i j i' j' a b c d ne);
  }

  get_pte-init_page_tables :
      (v : ℕ) → IsPage v → get_pte (init_page_tables m pgd ptes flags) pgd v ≡ bit_or v flags
  unfolding init_page_tables
  get_pte-init_page_tables v p =
      let low : dir_of v < 1024 = omega (arith, p.bound) in
      let made = init_page_tables m pgd ptes flags in
      get_pte_lem made pgd v p
      ∙ ap (λ t. made (t + 4 * index_of v)) (table_at-init_page_tables (dir_of v) low)
      ∙ fill_directory-table pgd ptes flags tables.separate dir_entries m 0 0 (dir_of v)
          (index_of v) (omega arith) refl (omega arith) (omega (arith, low)) (omega arith)
      ∙ ap (λ z. bit_or z flags) (omega (arith, p.aligned, p.bound))

  get_physical_address-init_page_tables :
      (a : ℕ) → a < 2 ^ 32 → get_physical_address (init_page_tables m pgd ptes flags) pgd a ≡ a
  get_physical_address-init_page_tables a h =
      let page : IsPage (a / page_size * page_size) = record {
        aligned = omega arith;
        bound = omega (arith, h);
      } in
      physical (init_page_tables m pgd ptes flags) pgd a (a / page_size * page_size) flags
        (get_pte-init_page_tables (a / page_size * page_size) page) (omega arith) (omega (arith, h))
        (omega (arith, small))
      ∙ omega arith

  -- Where the tables that are allocated lie at pages below 2 ^ 32, apart from the directory and
  -- from each other, and the flags are a byte, init_page_tables makes a directory whose tables
  -- lie apart, in which the entry of each page is its own address with the flags, and
  -- paging_get_physical_address takes each address below 2 ^ 32 to itself.
  pub init_page_tables-IsDirect : IsDirect (init_page_tables m pgd ptes flags) pgd flags
  init_page_tables-IsDirect = record {
    apart = init_page_tables-Apart;
    entries = get_pte-init_page_tables;
    addresses = get_physical_address-init_page_tables;
  }
