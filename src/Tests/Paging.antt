-- ===== src/Tests/Paging.antt =====
-- src/memory/paging/paging.c on a directory at 4 MiB whose tables lie from 8 MiB on.
use conifer_os.Common.{ℕ, ◌+◌, ◌-◌, ◌*◌, ◌<◌, ◌≡◌, refl, ◌∙◌, arith, bit_or}
use conifer_os.Paging.{Memory, table_at, map_range, get_physical_address, init_page_tables}
use conifer_os.Paging.Tables.{Apart, IsPage}
use conifer_os.Paging.Range.{Accepts}
use conifer_os.Paging.Physical.{get_physical_address-map_range}
use conifer_os.Paging.Masks.{frame_of_entry}
use conifer_os.Paging.Direct.{IsDirect, Tables, init_page_tables-IsDirect}

abbrev pgd : ℕ
pgd = 0x400000

-- The entry at `pgd + 4 * i` leads to the table at 8 MiB + 4096 * i, with the flags 7.
abbrev memory : Memory
memory a = bit_or ((a - pgd) * 1024 + 0x800000) 7

table_lem : (i : ℕ) → i < 1024 → table_at memory pgd i ≡ 4096 * i + 0x800000
unfolding table_at
table_lem i h =
    frame_of_entry ((pgd + 4 * i - pgd) * 1024 + 0x800000) 7 (omega arith) (omega (arith, h))
      (omega arith)
    ∙ omega arith

memory-Apart : Apart memory pgd
memory-Apart = record {
  from_pgd = λ i j k a b c. rw (table_lem i a) (omega (arith, c));
  from_other = λ i j i' j' a b c d ne. rw (table_lem i a, table_lem i' c) (omega (arith, b, d, ne));
}

abbrev page : ℕ
page = 0x401000

page-IsPage : IsPage page
page-IsPage = record { aligned = refl; bound = omega arith }

next-IsPage : IsPage 0x402000
next-IsPage = record { aligned = refl; bound = omega arith }

program-Accepts : Accepts page 0x900000 0x903000
program-Accepts = record {
  virt_aligned = refl;
  phys_aligned = refl;
  end_aligned = refl;
  ordered = omega arith;
}

get_physical_address-map_range_example :
    get_physical_address (map_range memory pgd page 0x900000 3 7).1 pgd (page + 5000)
    ≡ 0x900000 + 5000
get_physical_address-map_range_example =
    get_physical_address-map_range 3 memory pgd page 0x900000 7 5000 memory-Apart refl refl
      (omega arith) (omega arith) (omega arith) (omega arith)

abbrev tables : ℕ → ℕ
tables i = 0x800000 + 4096 * i

tables-Tables : Tables pgd tables
tables-Tables = record {
  separate = record {
    from_pgd = λ i j k a b c. omega (arith, c);
    from_other = λ i j i' j' a b c d ne e. ne (omega (arith, b, d, e));
  };
  aligned = λ i h. omega arith;
  bound = λ i h. omega (arith, h);
}

init_page_tables-IsDirect_example : IsDirect (init_page_tables (λ a. 0) pgd tables 7) pgd 7
init_page_tables-IsDirect_example =
    init_page_tables-IsDirect (λ a. 0) pgd tables 7 tables-Tables (omega arith)
