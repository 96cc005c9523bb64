-- ===== src/Paging/Tables.antt =====
-- `paging_set` and `paging_get_pte` of src/memory/paging/paging.c as the two halves of a map from pages.
use conifer_os.Common.{
  ℕ, ◌+◌, ◌*◌, ◌/◌, ◌%◌, ◌^◌, ◌<◌, ◌≡◌, ◌≢◌, refl, ap, sym, ◌∙◌, arith, eq→==, ne→==, bit_and, ok,
}
use native.Mathlib.Decide.{ℕ_discrete}
use conifer_os.Paging.{
  Memory, page_size, table_entries, write, table_at, get_indexes, set_entry, get_pte,
}

-- The tables of a directory lie apart from it and from each other.
pub record Apart (m : Memory) (pgd : ℕ) : Type 0 where
  pub from_pgd :
      (i j k : ℕ) → i < 1024 → j < 1024 → k < 1024 → table_at m pgd i + 4 * j ≢ pgd + 4 * k
  pub from_other :
      (i j i' j' : ℕ)
      → i < 1024
      → j < 1024
      → i' < 1024
      → j' < 1024
      → i ≢ i'
      → table_at m pgd i + 4 * j ≢ table_at m pgd i' + 4 * j'

-- The address of a page.
pub record IsPage (v : ℕ) : Type 0 where
  pub aligned : v % page_size ≡ 0
  pub bound : v < 2 ^ 32

abbrev pub dir_of : ℕ → ℕ
dir_of v = v / (table_entries * page_size)

abbrev pub index_of : ℕ → ℕ
index_of v = v % (table_entries * page_size) / page_size

get_indexes_lem : (v : ℕ) → IsPage v → get_indexes v ≡ ok (dir_of v, index_of v)
unfolding get_indexes
get_indexes_lem v p = rw (eq→== _ _ p.aligned)

dir_bound : (v : ℕ) → IsPage v → dir_of v < 1024
dir_bound v p = omega (arith, p.bound)

index_bound : (v : ℕ) → index_of v < 1024
index_bound v = omega arith

-- The word that holds the entry of a page.
abbrev slot : Memory → ℕ → ℕ → ℕ
slot m pgd v = table_at m pgd (dir_of v) + 4 * index_of v

-- The memory after `paging_set`.
abbrev pub after_set : Memory → ℕ → ℕ → ℕ → Memory
after_set m pgd v val = write m (table_at m pgd (dir_of v)) (index_of v) val

pub set_entry_lem :
    (m : Memory) (pgd v val : ℕ) → IsPage v → set_entry m pgd v val ≡ (ok 0, after_set m pgd v val)
unfolding set_entry
set_entry_lem m pgd v val p = rw (get_indexes_lem v p, set_entry)

pub get_pte_lem : (m : Memory) (pgd v : ℕ) → IsPage v → get_pte m pgd v ≡ m (slot m pgd v)
unfolding get_pte
get_pte_lem m pgd v p = rw (get_indexes_lem v p, get_pte)

pub write_other : (m : Memory) (p i v a : ℕ) → a ≢ p + 4 * i → write m p i v a ≡ m a
unfolding write
write_other m p i v a h = rw (ne→== a (p + 4 * i) h)

pub write_same : (m : Memory) (p i v : ℕ) → write m p i v (p + 4 * i) ≡ v
unfolding write
write_same m p i v = rw (eq→== (p + 4 * i) (p + 4 * i) refl)

module _ (m : Memory) (pgd v val : ℕ) (apart : Apart m pgd) (page : IsPage v) where
  -- The directory stays as it is.
  pub table_at-after_set :
      (i : ℕ) → i < 1024 → table_at (after_set m pgd v val) pgd i ≡ table_at m pgd i
  unfolding table_at
  table_at-after_set i h =
      ap (λ w. bit_and w 0xfffff000)
        (write_other m (table_at m pgd (dir_of v)) (index_of v) val (pgd + 4 * i) (λ e.
          apart.from_pgd (dir_of v) (index_of v) i (dir_bound v page) (index_bound v) h (sym e)))

  pub after_set-Apart : Apart (after_set m pgd v val) pgd
  after_set-Apart = record {
    from_pgd = λ i j k a b c. rw (table_at-after_set i a) (apart.from_pgd i j k a b c);
    from_other = λ i j i' j' a b c d ne.
        rw (table_at-after_set i a, table_at-after_set i' c)
          (apart.from_other i j i' j' a b c d ne);
  }

  slot-ne : (u : ℕ) → IsPage u → u ≢ v → slot m pgd u ≢ slot m pgd v
  slot-ne u q ne e = elim (ℕ_discrete (dir_of u) (dir_of v)) [
    | yes same ↦
        let t : table_at m pgd (dir_of u) ≡ table_at m pgd (dir_of v) = ap (table_at m pgd) same in
        ne (omega (arith, e, t, same, q.aligned, page.aligned))
    | no other ↦
        apart.from_other (dir_of u) (index_of u) (dir_of v) (index_of v) (dir_bound u q)
          (index_bound u) (dir_bound v page) (index_bound v) other e
  ]

  -- Where the tables of a directory lie apart, after paging_set of a page paging_get_pte returns
  -- the entry that was set for that page.
  pub get_pte-set_entry : get_pte (set_entry m pgd v val).1 pgd v ≡ val
  get_pte-set_entry =
      ap (λ r. get_pte r.1 pgd v) (set_entry_lem m pgd v val page)
      ∙ get_pte_lem (after_set m pgd v val) pgd v page
      ∙ ap (λ t. after_set m pgd v val (t + 4 * index_of v))
          (table_at-after_set (dir_of v) (dir_bound v page))
      ∙ write_same m (table_at m pgd (dir_of v)) (index_of v) val

  -- Where the tables of a directory lie apart, after paging_set of a page paging_get_pte returns
  -- what it did before for every other page.
  pub get_pte-set_other :
      (u : ℕ) → IsPage u → u ≢ v → get_pte (set_entry m pgd v val).1 pgd u ≡ get_pte m pgd u
  get_pte-set_other u q ne =
      ap (λ r. get_pte r.1 pgd u) (set_entry_lem m pgd v val page)
      ∙ get_pte_lem (after_set m pgd v val) pgd u q
      ∙ ap (λ t. after_set m pgd v val (t + 4 * index_of u))
          (table_at-after_set (dir_of u) (dir_bound u q))
      ∙ write_other m (table_at m pgd (dir_of v)) (index_of v) val (slot m pgd u) (slot-ne u q ne)
      ∙ sym (get_pte_lem m pgd u q)
