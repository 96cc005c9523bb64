-- ===== src/Paging/Init.antt =====
-- `init_page_tables` of src/memory/paging/paging.c: the direct mapping of all addresses.
use mathlib.Core.Path.{subst}
use conifer_os.Common.{
  ℕ, zero, suc, ◌+◌, ◌*◌, ◌%◌, ◌^◌, ◌≤◌, ◌<◌, ◌≡◌, ◌≢◌, refl, ap, sym, ◌∙◌, arith, bit_or,
}
use native.Mathlib.Decide.{ℕ_discrete}
use conifer_os.Paging.Tables.{write_other, write_same}
use conifer_os.Paging.{
  Memory, page_size, table_entries, read_write, write, fill_table, fill_directory,
}

-- The tables that were allocated lie apart from the directory and from each other.
pub record Separate (pgd : ℕ) (ptes : ℕ → ℕ) : Type 0 where
  pub from_pgd : (i j k : ℕ) → i < 1024 → j < 1024 → k < 1024 → ptes i + 4 * j ≢ pgd + 4 * k
  pub from_other :
      (i j i' j' : ℕ)
      → i < 1024
      → j < 1024
      → i' < 1024
      → j' < 1024
      → i ≢ i'
      → ptes i + 4 * j ≢ ptes i' + 4 * j'

-- The entry `b` of a table whose first page has the address `offset`.
abbrev pub entry : ℕ → ℕ → ℕ → ℕ
entry offset flags b = bit_or ((offset + b * page_size) % 2 ^ 32) flags

fill_table-other :
    (n : ℕ) (m : Memory) (pte offset flags b a : ℕ)
    → ((y : ℕ) → b ≤ y → y < b + n → a ≢ pte + 4 * y)
    → fill_table n m pte offset flags b a ≡ m a
unfolding fill_table
fill_table-other zero m pte offset flags b a h = refl
fill_table-other (suc n) m pte offset flags b a h =
    fill_table-other n (write m pte b (entry offset flags b)) pte offset flags (b + 1) a
      (λ y l u. h y (omega arith) (omega arith))
    ∙ write_other m pte b (entry offset flags b) a (h b (omega arith) (omega arith))

fill_table-at :
    (n : ℕ) (m : Memory) (pte offset flags b x : ℕ)
    → b ≤ x
    → x < b + n
    → fill_table n m pte offset flags b (pte + 4 * x) ≡ entry offset flags x
unfolding fill_table
fill_table-at zero m pte offset flags b x l u = absurd (omega arith)
fill_table-at (suc n) m pte offset flags b x l u = elim (ℕ_discrete b x) [
  | yes e ↦
      fill_table-other n (write m pte b (entry offset flags b)) pte offset flags (b + 1)
        (pte + 4 * x) (λ y g w f. omega (arith, f, e))
      ∙ subst (λ z. write m pte b (entry offset flags b) (pte + 4 * z) ≡ entry offset flags z) e
          (write_same m pte b (entry offset flags b))
  | no e ↦
      fill_table-at n (write m pte b (entry offset flags b)) pte offset flags (b + 1) x
        (omega (arith, e)) (omega arith)
]

-- The address that the first entry of the table `i` leads to.
abbrev pub start : ℕ → ℕ
start i = i * (table_entries * page_size) % 2 ^ 32

module _ (pgd : ℕ) (ptes : ℕ → ℕ) (flags : ℕ) (separate : Separate pgd ptes) where
  fill_directory-other :
      (n : ℕ) (m : Memory) (offset i a : ℕ)
      → ((x : ℕ) → i ≤ x → x < i + n → a ≢ pgd + 4 * x)
      → ((x y : ℕ) → i ≤ x → x < i + n → y < 1024 → a ≢ ptes x + 4 * y)
      → fill_directory n m pgd ptes offset flags i a ≡ m a
  unfolding fill_directory
  fill_directory-other zero m offset i a h t = refl
  fill_directory-other (suc n) m offset i a h t =
      let filled = fill_table table_entries m (ptes i) offset flags 0 in
      let written = write filled pgd i (bit_or (bit_or (ptes i) flags) read_write) in
      fill_directory-other n written ((offset + table_entries * page_size) % 2 ^ 32) (i + 1) a
        (λ x l u. h x (omega arith) (omega arith)) (λ x y l u. t x y (omega arith) (omega arith))
      ∙ write_other filled pgd i (bit_or (bit_or (ptes i) flags) read_write) a
          (h i (omega arith) (omega arith))
      ∙ fill_table-other table_entries m (ptes i) offset flags 0 a
          (λ y l u. t i y (omega arith) (omega arith) u)

  pub fill_directory-pgd :
      (n : ℕ) (m : Memory) (offset i x : ℕ)
      → i + n ≤ 1024
      → i ≤ x
      → x < i + n
      → fill_directory n m pgd ptes offset flags i (pgd + 4 * x)
        ≡ bit_or (bit_or (ptes x) flags) read_write
  unfolding fill_directory
  fill_directory-pgd zero m offset i x c l u = absurd (omega arith)
  fill_directory-pgd (suc n) m offset i x c l u =
      let filled = fill_table table_entries m (ptes i) offset flags 0 in
      let written = write filled pgd i (bit_or (bit_or (ptes i) flags) read_write) in
      let next = (offset + table_entries * page_size) % 2 ^ 32 in
      elim (ℕ_discrete i x) [
        | yes e ↦
            fill_directory-other n written next (i + 1) (pgd + 4 * x)
              (λ z g w f. omega (arith, f, e))
              (λ z y g w b f. separate.from_pgd z y x (omega arith) b (omega arith) (sym f))
            ∙ subst (λ z. written (pgd + 4 * z) ≡ bit_or (bit_or (ptes z) flags) read_write) e
                (write_same filled pgd i (bit_or (bit_or (ptes i) flags) read_write))
        | no e ↦
            fill_directory-pgd n written next (i + 1) x (omega arith) (omega (arith, e))
              (omega arith)
      ]

  pub fill_directory-table :
      (n : ℕ) (m : Memory) (offset i x b : ℕ)
      → i + n ≤ 1024
      → offset ≡ start i
      → i ≤ x
      → x < i + n
      → b < 1024
      → fill_directory n m pgd ptes offset flags i (ptes x + 4 * b) ≡ entry (start x) flags b
  unfolding fill_directory
  fill_directory-table zero m offset i x b c o l u s = absurd (omega arith)
  fill_directory-table (suc n) m offset i x b c o l u s =
      let filled = fill_table table_entries m (ptes i) offset flags 0 in
      let value = bit_or (bit_or (ptes i) flags) read_write in
      let written = write filled pgd i value in
      let next = (offset + table_entries * page_size) % 2 ^ 32 in
      elim (ℕ_discrete i x) [
        | yes e ↦
            fill_directory-other n written next (i + 1) (ptes x + 4 * b)
              (λ z g w. separate.from_pgd x b z (omega arith) s (omega arith))
              (λ z y g w t.
                separate.from_other x b z y (omega arith) s (omega arith) t
                  (λ f. omega (arith, f, e, g)))
            ∙ subst (λ z. written (ptes z + 4 * b) ≡ entry (start z) flags b) e
                (write_other filled pgd i value (ptes i + 4 * b)
                    (separate.from_pgd i b i (omega arith) s (omega arith))
                  ∙ fill_table-at table_entries m (ptes i) offset flags 0 b (omega arith)
                      (omega arith)
                  ∙ ap (λ z. entry z flags b) o)
        | no e ↦
            fill_directory-table n written next (i + 1) x b (omega arith) (omega (arith, o))
              (omega (arith, e)) (omega arith) s
      ]
