-- ===== src/Heap/Create.antt =====
-- `heap_create`: what it accepts, and that an accepted heap is one row of free blocks.
use conifer_os.Common.{
  ℕ, ◌+◌, ◌-◌, ◌*◌, ◌/◌, ◌%◌, ◌^◌, ◌≤◌, ◌<◌, ◌≡◌, refl, ap, sym, ◌∙◌, inl, inr, some, List, [], ◌∷◌,
  arith, ◌==◌, ==_iff, length, replicate, ok, err, einvarg, Bool-cases, eq→==, length-replicate,
}
use conifer_os.Heap.{
  HeapDesc, HeapEntryTable, heap_block_size, entry_free, valid_alignment, valid_table,
  clear_entries, create,
}
use conifer_os.Heap.Blocks.{gaps, encode, encode-gaps}
use conifer_os.Heap.Alloc.{Holds}

clear_entries_lem :
    (es : List ℕ) → clear_entries (length es) es ≡ some (replicate (length es) entry_free)
unfolding clear_entries
clear_entries_lem [] = refl
clear_entries_lem (e ∷ es) = rw (clear_entries_lem es)

-- The arguments that `heap_create` accepts: aligned bounds, and a table with an entry for each block.
pub record Accepts (start_addr end_addr : ℕ) (table : HeapEntryTable) : Type 0 where
  pub start_aligned : start_addr % heap_block_size ≡ 0
  pub end_aligned : end_addr % heap_block_size ≡ 0
  pub entries : (end_addr + 2 ^ 32 - start_addr) % 2 ^ 32 / heap_block_size ≡ table.total_entries

-- The descriptor of a heap of free blocks only.
abbrev pub fresh : ℕ → ℕ → HeapDesc
fresh start_addr n = record {
  start_addr = start_addr;
  table = record { entries = encode (gaps n); total_entries = n };
}

module _ (heap : HeapDesc) (start_addr end_addr : ℕ) (table : HeapEntryTable)
    (array : table.total_entries ≡ length table.entries) where
  -- With a table that is an array of as many entries as it says, heap_create succeeds on aligned
  -- bounds with an entry for each block between them, and leaves all blocks free.
  pub create-ok :
      Accepts start_addr end_addr table
      → create heap start_addr end_addr table ≡ some (ok 0, fresh start_addr table.total_entries)
  unfolding create valid_alignment valid_table
  create-ok acc =
      let cleared : clear_entries table.total_entries table.entries
          ≡ some (encode (gaps table.total_entries)) =
        rw array
          (clear_entries_lem table.entries ∙ ap some (sym (encode-gaps (length table.entries)))) in
      rw (eq→== _ _ acc.start_aligned, eq→== _ _ acc.end_aligned, eq→== _ _ acc.entries, cleared)

  -- With such a table heap_create returns -EINVARG on bounds that are not aligned or that do not
  -- agree with the number of entries.
  pub create_err :
      (Accepts start_addr end_addr table → ⊥)
      → (heap' : HeapDesc) × (create heap start_addr end_addr table ≡ some (err einvarg, heap'))
  unfolding create valid_alignment valid_table
  create_err other = elim (Bool-cases (start_addr % heap_block_size == 0)) [
    | inr s ↦ (heap, rw s)
    | inl s ↦ elim (Bool-cases (end_addr % heap_block_size == 0)) [
      | inr e ↦ (heap, rw (s, e))
      | inl e ↦
          elim (Bool-cases
            ((end_addr + 2 ^ 32 - start_addr) % 2 ^ 32 / heap_block_size == table.total_entries)) [
              | inr t ↦ (record { table = table; start_addr = start_addr }, rw (s, e, t))
              | inl t ↦ absurd (
                  other (record {
                    start_aligned = (==_iff _ _).0 s;
                    end_aligned = (==_iff _ _).0 e;
                    entries = (==_iff _ _).0 t;
                  }))
            ]
    ]
  ]

-- A freshly created heap holds a row of free blocks, where its memory lies in the address space.
pub fresh-Holds :
    (start_addr n : ℕ)
    → start_addr + n * heap_block_size ≤ 2 ^ 32
    → n * heap_block_size < 2 ^ 31
    → Holds (fresh start_addr n) (gaps n)
fresh-Holds start_addr n fits small =
    let e = ap length (encode-gaps n) in
    let r = length-replicate n entry_free in
    record {
      sized = omega (arith, e, r);
      encoded = refl;
      below = omega (arith, e, r);
      small = omega (arith, e, r);
    }
