-- ===== src/Heap/Alloc.antt =====
-- `heap_malloc_blocks`, `heap_malloc` and `heap_free` on a heap that holds a row of blocks.
use conifer_os.Common.{
  ℕ, suc, ◌+◌, ◌-◌, ◌*◌, ◌%◌, ◌^◌, ◌≤◌, ◌<◌, ◌≡◌, refl, ap, sym, ◌∙◌, some, List, ◌∷◌, ◌++◌, arith,
  length, length-append, length-replicate, replicate, ok, lt→ltb,
}
use conifer_os.Heap.{
  HeapDesc, entry_free, heap_block_size, get_start_block_index, block_to_address, mark_blocks_taken,
  first_entry, malloc_blocks, address_to_block, mark_blocks_free, free, mark_taken_loop,
  mark_free_loop,
}
use conifer_os.Heap.Blocks.{
  Seg, used, gaps, encode, encode-append, encode-gaps, used_entries, tail_entries,
  length-tail_entries,
}
use conifer_os.Heap.Mark.{mark_taken_loop-append, mark_free_loop-append, first_entry-has_next}

-- The heap's table stands for the row `ss`, and its blocks lie below 2 ^ 32 and span less than 2 GiB.
pub record Holds (heap : HeapDesc) (ss : List Seg) : Type 0 where
  pub sized : heap.table.total_entries ≡ length heap.table.entries
  pub encoded : heap.table.entries ≡ encode ss
  pub below : heap.start_addr + length heap.table.entries * heap_block_size ≤ 2 ^ 32
  pub small : length heap.table.entries * heap_block_size < 2 ^ 31

-- The number of blocks of a row.
abbrev pub blocks : List Seg → ℕ
blocks ss = length (encode ss)

-- The heap with other entries.
abbrev pub with_entries : HeapDesc → List ℕ → HeapDesc
with_entries heap es = record heap { table = record heap.table { entries = es } }

-- The address of the block behind the row `ss`.
abbrev pub address_behind : HeapDesc → List Seg → ℕ
address_behind heap ss = heap.start_addr + blocks ss * heap_block_size

encode-around : (a m b : List Seg) → encode (a ++ (m ++ b)) ≡ encode a ++ (encode m ++ encode b)
encode-around a m b = encode-append a (m ++ b) ∙ ap (λ t. encode a ++ t) (encode-append m b)

encode-used : (n : ℕ) (b : List Seg) → encode (used n ∷ b) ≡ used_entries n ++ encode b
unfolding encode
encode-used n b = refl

-- A row with `suc n` free blocks between `a` and `b`, and the row with them taken.
abbrev pub before_alloc : List Seg → List Seg → ℕ → List Seg
before_alloc a b n = a ++ (gaps (suc n) ++ b)

abbrev pub after_alloc : List Seg → List Seg → ℕ → List Seg
after_alloc a b n = a ++ (used n ∷ b)

module _ (heap : HeapDesc) (a b : List Seg) (n : ℕ) where
  encode_before :
      encode (before_alloc a b n) ≡ encode a ++ (replicate (suc n) entry_free ++ encode b)
  encode_before =
      encode-around a (gaps (suc n)) b ∙ ap (λ t. encode a ++ (t ++ encode b)) (encode-gaps (suc n))

  encode_after : encode (after_alloc a b n) ≡ encode a ++ (used_entries n ++ encode b)
  encode_after = encode-append a (used n ∷ b) ∙ ap (λ t. encode a ++ t) (encode-used n b)

  blocks_before : length (encode (before_alloc a b n)) ≡ blocks a + suc n + blocks b
  blocks_before = rw encode_before (
      omega (
        arith,
        length-append {0} (encode a) (replicate (suc n) entry_free ++ encode b),
        length-append {0} (replicate n entry_free) (encode b),
        length-replicate n entry_free,
      ))

  blocks_after : length (encode (after_alloc a b n)) ≡ blocks a + suc n + blocks b
  blocks_after = rw encode_after (
      omega (
        arith,
        length-append {0} (encode a) (used_entries n ++ encode b),
        length-append {0} (tail_entries n) (encode b),
        length-tail_entries n,
      ))

  marked_entries :
      Holds heap (before_alloc a b n)
      → mark_taken_loop
          (suc n)
          (blocks a)
          (blocks a + suc n - 1)
          (first_entry (suc n))
          heap.table.entries
        ≡ some (encode (after_alloc a b n))
  marked_entries h =
      ap (mark_taken_loop (suc n) (blocks a) (blocks a + suc n - 1) (first_entry (suc n)))
        (h.encoded ∙ encode_before)
      ∙ mark_taken_loop-append n (blocks a + suc n - 1) (first_entry (suc n)) (encode a)
          (replicate (suc n) entry_free) (encode b) (length-replicate (suc n) entry_free)
          (omega arith)
      ∙ ap some (sym encode_after)

  mark_blocks_taken_lem :
      Holds heap (before_alloc a b n)
      → mark_blocks_taken heap (blocks a) (suc n)
        ≡ some (with_entries heap (encode (after_alloc a b n)))
  unfolding mark_blocks_taken
  mark_blocks_taken_lem h = rw (marked_entries h)

  pub after-Holds :
      Holds heap (before_alloc a b n)
      → Holds (with_entries heap (encode (after_alloc a b n))) (after_alloc a b n)
  after-Holds h =
      let e = ap length h.encoded in
      record {
        sized = omega (arith, h.sized, e, blocks_before, blocks_after);
        encoded = refl;
        below = omega (arith, h.below, e, blocks_before, blocks_after);
        small = omega (arith, h.small, e, blocks_before, blocks_after);
      }

  block_address :
      Holds heap (before_alloc a b n) → block_to_address heap (blocks a) ≡ address_behind heap a
  unfolding block_to_address
  block_address h = omega (arith, h.below, ap length h.encoded, blocks_before)

  -- In the other direction.
  pub before-Holds :
      Holds heap (after_alloc a b n)
      → Holds (with_entries heap (encode (before_alloc a b n))) (before_alloc a b n)
  before-Holds h =
      let e = ap length h.encoded in
      record {
        sized = omega (arith, h.sized, e, blocks_before, blocks_after);
        encoded = refl;
        below = omega (arith, h.below, e, blocks_before, blocks_after);
        small = omega (arith, h.small, e, blocks_before, blocks_after);
      }

  freed_entries :
      Holds heap (after_alloc a b n)
      → mark_free_loop (heap.table.total_entries - blocks a) (blocks a) heap.table.entries
        ≡ some (encode (before_alloc a b n))
  freed_entries h =
      ap (mark_free_loop (heap.table.total_entries - blocks a) (blocks a))
        (h.encoded ∙ encode_after)
      ∙ mark_free_loop-append n (heap.table.total_entries - blocks a) (first_entry (suc n))
          (encode a) (encode b) (first_entry-has_next n)
          (omega (arith, h.sized, ap length h.encoded, blocks_after))
      ∙ ap some (sym encode_before)

  address_to_block_lem :
      Holds heap (after_alloc a b n)
      → address_to_block heap (address_behind heap a) ≡ some (blocks a)
  unfolding address_to_block
  address_to_block_lem h =
      let e = ap length h.encoded in
      let d : (address_behind heap a + 2 ^ 32 - heap.start_addr) % 2 ^ 32
          ≡ blocks a * heap_block_size =
        omega (arith, h.small, h.below, e, blocks_after) in
      rw (d, lt→ltb (blocks a * heap_block_size) (2 ^ 31) (omega (arith, h.small, e, blocks_after)))
        (ap some (omega arith))

  pub malloc_blocks_found :
      Holds heap (before_alloc a b n)
      → get_start_block_index heap (suc n) ≡ ok (blocks a)
      → malloc_blocks heap (suc n)
        ≡ some (some (address_behind heap a), with_entries heap (encode (after_alloc a b n)))
  unfolding malloc_blocks
  malloc_blocks_found h e = rw (e, malloc_blocks, mark_blocks_taken_lem h, block_address h)

  -- On a heap that holds a row of blocks, heap_free of the address where an allocation starts
  -- turns exactly the blocks of that allocation into free ones.
  pub free_used :
      Holds heap (after_alloc a b n)
      → free heap (address_behind heap a) ≡ some (with_entries heap (encode (before_alloc a b n)))
  unfolding free mark_blocks_free
  free_used h = rw (address_to_block_lem h, freed_entries h)
