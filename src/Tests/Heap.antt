-- ===== src/Tests/Heap.antt =====
-- The heap of src/memory/heap/heap.c at a table of five blocks.
use conifer_os.Common.{ℕ, ◌≤◌, ◌≡◌, refl, some, List, [], ◌∷◌, arith, length}
use conifer_os.Heap.{
  scan_blocks, mark_blocks_taken, mark_taken_loop, first_entry, next_entry,
  align_upper_block_boundary, block_to_address, HeapDesc, malloc, malloc_blocks, free,
  get_start_block_index, get_entry_type,
}
use conifer_os.Heap.Search.{free_prefix, run_at, Located, get_start_block_index-Located}
use conifer_os.Heap.Blocks.{Seg, gap, used, encode, tail_entries}
use conifer_os.Heap.Alloc.{Holds, after_alloc}
use conifer_os.Heap.Malloc.{Allocated, malloc_blocks-Allocated, free-malloc_blocks}

-- One block taken, two free, two taken by one allocation.
abbrev row : List Seg
row = used 0 ∷ gap ∷ gap ∷ used 1 ∷ []

-- `entries` from 16 MiB on.
abbrev at_16m : List ℕ → HeapDesc
at_16m es = record {
  table = record { entries = es; total_entries = length es };
  start_addr = 0x1000000;
}

abbrev heap : HeapDesc
heap = at_16m (0b01000001 ∷ 0 ∷ 0 ∷ 0b11000001 ∷ 1 ∷ [])

heap-Holds : Holds heap row
unfolding encode tail_entries first_entry
heap-Holds = record { sized = refl; encoded = refl; below = omega arith; small = omega arith }

test_malloc :
    malloc heap 5000
    ≡ some (some 0x1001000, at_16m (0b01000001 ∷ 0b11000001 ∷ 1 ∷ 0b11000001 ∷ 1 ∷ []))
unfolding malloc malloc_blocks get_start_block_index scan_blocks mark_blocks_taken mark_taken_loop
    first_entry next_entry align_upper_block_boundary block_to_address
test_malloc = refl

get_start_block_index-Located_example : Located heap.table.entries 2 (get_start_block_index heap 2)
get_start_block_index-Located_example =
    get_start_block_index-Located heap 2 (record { sized = refl }) (omega arith)

two_free : 2 ≤ run_at (encode row) 1
unfolding encode free_prefix get_entry_type tail_entries
two_free = omega arith

malloc_blocks-Allocated_example : Allocated heap row 1 (malloc_blocks heap 2)
malloc_blocks-Allocated_example = malloc_blocks-Allocated heap row 1 1 heap-Holds two_free

-- The heap after `malloc heap 5000`.
abbrev taken_heap : HeapDesc
taken_heap = at_16m (0b01000001 ∷ 0b11000001 ∷ 1 ∷ 0b11000001 ∷ 1 ∷ [])

two_blocks : malloc_blocks heap 2 ≡ some (some 0x1001000, taken_heap)
unfolding malloc_blocks get_start_block_index scan_blocks mark_blocks_taken mark_taken_loop
    first_entry next_entry block_to_address
two_blocks = refl

free-malloc_blocks_example : free taken_heap 0x1001000 ≡ some heap
free-malloc_blocks_example =
    free-malloc_blocks heap row 1 1 0x1001000 taken_heap heap-Holds two_free two_blocks

taken-Holds : Holds taken_heap (after_alloc (used 0 ∷ []) (used 1 ∷ []) 1)
unfolding encode tail_entries first_entry
taken-Holds = record { sized = refl; encoded = refl; below = omega arith; small = omega arith }
