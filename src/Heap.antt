-- ===== src/Heap.antt =====
-- The block heap of src/memory/heap/heap.c. Addresses are numbers below 2 ^ 32. The entry table is
-- the array that `table->entries` points to; an access outside it faults (`none`).
pub mod Search
pub mod Blocks
pub mod Mark
pub mod Alloc
pub mod Malloc
pub mod Pages
pub mod Create
use conifer_os.Common.{
  ℕ, zero, suc, ◌+◌, ◌-◌, ◌*◌, ◌/◌, ◌%◌, ◌^◌, Bool, not, ◌&&◌, Option, none, some, List, [], ◌∷◌,
  bit_and, bit_or, ltb, ◌==◌, if◌then◌else◌, get_elem?, take, store, ◌>>=◌, einvarg, enomem, Result,
  ok, err,
}

abbrev pub heap_block_size : ℕ
heap_block_size = 4096

-- HEAP_BLOCK_TABLE_ENTRY_FREE
abbrev pub entry_free : ℕ
entry_free = 0

-- HEAP_BLOCK_TABLE_ENTRY_TAKEN
abbrev pub entry_taken : ℕ
entry_taken = 1

-- HEAP_BLOCK_IS_FIRST
abbrev pub is_first : ℕ
is_first = 0b01000000

-- HEAP_BLOCK_HAS_NEXT
abbrev pub has_next : ℕ
has_next = 0b10000000

-- `hbte_t` is a byte.
pub record HeapEntryTable : Type 0 where
  pub entries : List ℕ
  pub total_entries : ℕ

pub record HeapDesc : Type 0 where
  pub table : HeapEntryTable
  pub start_addr : ℕ

unfoldable pub valid_alignment : ℕ → Bool
valid_alignment ptr = ptr % heap_block_size == 0

-- `end_addr - heap_start_addr` is taken modulo 2 ^ 32.
unfoldable pub valid_table : ℕ → ℕ → HeapEntryTable → Bool
valid_table start_addr end_addr table =
    (end_addr + 2 ^ 32 - start_addr) % 2 ^ 32 / heap_block_size == table.total_entries

-- `memset(entries, 0, total_entries)`: faults if the array is shorter.
unfoldable pub clear_entries : ℕ → List ℕ → Option (List ℕ)
clear_entries zero es = some es
clear_entries (suc n) [] = none
clear_entries (suc n) (e ∷ es) = clear_entries n es >>= λ es'. some (entry_free ∷ es')

-- `heap_create` fills the descriptor before it looks at the table.
unfoldable pub create : HeapDesc → ℕ → ℕ → HeapEntryTable → Option (Result ℕ × HeapDesc)
create heap start_addr end_addr table =
    let filled : HeapDesc = record { table = table; start_addr = start_addr } in
    if not (valid_alignment start_addr && valid_alignment end_addr)
    then some (err einvarg, heap)
    else if not (valid_table start_addr end_addr table)
    then some (err einvarg, filled)
    else (clear_entries table.total_entries table.entries >>= λ es.
        some (ok 0, record filled { table = record table { entries = es } }))

-- `uint32_t` arithmetic
unfoldable pub align_upper_block_boundary : ℕ → ℕ
align_upper_block_boundary val =
    if val % heap_block_size == 0
    then val
    else (val - val % heap_block_size + heap_block_size) % 2 ^ 32

-- `entry & 0x0f`
unfoldable pub get_entry_type : ℕ → ℕ
get_entry_type entry = bit_and entry 0x0f

-- The loop of `heap_get_start_block_index` from index `i` on. `bs` is `none` for -1.
unfoldable pub scan_blocks : List ℕ → ℕ → Option ℕ → ℕ → ℕ → Option ℕ
unfolding get_entry_type
scan_blocks [] i bs bc total_blocks = bs
scan_blocks (e ∷ es) i bs bc total_blocks =
    let bs' : Option ℕ = elim bs [ none ↦ some i | some b ↦ some b ] in
    let skip = scan_blocks es (i + 1) none 0 total_blocks in
    let go_on = scan_blocks es (i + 1) bs' (bc + 1) total_blocks in
    if not (get_entry_type e == entry_free)
    then skip
    else if bc + 1 == total_blocks
    then bs'
    else go_on

unfoldable pub get_start_block_index : HeapDesc → ℕ → Result ℕ
get_start_block_index heap total_blocks =
    elim (scan_blocks (take heap.table.total_entries heap.table.entries) 0 none 0 total_blocks) [
      | none ↦ err enomem
      | some bs ↦ ok bs
    ]

unfoldable pub block_to_address : HeapDesc → ℕ → ℕ
block_to_address heap block_index = (heap.start_addr + block_index * heap_block_size) % 2 ^ 32

-- The entry that the loop writes after the one at `i`. `end` is `end_block_index`.
unfoldable pub next_entry : ℕ → ℕ → ℕ
next_entry i end = if i + 1 == end then entry_taken else bit_or entry_taken has_next

-- The loop of `heap_mark_blocks_taken`: one round for each `i` from `i` to `end`.
unfoldable pub mark_taken_loop : ℕ → ℕ → ℕ → ℕ → List ℕ → Option (List ℕ)
mark_taken_loop zero i end entry es = some es
mark_taken_loop (suc rounds) i end entry es =
    store es i entry >>= λ es'. mark_taken_loop rounds (i + 1) end (next_entry i end) es'

unfoldable pub first_entry : ℕ → ℕ
first_entry total_blocks =
    let entry = bit_or entry_taken is_first in
    if ltb 1 total_blocks then bit_or entry has_next else entry

unfoldable pub mark_blocks_taken : HeapDesc → ℕ → ℕ → Option HeapDesc
mark_blocks_taken heap start_block_index total_blocks =
    mark_taken_loop total_blocks start_block_index (start_block_index + total_blocks - 1)
      (first_entry total_blocks) heap.table.entries
    >>= λ es. some (record heap { table = record heap.table { entries = es } })

-- The loop of `heap_mark_blocks_free`: at most `rounds` more entries, from `i` on.
unfoldable pub mark_free_loop : ℕ → ℕ → List ℕ → Option (List ℕ)
mark_free_loop zero i es = some es
mark_free_loop (suc rounds) i es = get_elem? es i >>= λ entry. store es i entry_free >>= λ es'.
    let rest = mark_free_loop rounds (i + 1) es' in
    if bit_and entry has_next == 0 then some es' else rest

unfoldable pub mark_blocks_free : HeapDesc → ℕ → Option HeapDesc
mark_blocks_free heap start_block_index =
    mark_free_loop (heap.table.total_entries - start_block_index) start_block_index
      heap.table.entries
    >>= λ es. some (record heap { table = record heap.table { entries = es } })

-- `NULL` is `none` in the first component of the result.
unfoldable pub malloc_blocks : HeapDesc → ℕ → Option (Option ℕ × HeapDesc)
malloc_blocks heap total_blocks = elim (get_start_block_index heap total_blocks) [
  | err e ↦ some (none, heap)
  | ok start_block ↦ mark_blocks_taken heap start_block total_blocks >>= λ heap'.
      some (some (block_to_address heap start_block), heap')
]

unfoldable pub malloc : HeapDesc → ℕ → Option (Option ℕ × HeapDesc)
malloc heap size = malloc_blocks heap (align_upper_block_boundary size / heap_block_size)

-- `(int)(addr - start_addr) / HEAP_BLOCK_SIZE`, `none` where it is negative: the difference is a
-- signed 32-bit number, and division goes towards zero.
unfoldable pub address_to_block : HeapDesc → ℕ → Option ℕ
address_to_block heap addr =
    let diff = (addr + 2 ^ 32 - heap.start_addr) % 2 ^ 32 in
    if ltb diff (2 ^ 31)
    then some (diff / heap_block_size)
    else if (2 ^ 32 - diff) / heap_block_size == 0
    then some 0
    else none

-- A negative index writes in front of the table, which faults.
unfoldable pub free : HeapDesc → ℕ → Option HeapDesc
free heap ptr = address_to_block heap ptr >>= mark_blocks_free heap
