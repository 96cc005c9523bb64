-- ===== src/Tests/Processes.antt =====
-- src/task/process.c on a heap of four blocks.
use conifer_os.Common.{ℕ, ◌+◌, ◌≡◌, refl, some, none, List, [], ◌∷◌, ok, ◌>>=◌}
use conifer_os.Heap.{
  HeapDesc, malloc, malloc_blocks, get_start_block_index, scan_blocks, align_upper_block_boundary,
  mark_blocks_taken, mark_taken_loop, block_to_address, first_entry, free, address_to_block,
  mark_blocks_free, mark_free_loop,
}
use conifer_os.KernelHeap.{kzalloc, kfree, kmalloc, clear, kernel_heap_address}
use conifer_os.Paging.{is_aligned, map_range, map_loop, set_entry}
use conifer_os.Processes.{
  Kernel, Process, binary, map_allocation, process_malloc_syscall_handler,
  process_free_syscall_handler, user_writable, user_readable,
}
use conifer_os.Processes.Allocations.{with_slot, with_heap, process_free-malloc_syscall_handler}

abbrev heap_of : List ℕ → HeapDesc
heap_of entries = record {
  start_addr = kernel_heap_address;
  table = record { entries = entries; total_entries = 4 };
}

abbrev kernel_with : List ℕ → Kernel
kernel_with entries = record { heap = heap_of entries; bytes = λ a. 7; page_tables = λ a. 0x8000 }

abbrev process : Process
process = record {
  pid = 1;
  pgd = 0x4000;
  mem_allocs = record { ptr = 0; size = 0 } ∷ [];
  executable = binary 0;
  stack_addr = 0;
}

abbrev addr : ℕ
addr = kernel_heap_address + 4096

abbrev taken : List ℕ
taken = 0x41 ∷ 0x41 ∷ 0x41 ∷ 0x41 ∷ []

no_memory : kzalloc (heap_of taken) (λ a. 7) 4096 ≡ some (none, heap_of taken, λ a. 7)
unfolding kzalloc kmalloc malloc malloc_blocks get_start_block_index scan_blocks
no_memory = refl

abbrev entries : List ℕ
entries = 0x41 ∷ 0 ∷ 0 ∷ 0 ∷ []

abbrev entries' : List ℕ
entries' = 0x41 ∷ 0x41 ∷ 0 ∷ 0 ∷ []

memory :
    kzalloc (heap_of entries) (λ a. 7) 4096
    ≡ some (some addr, heap_of entries', clear (λ a. 7) addr 4096)
unfolding kzalloc kmalloc malloc malloc_blocks get_start_block_index scan_blocks
    align_upper_block_boundary mark_blocks_taken mark_taken_loop block_to_address first_entry
memory = refl

abbrev mapped : Kernel
mapped = with_heap (kernel_with entries) (heap_of entries') (clear (λ a. 7) addr 4096)

first_mapping : (map_allocation mapped 0x4000 addr 4096 user_writable).0 ≡ ok 0
unfolding map_allocation is_aligned map_range map_loop set_entry
first_mapping = refl

second_mapping :
    (map_allocation
      (map_allocation mapped 0x4000 addr 4096 user_writable).1
      0x4000
      addr
      4096
      user_readable).0
    ≡ ok 0
unfolding map_allocation is_aligned map_range map_loop set_entry
second_mapping = refl

freed : kfree (heap_of entries') addr ≡ some (heap_of entries)
unfolding kfree free address_to_block mark_blocks_free mark_free_loop
freed = refl

process_free-malloc_syscall_handler_example :
    process_malloc_syscall_handler (kernel_with entries) (with_slot process [] 0 0 []) 4096
      >>= (λ (a, (p', k')). process_free_syscall_handler k' p' addr)
    ≡ some (
      with_slot process [] 0 0 [],
      record (map_allocation
          (map_allocation mapped 0x4000 addr 4096 user_writable).1
          0x4000
          addr
          4096
          user_readable).1 { heap = heap_of entries },
    )
process_free-malloc_syscall_handler_example =
    process_free-malloc_syscall_handler process [] [] addr 4096 (kernel_with entries) 0
      (heap_of entries') (heap_of entries) (clear (λ a. 7) addr 4096) 0 0 tt tt memory first_mapping
      second_mapping freed
