-- ===== src/Tests/UserMemory.antt =====
-- src/task/task.c and src/task/process.c with page tables that map every address to itself.
use conifer_os.Common.{
  ℕ, ◌+◌, ◌*◌, ◌-◌, ◌<◌, ◌≡◌, refl, ap, ◌∙◌, arith, some, List, [], ◌∷◌, if◌then◌else◌, ◌==◌, inl,
  ok,
}
use conifer_os.Heap.{
  HeapDesc, malloc, malloc_blocks, get_start_block_index, scan_blocks, align_upper_block_boundary,
  mark_blocks_taken, mark_taken_loop, block_to_address, first_entry,
}
use conifer_os.KernelHeap.{kzalloc, kmalloc, clear, kernel_heap_address}
use conifer_os.Paging.{Memory, init_page_tables, get_physical_address}
use conifer_os.Paging.Tables.{IsPage}
use conifer_os.Paging.Direct.{IsDirect, init_page_tables-IsDirect}
use conifer_os.Processes.{Kernel}
use conifer_os.UserMemory.{copy_string_from_user_task, task_get_stack_item}
use conifer_os.UserMemory.Text.{TextAt}
use conifer_os.UserMemory.Copy.{
  gt→leb, Delivered, Separated, after_kzalloc, copy_string_from_user_task-Delivered,
}
use conifer_os.Loading.{map_stack, task_stack_virt_addr}
use conifer_os.Loading.UserView.{
  Passed, load_arg_block-Passed, with_stack, task_get_stack_item-put_argv_argc,
}

abbrev heap_of : List ℕ → HeapDesc
heap_of entries = record {
  start_addr = kernel_heap_address;
  table = record { entries = entries; total_entries = 4 };
}

abbrev pub pgd : ℕ
pgd = 0x400000

abbrev tables : ℕ → ℕ
tables i = 0x800000 + 4096 * i

abbrev pub page_tables : Memory
page_tables = init_page_tables (λ a. 0) pgd tables 7

pub page_tables-IsDirect : IsDirect page_tables pgd 7
page_tables-IsDirect =
    init_page_tables-IsDirect (λ a. 0) pgd tables 7
      (record {
        separate = record {
          from_pgd = λ i j k a b c. omega (arith, c);
          from_other = λ i j i' j' a b c d ne e. ne (omega (arith, b, d, e));
        };
        aligned = λ i h. omega arith;
        bound = λ i h. omega (arith, h);
      })
      (omega arith)

-- The string "h" at 5 MiB, and its address at 0x3000.
abbrev pub letters : ℕ → ℕ
letters a = if a == 0x500000 then 104 else if a == 0x3002 then 0x50 else 0

abbrev pub kernel : Kernel
kernel = record {
  heap = heap_of (0x41 ∷ 0 ∷ 0 ∷ 0 ∷ []);
  bytes = letters;
  page_tables = page_tables;
}

abbrev pub buffer : ℕ
buffer = kernel_heap_address + 4096

abbrev pub heap' : HeapDesc
heap' = heap_of (0x41 ∷ 0x41 ∷ 0 ∷ 0 ∷ [])

buffer_allocated :
    kzalloc kernel.heap kernel.bytes 32 ≡ some (some buffer, heap', clear letters buffer 32)
unfolding kzalloc kmalloc malloc malloc_blocks get_start_block_index scan_blocks
    align_upper_block_boundary mark_blocks_taken mark_taken_loop block_to_address first_entry
buffer_allocated = refl

pub buffer-IsPage : IsPage buffer
buffer-IsPage = record { aligned = refl; bound = omega arith }

at_source : (j : ℕ) → j < 2 → get_physical_address page_tables pgd (0x500000 + j) ≡ 0x500000 + j
at_source j h = page_tables-IsDirect.addresses (0x500000 + j) (omega (arith, h))

pub buffer-Separated : Separated page_tables pgd 0x500000 0x600000 buffer 1
buffer-Separated = record {
  source_page = λ j h e. omega (arith, e, h);
  source_frame = λ j h e. omega (arith, e, h, at_source j (omega (arith, h)));
  source_bound = omega arith;
  kern_bound = omega arith;
  kern_apart = inl (omega arith);
}

-- The bytes when `size` bytes of the buffer were cleared.
module _ (size : ℕ) where
  untouched : (a : ℕ) → a < buffer → clear letters buffer size a ≡ letters a
  unfolding clear
  untouched a h = rw (gt→leb buffer a h) refl

  pub letters-TextAt :
      TextAt (clear letters buffer size) (get_physical_address page_tables pgd) 0x500000 (104 ∷ [])
  letters-TextAt = (
    (λ e. omega (arith, e)),
    ap (clear letters buffer size) (page_tables-IsDirect.addresses 0x500000 (omega arith))
        ∙ untouched 0x500000 (omega arith),
    ap (clear letters buffer size) (page_tables-IsDirect.addresses 0x500001 (omega arith))
        ∙ untouched 0x500001 (omega arith),
  )

copy_string_from_user_task-Delivered_example :
    Delivered
      (after_kzalloc kernel heap' (clear letters buffer 32))
      pgd
      0x600000
      buffer
      (104 ∷ [])
      (copy_string_from_user_task kernel pgd 0x500000 0x600000 32)
copy_string_from_user_task-Delivered_example =
    copy_string_from_user_task-Delivered kernel pgd 0x500000 0x600000 32 buffer (104 ∷ []) heap'
      (clear letters buffer 32) page_tables-IsDirect.apart buffer_allocated buffer-IsPage
      (omega arith) (omega arith) buffer-Separated (letters-TextAt 32)

abbrev arguments : List (List ℕ × List ℕ)
arguments = (104 ∷ 105 ∷ [], []) ∷ ([], 7 ∷ []) ∷ []

load_arg_block-Passed_example : Passed page_tables pgd buffer letters arguments
load_arg_block-Passed_example =
    load_arg_block-Passed arguments page_tables pgd buffer letters page_tables-IsDirect.apart
      buffer-IsPage (omega arith)
      (
        ((((λ e. omega (arith, e)), ((λ e. omega (arith, e)), tt)), omega arith)),
        ((tt, omega arith), tt),
      )
      (omega arith)

task_get_stack_item-put_argv_argc_example :
    ((map_stack page_tables pgd buffer).0 ≡ ok 0)
    × (task_get_stack_item
          (with_stack kernel pgd buffer 2 0x02000000)
          pgd
          (task_stack_virt_addr - 8)
          0
        ≡ 0x02000000)
    × (task_get_stack_item
          (with_stack kernel pgd buffer 2 0x02000000)
          pgd
          (task_stack_virt_addr - 8)
          1
        ≡ 2)
task_get_stack_item-put_argv_argc_example =
    task_get_stack_item-put_argv_argc kernel pgd buffer 2 0x02000000 page_tables-IsDirect.apart
      buffer-IsPage (omega arith) (omega arith) (omega arith)
