-- ===== src/Tests/SystemCalls.antt =====
-- src/isr80h with one task, on page tables that map every address to itself.
use conifer_os.Common.{
  ℕ, err, eio, ◌+◌, ◌≡◌, refl, ap, ◌∙◌, arith, some, none, [], ◌∷◌, ◌>>=◌, get_elem?, replicate,
}
use conifer_os.Heap.{
  malloc, malloc_blocks, get_start_block_index, scan_blocks, align_upper_block_boundary,
  mark_blocks_taken, mark_taken_loop, block_to_address, first_entry,
}
use conifer_os.KernelHeap.{kzalloc, kmalloc, clear}
use conifer_os.Paging.{get_physical_address}
use conifer_os.Loading.Words.{Bytes, load_word-agree}
use conifer_os.Processes.{Process, binary, process_free}
use conifer_os.SystemCalls.{
  System, isr80h_command_1_print, isr80h_command_7_exit, isr80h_register_commands, max_str_size,
  copy_argv_pointers_from_user_task,
}
use conifer_os.SystemCalls.Print.{Printed, isr80h_command_1_print-Printed}
use conifer_os.Loading.Settles.{Settles}
use conifer_os.SystemCalls.Execve.{isr80h_command_6_execve}
use conifer_os.SystemCalls.Execve.Replaced.{ReadNamed, Replaced, isr80h_command_6_execve-Replaced}
use conifer_os.Tests.Loading.{files}
use conifer_os.SystemCalls.Exit.{Entered, isr80h_command_7_exit-Entered}
use conifer_os.SystemCalls.Pointers.{
  Leads, CopiedPointers, copy_argv_pointers_from_user_task-unaligned,
}
use conifer_os.Tasks.{Machine, Registers, of_task}
use conifer_os.Tests.UserMemory.{
  pgd, page_tables, page_tables-IsDirect, letters, kernel, buffer, heap', buffer-IsPage,
  buffer-Separated, letters-TextAt,
}
use conifer_os.UserMemory.{load_word, direct, task_get_stack_item}
use conifer_os.UserMemory.Copy.{after_kzalloc}

abbrev process : Process
process = record { pid = 1; pgd = pgd; mem_allocs = []; executable = binary 0; stack_addr = 0 }

abbrev registers : Registers
registers = record {
  edi = 0;
  esi = 0;
  ebp = 0;
  ebx = 0;
  edx = 0;
  ecx = 0;
  eax = 1;
  ip = 0x400000;
  cs = 0x1b;
  eflags = 0;
  esp = 0x3000;
  ss = 0x23;
}

abbrev machine : Machine
machine = record {
  tasks = record {
    current_task = 8;
    task_list_head = 8;
    task_list_tail = 8;
    next = λ t. 0;
    prev = λ t. 0;
  };
  registers = λ t. registers;
  process = λ t. 16;
  current_process = 16;
  page_tables = of_task 8;
  ports = [];
  user_mode = none;
}

abbrev system : System
system = record {
  machine = machine;
  kernel = kernel;
  terminal = record { row = 0; col = 0; cells = λ i. 0 };
  processes = none ∷ some process ∷ none ∷ [];
  process_at = λ p. process;
  keyboard_buffer = λ p. record { buffer = []; head = 0; tail = 0 };
}

direct_word : load_word letters direct 0x3000 ≡ 0x500000
unfolding load_word
direct_word = refl

message_address : task_get_stack_item kernel pgd 0x3000 0 ≡ 0x500000
unfolding task_get_stack_item
message_address =
    load_word-agree letters letters direct (get_physical_address page_tables pgd) 0x3000 0x3000
      (omega arith) (omega arith)
      (λ i h. ap letters (page_tables-IsDirect.addresses (0x3000 + i) (omega (arith, h))))
    ∙ direct_word

allocated :
    kzalloc kernel.heap kernel.bytes max_str_size
    ≡ some (some buffer, heap', clear letters buffer max_str_size)
unfolding kzalloc kmalloc malloc malloc_blocks get_start_block_index scan_blocks
    align_upper_block_boundary mark_blocks_taken mark_taken_loop block_to_address first_entry
allocated = refl

isr80h_command_1_print-Printed_example :
    Printed system
      (after_kzalloc kernel heap' (clear letters buffer max_str_size))
      (104 ∷ [])
      (isr80h_command_1_print 0x600000 system)
isr80h_command_1_print-Printed_example =
    isr80h_command_1_print-Printed system 0x600000 0x500000 buffer (104 ∷ []) heap'
      (clear letters buffer max_str_size) (λ e. omega (arith, e)) message_address
      page_tables-IsDirect.apart allocated buffer-IsPage (omega arith) buffer-Separated
      (letters-TextAt max_str_size)

nothing_to_free : process_free kernel process ≡ some kernel
unfolding process_free
nothing_to_free = refl

isr80h_command_7_exit-Entered_example :
    Entered system kernel 8 (8 ∷ []) (isr80h_command_7_exit system)
isr80h_command_7_exit-Entered_example =
    isr80h_command_7_exit-Entered system kernel 8
      ((refl, ((λ e. omega (arith, e)), refl)), ((refl, refl), (tt, tt))) refl nothing_to_free
      (omega arith)

-- The commands 0 to 7 are found at their numbers.
registered :
    isr80h_register_commands (replicate 9 none) (λ i. i + 100) >>= (λ cs. get_elem? cs 7)
    ≡ some (some 107)
unfolding isr80h_register_commands
registered = refl

letters-Bytes : Bytes letters
letters-Bytes a = ground arith

-- An array of one pointer at 0x10004.
array-Leads : Leads (get_physical_address page_tables pgd) 0x10004 0x500000 1
array-Leads = record {
  kernel = λ i h. page_tables-IsDirect.addresses (0x10004 + i) (omega (arith, h));
  task = λ i j h g e.
      omega (arith, h, g, e, page_tables-IsDirect.addresses (0x500000 + j) (omega (arith, g)));
  kern_bound = omega arith;
  usr_bound = omega arith;
}

copy_argv_pointers_from_user_task-unaligned_example :
    (r : ℕ → ℕ) × (copy_argv_pointers_from_user_task kernel pgd 0x500000 0x10004 1
      ≡ (err eio, record kernel { bytes = r }))
    × CopiedPointers (get_physical_address page_tables pgd) letters r 0x10004 0x500000 1
copy_argv_pointers_from_user_task-unaligned_example =
    copy_argv_pointers_from_user_task-unaligned kernel pgd 0x500000 0x10004 1
      (λ e. omega (arith, e)) (omega arith) array-Leads letters-Bytes

isr80h_command_6_execve-Replaced_example :
    Settles
      (Replaced (ReadNamed system files 0x600000 0x10004) system)
      (isr80h_command_6_execve 0x600000 0x10004 system files)
isr80h_command_6_execve-Replaced_example =
    isr80h_command_6_execve-Replaced system files 0x600000 0x10004
