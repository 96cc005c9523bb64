-- ===== src/Loading/Slot.antt =====
-- src/task/process.c: the making of a process in a slot of the table.
pub mod Table
pub mod Runs
use conifer_os.Common.{
  ℕ, zero, suc, ◌+◌, ◌-◌, ◌*◌, ◌==◌, Option, none, some, List, [], ◌∷◌, if◌then◌else◌, ◌>>=◌,
  Result, ok, err, enomem, eistaken, replicate, get_elem?, store, length,
}
use conifer_os.Elf.{word}
use conifer_os.File.{Files}
use conifer_os.Paging.{init_page_tables, free_page_tables}
use conifer_os.Processes.{
  Kernel, Process, MemAllocation, kernel_free, process_free, process_get, process_get_free_slot,
  user_readable,
}
use conifer_os.TaskList.{TaskList, task_list_append, task_list_remove}
use conifer_os.Tasks.{Registers}
use conifer_os.Loading.{
  Image, task_load_virtual_address, task_stack_virt_addr, task_stack_size,
  command_line_arg_virtual_addr, len_arg_block, put_argv_argc_in_stack_mem, load_arg_block,
  process_map_task_memory,
}
use conifer_os.Loading
use conifer_os.Loading.Task.{NewTask, task_new, task_free}
use conifer_os.Loading.Executable.{
  Program, binary, elf, executable, kernel_kzalloc, process_load_data,
}

-- `sizeof(struct process)`
abbrev pub process_size : ℕ
process_size = 9388

-- PROCESS_MAX_ALLOCATIONS
abbrev pub process_max_allocations : ℕ
process_max_allocations = 1024

-- The file in memory; a binary is mapped by its address.
abbrev pub image : Program → Image
image (binary ptr size) = Loading.binary ptr size
image (elf address f) =
    Loading.elf (elim f.elf_file_buffer [ none ↦ [] | some file ↦ file ]) f.address

-- The fields of a process for its memory.
abbrev pub new_process : ℕ → ℕ → Program → ℕ → Process
new_process pid pgd program stack_addr = record {
  pid = pid;
  pgd = pgd;
  mem_allocs = replicate process_max_allocations (record { ptr = 0; size = 0 });
  executable = executable program;
  stack_addr = stack_addr;
}

-- The open files, the memory of the kernel, the tasks, and the table of processes.
pub record LoaderState (World Priv : Type 0) : Type 0 where
  pub files : Files World Priv
  pub kernel : Kernel
  pub tasks : TaskList
  pub processes : List (Option Process)

module _ {World Priv : Type 0} where
  -- The end of `process_load_for_slot` behind an error.
  unfoldable pub give_up :
      {A : Type 0}
      → LoaderState World Priv
      → Process
      → Result A
      → Option (Result A × LoaderState World Priv)
  unfolding process_free
  give_up s p rc = process_free s.kernel p >>= λ k. some (rc, record s { kernel = k })

  -- From the new task on; `process` is the address of the structure.
  unfoldable pub start_task :
      LoaderState World Priv
      → ℕ
      → ℕ
      → Program
      → ℕ
      → ℕ
      → Option (Result (Process × NewTask) × LoaderState World Priv)
  unfolding task_new process_map_task_memory task_free give_up
  start_task s process pid program stack_addr arg_block =
      task_new s.kernel s.tasks process program >>= λ (task, (k, tasks)).
      let p = new_process pid task.pgd program stack_addr in
      process_map_task_memory k.page_tables task.pgd stack_addr arg_block (image program)
      >>= λ (rc, m).
          let s1 = record s { kernel = record k { page_tables = m }; tasks = tasks } in
          elim rc [
            | err e ↦ task_free s1.kernel s1.tasks task >>= λ (k2, tasks2).
                give_up (record s1 { kernel = k2; tasks = tasks2 }) p (err e)
            | ok r ↦ store s.processes pid (some p) >>= λ ps.
                some (ok (p, task), record s1 { processes = ps })
          ]

  -- From the arg block on.
  unfoldable pub pass_arguments :
      LoaderState World Priv
      → ℕ
      → ℕ
      → Program
      → ℕ
      → ℕ
      → List (List ℕ)
      → Option (Result (Process × NewTask) × LoaderState World Priv)
  unfolding kernel_kzalloc load_arg_block start_task give_up put_argv_argc_in_stack_mem
  pass_arguments s process pid program stack_addr argc argv =
      let stacked = record s.kernel {
        bytes =
            put_argv_argc_in_stack_mem s.kernel.bytes stack_addr argc command_line_arg_virtual_addr;
      } in
      kernel_kzalloc stacked len_arg_block >>= λ (arg_block, k1).
      if arg_block == 0
      then give_up (record s { kernel = k1 }) (new_process pid 0 program stack_addr) (err enomem)
      else (load_arg_block k1.bytes arg_block argc argv >>= λ bytes.
          start_task (record s { kernel = record k1 { bytes = bytes } }) process pid program
            stack_addr arg_block)

  -- From the stack on.
  unfoldable pub make_stack :
      LoaderState World Priv
      → ℕ
      → ℕ
      → Program
      → ℕ
      → List (List ℕ)
      → Option (Result (Process × NewTask) × LoaderState World Priv)
  unfolding kernel_kzalloc pass_arguments give_up
  make_stack s process pid program argc argv =
      kernel_kzalloc s.kernel task_stack_size >>= λ (stack_addr, k1).
      let s1 = record s { kernel = k1 } in
      if stack_addr == 0
      then give_up s1 (new_process pid 0 program 0) (err enomem)
      else pass_arguments s1 process pid program stack_addr argc argv

  -- A process whose slot is taken, or that is not allocated, is freed through a pointer that is not
  -- initialised or null. If the file is not loaded, there is nothing for `process_free` to free.
  unfoldable pub process_load_for_slot :
      LoaderState World Priv
      → List ℕ
      → ℕ
      → ℕ
      → List (List ℕ)
      → Option (Result (Process × NewTask) × LoaderState World Priv)
  unfolding process_get kernel_kzalloc process_load_data make_stack
  process_load_for_slot s filename pid argc argv = process_get s.processes pid >>= λ slot.
      elim slot [
        | some p ↦ none
        | none ↦ kernel_kzalloc s.kernel process_size >>= λ (address, k1).
            if address == 0
            then none
            else (process_load_data s.files k1 filename >>= λ (rc, (files, k2)).
                let s1 = record s { files = files; kernel = k2 } in
                elim rc [
                  | err e ↦ some (err e, s1)
                  | ok program ↦ make_stack s1 address pid program argc argv
                ])
      ]

  unfoldable pub process_load_with_args :
      LoaderState World Priv
      → List ℕ
      → ℕ
      → List (List ℕ)
      → Option (Result (Process × NewTask) × LoaderState World Priv)
  unfolding process_get_free_slot process_load_for_slot
  process_load_with_args s filename argc argv = elim (process_get_free_slot s.processes) [
    | err e ↦ some (err eistaken, s)
    | ok pid ↦ process_load_for_slot s filename pid argc argv
  ]

  unfoldable pub process_load :
      LoaderState World Priv → List ℕ → Option (Result (Process × NewTask) × LoaderState World Priv)
  unfolding process_get_free_slot process_load_for_slot
  process_load s filename = elim (process_get_free_slot s.processes) [
    | err e ↦ some (err eistaken, s)
    | ok pid ↦ process_load_for_slot s filename pid 0 []
  ]
