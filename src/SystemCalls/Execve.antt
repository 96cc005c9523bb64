-- ===== src/SystemCalls/Execve.antt =====
-- The system call `execve` of src/isr80h/process.c.
pub mod Replaced
use conifer_os.Common.{
  ℕ, zero, suc, ◌+◌, ◌-◌, ◌*◌, ◌%◌, ◌^◌, Option, none, some, List, [], ◌∷◌, replicate, ◌>>=◌,
  Result, ok, err,
}
use conifer_os.File.{Files}
use conifer_os.Keyboard.{KeyboardBuffer, buffer_size}
use conifer_os.KernelHeap.{kmalloc}
use conifer_os.Loading.{max_cmmd_arg_len, store_word}
use conifer_os.Loading.Slot.{LoaderState, process_load_with_args}
use conifer_os.Loading.Task.{NewTask}
use conifer_os.Processes.{Kernel, Process}
use conifer_os.SystemCalls.{
  System, set_at, stack_item, memory_from, pgd_of_current, copy_argv_pointers_from_user_task,
}
use conifer_os.Tasks.{Machine, task_exec}
use conifer_os.UserMemory.{direct, load_word, copy_string_from_user_task}

-- MAX_FILE_PATH_CHARS
abbrev pub max_file_path_chars : ℕ
max_file_path_chars = 128

-- argc, argv and the name of the file, from the stack of the task.
unfoldable pub execve_items : System → Option ((ℕ × (ℕ × ℕ)) × System)
unfolding stack_item
execve_items s = stack_item s 0 >>= λ (argc, s1). stack_item s1 1 >>= λ (argv, s2).
    stack_item s2 2 >>= λ (filename, s3). some ((argc, (argv, filename)), s3)

-- The loop that allocates `n` strings for the array at `argv`; a null pointer is 0.
unfoldable pub allocate_strings : ℕ → Kernel → ℕ → Option Kernel
unfolding kmalloc store_word
allocate_strings zero k argv = some k
allocate_strings (suc n) k argv = kmalloc k.heap max_cmmd_arg_len >>= λ (ptr, heap).
    allocate_strings n
      (record k {
        heap = heap;
        bytes = store_word k.bytes argv (elim ptr [ none ↦ 0 | some p ↦ p ]);
      })
      ((argv + 4) % 2 ^ 32)

-- The loop that copies `n` strings; `user_argv` and `argv` are the addresses of the pointers to them.
unfoldable pub copy_strings : ℕ → Kernel → ℕ → ℕ → ℕ → Option Kernel
unfolding copy_string_from_user_task load_word
copy_strings zero k pgd user_argv argv = some k
copy_strings (suc n) k pgd user_argv argv =
    copy_string_from_user_task k pgd (load_word k.bytes direct user_argv)
      (load_word k.bytes direct argv) max_cmmd_arg_len
    >>= λ (rc, k'). copy_strings n k' pgd ((user_argv + 4) % 2 ^ 32) ((argv + 4) % 2 ^ 32)

-- The memory from each of `n` pointers on.
unfoldable pub strings_at : ℕ → (ℕ → ℕ) → ℕ → List (List ℕ)
unfolding load_word memory_from
strings_at zero bytes argv = []
strings_at (suc n) bytes argv =
    let a = load_word bytes direct argv in
    memory_from (2 ^ 32 - a) bytes a ∷ strings_at n bytes ((argv + 4) % 2 ^ 32)

-- `filename` and `argv_kernel_copy` are addresses on the stack of the kernel. The result is the address
-- of the array of strings. Whether a copy has failed is not looked at.
unfoldable pub copy_arguments : Kernel → ℕ → ℕ → ℕ → ℕ × (ℕ × ℕ) → Option (ℕ × Kernel)
unfolding copy_string_from_user_task copy_argv_pointers_from_user_task kmalloc allocate_strings
    copy_strings
copy_arguments k pgd filename argv_kernel_copy (argc, (argv_usr_addr, filename_usr_addr)) =
    copy_string_from_user_task k pgd filename_usr_addr filename max_file_path_chars >>= λ (rc, k1).
    let k2 = (copy_argv_pointers_from_user_task k1 pgd argv_usr_addr argv_kernel_copy argc).1 in
    kmalloc k2.heap (argc * 4 % 2 ^ 32) >>= λ (ptr, heap).
    let argv : ℕ = elim ptr [ none ↦ 0 | some p ↦ p ] in
    allocate_strings argc (record k2 { heap = heap }) argv >>= λ k3.
    copy_strings argc k3 pgd argv_kernel_copy argv >>= λ k4. some (argv, k4)

abbrev pub loader_of : {World Priv : Type 0} → System → Files World Priv → LoaderState World Priv
loader_of s files = record {
  files = files;
  kernel = s.kernel;
  tasks = s.machine.tasks;
  processes = s.processes;
}

-- What the loader changed.
abbrev pub with_loader : {World Priv : Type 0} → System → LoaderState World Priv → System
with_loader s loader = record s {
  kernel = loader.kernel;
  processes = loader.processes;
  machine = record s.machine { tasks = loader.tasks };
}

-- The structures of a new process and its task; the key buffer was zeroed.
abbrev pub with_new : System → Process → NewTask → System
with_new s p task = record s {
  process_at = set_at s.process_at task.process p;
  keyboard_buffer =
      set_at s.keyboard_buffer task.process
        (record { buffer = replicate buffer_size 0; head = 0; tail = 0 });
  machine = record s.machine {
    registers = set_at s.machine.registers task.address task.registers;
    process = set_at s.machine.process task.address task.process;
  };
}

module _ {World Priv : Type 0} where
  -- Behind the loading: `some 0` is the result that is returned, and `none` means that the new task runs.
  unfoldable pub run_new :
      System
      → Result (Process × NewTask)
      → LoaderState World Priv
      → Option ℕ × (System × Files World Priv)
  unfolding task_exec
  run_new s (err e) loader = (some 0, (with_loader s loader, loader.files))
  run_new s (ok (p, task)) loader =
      let s' = with_new (with_loader s loader) p task in
      (none, (record s' { machine = task_exec s'.machine task.address }, loader.files))

  -- From the copying of the arguments on. The strings are those in memory when the loading begins.
  unfoldable pub execve_from :
      ℕ
      → ℕ
      → System
      → ℕ × (ℕ × ℕ)
      → Files World Priv
      → Option (Option ℕ × (System × Files World Priv))
  unfolding copy_arguments process_load_with_args memory_from strings_at run_new
  execve_from filename argv_kernel_copy s items files =
      copy_arguments s.kernel (pgd_of_current s) filename argv_kernel_copy items >>= λ (argv, k).
      let s' = record s { kernel = k } in
      process_load_with_args (loader_of s' files) (memory_from (2 ^ 32 - filename) k.bytes filename)
        items.0 (strings_at items.0 k.bytes argv)
      >>= λ (rc, loader). some (run_new s' rc loader)

  -- argc is an `int` that is not negative.
  unfoldable pub isr80h_command_6_execve :
      ℕ → ℕ → System → Files World Priv → Option (Option ℕ × (System × Files World Priv))
  unfolding execve_items execve_from
  isr80h_command_6_execve filename argv_kernel_copy s files =
      execve_items s >>= λ (items, s1). execve_from filename argv_kernel_copy s1 items files
