-- ===== src/Loading/Slot/Table.antt =====
-- What `process_load` of src/task/process.c makes of the table of processes and the list of tasks.
use conifer_os.Common.{
  ℕ, ◌≡◌, refl, ap, sym, ◌∙◌, Option, none, some, List, [], ◌==◌, Errno, Result, ok, err, store,
  enomem, eistaken,
}
use mathlib.Core.Path.{subst}
use conifer_os.File.{Files}
use conifer_os.Processes.{
  Kernel, Process, process_get, process_get_free_slot, process_free, user_readable,
}
use conifer_os.TaskList.{TaskList, task_list_append}
use conifer_os.Loading.{
  task_stack_size, command_line_arg_virtual_addr, len_arg_block, put_argv_argc_in_stack_mem,
  load_arg_block, process_map_task_memory,
}
use conifer_os.Loading.Executable.{Program, executable, kernel_kzalloc, process_load_data}
use conifer_os.Loading.Slot.{
  LoaderState, give_up, start_task, pass_arguments, make_stack, process_load_for_slot,
  process_load_with_args, process_load, image, new_process, process_size,
}
use conifer_os.Loading.Task.{
  NewTask, task_new, task_free, initial_registers, new_page_tables, entry_of, task_size,
}
use conifer_os.Loading.Settles.{
  Settles, Settles-bind, Settles-if, Settles-result, Settles-option, Settles-some, Settles-mono,
}

-- The process that was made has the number `pid`; it alone was put in the table, and its task behind the
-- others. The task begins at the entry of the program, which is one that `Read` allows.
pub record Made (Read : Program → Type 0) (processes processes' : List (Option Process))
    (tasks tasks' : TaskList) (pid : ℕ) (p : Process) (task : NewTask) : Type 0 where
  pub program : Program
  pub read : Read program
  pub number : p.pid ≡ pid
  pub loaded : p.executable ≡ executable program
  pub table : store processes pid (some p) ≡ some processes'
  pub listed : tasks' ≡ task_list_append tasks task.address
  pub directory : p.pgd ≡ task.pgd
  pub entry : (ip : ℕ) × (entry_of program ≡ some ip) × (task.registers ≡ initial_registers ip)

-- A task that was made is put at the end of the list, and begins at the entry of its program.
abbrev IsNew : TaskList → Program → NewTask × (Kernel × TaskList) → Type 0
IsNew tasks program (task, (k, tasks')) =
    (tasks' ≡ task_list_append tasks task.address)
    × ((ip : ℕ) × (entry_of program ≡ some ip) × (task.registers ≡ initial_registers ip))

task_new-IsNew :
    (k : Kernel) (tasks : TaskList) (process : ℕ) (program : Program)
    → Settles (IsNew tasks program) (task_new k tasks process program)
unfolding task_new
task_new-IsNew k tasks process program =
    let P = IsNew tasks program in
    Settles-bind P (kernel_kzalloc k task_size) _ (λ a _. Settles-if P (a.0 == 0) none _ tt (
      Settles-bind P (new_page_tables a.1 user_readable) _ (λ b _.
        Settles-if P (b.0.0 == 0) none _ tt
          (Settles-bind P (entry_of program) _ (λ ip e. (refl, (ip, e, refl)))))))

module _ {World Priv : Type 0} (Read : Program → Type 0) (ps : List (Option Process))
    (tasks : TaskList) (pid : ℕ) where
  abbrev stacked : LoaderState World Priv → ℕ → ℕ → Kernel
  stacked s stack_addr argc = record s.kernel {
    bytes = put_argv_argc_in_stack_mem s.kernel.bytes stack_addr argc command_line_arg_virtual_addr;
  }

  -- After an error the table is as it was.
  abbrev pub Tabled : Result (Process × NewTask) × LoaderState World Priv → Type 0
  Tabled (err e, s') = s'.processes ≡ ps
  Tabled (ok (p, task), s') = Made Read ps s'.processes tasks s'.tasks pid p task

  give_up-Tabled :
      (s : LoaderState World Priv) (p : Process) (e : Errno)
      → s.processes ≡ ps
      → Settles Tabled (give_up s p (err e))
  unfolding give_up
  give_up-Tabled s p e h = Settles-bind Tabled (process_free s.kernel p) _ (λ k _. h)

  start_task-Tabled :
      (s : LoaderState World Priv) (process : ℕ) (program : Program) (stack_addr arg_block : ℕ)
      → Read program
      → s.processes ≡ ps
      → s.tasks ≡ tasks
      → Settles Tabled (start_task s process pid program stack_addr arg_block)
  unfolding start_task
  start_task-Tabled s process program stack_addr arg_block q h g =
      Settles-bind Tabled (task_new s.kernel s.tasks process program) _ (λ made e.
        let new =
          Settles-some (IsNew s.tasks program) (task_new s.kernel s.tasks process program) made
            (task_new-IsNew s.kernel s.tasks process program) e in
        Settles-bind Tabled
          (process_map_task_memory made.1.0.page_tables made.0.pgd stack_addr arg_block
            (image program))
          _
          (λ mapped _.
            Settles-result Tabled mapped.0 _ _
              (λ e'.
                Settles-bind Tabled
                  (task_free (record made.1.0 { page_tables = mapped.1 }) made.1.1 made.0) _
                  (λ freed _.
                    give_up-Tabled (record s { kernel = freed.0; tasks = freed.1 })
                      (new_process pid made.0.pgd program stack_addr) e' h))
              (λ r.
                Settles-bind Tabled
                  (store s.processes pid (some (new_process pid made.0.pgd program stack_addr))) _
                  (λ ps' stored. record {
                    program = program;
                    read = q;
                    number = refl;
                    loaded = refl;
                    table =
                        subst
                          (λ x.
                            store x pid (some (new_process pid made.0.pgd program stack_addr))
                            ≡ some ps')
                          h stored;
                    listed = new.0 ∙ ap (λ l. task_list_append l made.0.address) g;
                    directory = refl;
                    entry = new.1;
                  }))))

  pass_arguments-Tabled :
      (s : LoaderState World Priv) (process : ℕ) (program : Program) (stack_addr argc : ℕ)
      (argv : List (List ℕ))
      → Read program
      → s.processes ≡ ps
      → s.tasks ≡ tasks
      → Settles Tabled (pass_arguments s process pid program stack_addr argc argv)
  unfolding pass_arguments
  pass_arguments-Tabled s process program stack_addr argc argv q h g =
      Settles-bind Tabled (kernel_kzalloc (stacked s stack_addr argc) len_arg_block) _ (λ block _.
        Settles-if Tabled (block.0 == 0) _ _
          (give_up-Tabled (record s { kernel = block.1 }) (new_process pid 0 program stack_addr)
            enomem h)
          (Settles-bind Tabled (load_arg_block block.1.bytes block.0 argc argv) _ (λ bytes _.
            start_task-Tabled (record s { kernel = record block.1 { bytes = bytes } }) process
              program stack_addr block.0 q h g)))

  make_stack-Tabled :
      (s : LoaderState World Priv) (process : ℕ) (program : Program) (argc : ℕ)
      (argv : List (List ℕ))
      → Read program
      → s.processes ≡ ps
      → s.tasks ≡ tasks
      → Settles Tabled (make_stack s process pid program argc argv)
  unfolding make_stack
  make_stack-Tabled s process program argc argv q h g =
      Settles-bind Tabled (kernel_kzalloc s.kernel task_stack_size) _ (λ stack _.
        Settles-if Tabled (stack.0 == 0) _ _
          (give_up-Tabled (record s { kernel = stack.1 }) (new_process pid 0 program 0) enomem h)
          (pass_arguments-Tabled (record s { kernel = stack.1 }) process program stack.0 argc argv q
            h g))

-- The program is what `process_load_data` made of the file, behind the allocation of the structure.
abbrev pub ReadFrom : {World Priv : Type 0} → LoaderState World Priv → List ℕ → Program → Type 0
ReadFrom {World = World} {Priv = Priv} s filename program =
    (a : ℕ × Kernel) × ((l : Files World Priv × Kernel) × (kernel_kzalloc s.kernel process_size
        ≡ some a)
      × (process_load_data s.files a.1 filename ≡ some (ok program, l)))

module _ {World Priv : Type 0} (s : LoaderState World Priv) (filename : List ℕ) (pid argc : ℕ)
    (argv : List (List ℕ)) where
  loaded_data :
      (a : ℕ × Kernel) (l : Result Program × (Files World Priv × Kernel))
      → kernel_kzalloc s.kernel process_size ≡ some a
      → process_load_data s.files a.1 filename ≡ some l
      → Settles (Tabled (ReadFrom s filename) s.processes s.tasks pid) (
          let s1 = record s { files = l.1.0; kernel = l.1.1 } in
          elim l.0 [
            | err e ↦ some (err e, s1)
            | ok program ↦ make_stack s1 a.0 pid program argc argv
          ])
  loaded_data a (err e, (files, k)) e1 e2 = refl
  loaded_data a (ok program, (files, k)) e1 e2 =
      make_stack-Tabled (ReadFrom s filename) s.processes s.tasks pid
        (record s { files = files; kernel = k }) a.0 program argc argv (a, ((files, k), e1, e2))
        refl refl

  process_load_for_slot-Tabled :
      Settles
        (Tabled (ReadFrom s filename) s.processes s.tasks pid)
        (process_load_for_slot s filename pid argc argv)
  unfolding process_load_for_slot
  process_load_for_slot-Tabled =
      let P = Tabled (ReadFrom s filename) s.processes s.tasks pid in
      Settles-bind P (process_get s.processes pid) _ (λ slot _.
        Settles-option P slot _ _
          (Settles-bind P (kernel_kzalloc s.kernel process_size) _ (λ a e1.
            Settles-if P (a.0 == 0) none _ tt (
              Settles-bind P (process_load_data s.files a.1 filename) _
                (λ l e2. loaded_data a l e1 e2))))
          (λ p. tt))

-- An error, or a process in the first free slot.
abbrev pub Loaded :
    {World Priv : Type 0}
    → LoaderState World Priv
    → List ℕ
    → Result (Process × NewTask) × LoaderState World Priv
    → Type 0
Loaded s filename (err e, s') = s'.processes ≡ s.processes
Loaded s filename (ok (p, task), s') =
    (process_get_free_slot s.processes ≡ ok p.pid)
    × Made (ReadFrom s filename) s.processes s'.processes s.tasks s'.tasks p.pid p task

module _ {World Priv : Type 0} (s : LoaderState World Priv) (filename : List ℕ) (argc : ℕ)
    (argv : List (List ℕ)) where
  Loaded-slot :
      (pid : ℕ) (r : Result (Process × NewTask) × LoaderState World Priv)
      → process_get_free_slot s.processes ≡ ok pid
      → Tabled (ReadFrom s filename) s.processes s.tasks pid r
      → Loaded s filename r
  Loaded-slot pid (err e, s') free t = t
  Loaded-slot pid (ok (p, task), s') free t = (
    free ∙ ap ok (sym t.number),
    subst (λ n. Made (ReadFrom s filename) s.processes s'.processes s.tasks s'.tasks n p task)
        (sym t.number) t,
  )

  by_slot :
      (r : Result ℕ)
      → process_get_free_slot s.processes ≡ r
      → Settles (Loaded s filename) (elim r [
        | err e ↦ some (err eistaken, s)
        | ok pid ↦ process_load_for_slot s filename pid argc argv
      ])
  by_slot (err e) h = refl
  by_slot (ok pid) h =
      Settles-mono (Tabled (ReadFrom s filename) s.processes s.tasks pid) (Loaded s filename)
        (process_load_for_slot s filename pid argc argv) (λ r t. Loaded-slot pid r h t)
        (process_load_for_slot-Tabled s filename pid argc argv)

  -- Whatever the driver does, unless it faults, process_load_with_args leaves the table of
  -- processes as it was after an error; after a success the process has the number of the first
  -- free slot, in which it alone is put, its executable is the program that process_load_data
  -- read from the file, its new task stands behind the others in the list, has the page directory
  -- of the process, and begins at the entry of that program with the initial registers.
  pub process_load_with_args-Loaded :
      Settles (Loaded s filename) (process_load_with_args s filename argc argv)
  unfolding process_load_with_args
  process_load_with_args-Loaded = by_slot (process_get_free_slot s.processes) refl

pub process_load-Loaded :
    {World Priv : Type 0} (s : LoaderState World Priv) (filename : List ℕ)
    → Settles (Loaded s filename) (process_load s filename)
unfolding process_load
process_load-Loaded s filename = by_slot s filename 0 [] (process_get_free_slot s.processes) refl
