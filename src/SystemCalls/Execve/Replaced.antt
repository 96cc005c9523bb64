-- ===== src/SystemCalls/Execve/Replaced.antt =====
-- What runs after `execve`.
use conifer_os.Common.{
  ℕ, ◌-◌, ◌^◌, ◌≡◌, ◌≢◌, refl, ap, sym, Option, none, some, List, Result, ok, err, store, eq→==,
  ne→==, ◌==◌, Bool-cases, inl, inr,
}
use mathlib.Core.Path.{subst}
use conifer_os.File.{Files}
use conifer_os.Loading.Executable.{Program}
use conifer_os.Loading.Settles.{Settles, Settles-bind, Settles-some}
use conifer_os.Loading.Slot.{LoaderState, process_load_with_args}
use conifer_os.Loading.Slot.Table.{ReadFrom, Loaded, process_load_with_args-Loaded}
use conifer_os.Loading.Task.{NewTask, entry_of, initial_registers}
use conifer_os.Processes.{Kernel, Process, process_get_free_slot}
use conifer_os.SystemCalls.{memory_from, pgd_of_current, System, current, stack_item}
use conifer_os.SystemCalls.Execve.{
  execve_from, strings_at, execve_items, copy_arguments, loader_of, run_new,
  isr80h_command_6_execve,
}
use conifer_os.TaskList.{task_list_append, make_current}
use conifer_os.Tasks.{of_task, task_exec, swap_kernel_page_tables}

-- A new process in the first free slot runs from the entry of its program; the saved registers of the
-- other tasks are as before, and the new task is the last of the list.
pub record Running (Read : Program → Type 0) (s s' : System) : Type 0 where
  pub process : Process
  pub task : NewTask
  pub program : Program
  pub read : Read program
  pub free : process_get_free_slot s.processes ≡ ok process.pid
  pub table : store s.processes process.pid (some process) ≡ some s'.processes
  pub at : s'.process_at task.process ≡ process
  pub listed :
      s'.machine.tasks ≡ make_current (task_list_append s.machine.tasks task.address) task.address
  pub mapped : s'.machine.page_tables ≡ of_task task.address
  pub owner : s'.machine.current_process ≡ task.process
  pub ip : ℕ
  pub entry : entry_of program ≡ some ip
  pub user_mode : s'.machine.user_mode ≡ some (initial_registers ip)
  pub others : (t : ℕ) → t ≢ task.address → s'.machine.registers t ≡ s.machine.registers t

abbrev swapped : System → System
swapped s = record s { machine = swap_kernel_page_tables s.machine }

-- The system when the arguments were copied.
abbrev copied : System → Kernel → System
copied s k = record s { machine = swap_kernel_page_tables s.machine; kernel = k }

-- The program is what was read from the file whose name was copied from the memory of the task.
abbrev pub ReadNamed : {World Priv : Type 0} → System → Files World Priv → ℕ → ℕ → Program → Type 0
ReadNamed s files filename argv_kernel_copy program =
    (a : (ℕ × (ℕ × ℕ)) × System) × ((c : ℕ × Kernel) × (execve_items s ≡ some a)
      × (copy_arguments s.kernel (pgd_of_current (swapped s)) filename argv_kernel_copy a.0
          ≡ some c)
      × ReadFrom (loader_of (copied s c.1) files)
          (memory_from (2 ^ 32 - filename) c.1.bytes filename) program)

-- Where a result is returned, it is 0, the table is as before, and user mode was not entered.
abbrev pub Replaced :
    {World Priv : Type 0}
    → (Program → Type 0)
    → System
    → Option ℕ × (System × Files World Priv)
    → Type 0
Replaced Read s (some v, (s', files)) =
    (v ≡ 0) × (s'.processes ≡ s.processes) × (s'.machine.user_mode ≡ s.machine.user_mode)
Replaced Read s (none, (s', files)) = Running Read s s'

-- The reading of the stack leaves the page tables of the kernel in use.
execve_items-swapped : (s : System) → Settles (λ r. r.1 ≡ swapped s) (execve_items s)
unfolding execve_items stack_item swap_kernel_page_tables
execve_items-swapped s = elim (Bool-cases (current s == 0)) [
  | inl e ↦ rw e tt
  | inr e ↦ rw (e, e, e) refl
]

module _ {World Priv : Type 0} (s : System) (files : Files World Priv) where
  run_new-Replaced :
      (Q : Program → Type 0) (k : Kernel) (name : List ℕ) (rc : Result (Process × NewTask))
      (loader : LoaderState World Priv)
      → ((program : Program) → ReadFrom (loader_of (copied s k) files) name program → Q program)
      → Loaded (loader_of (copied s k) files) name (rc, loader)
      → Replaced Q s (run_new (copied s k) rc loader)
  unfolding run_new task_exec make_current swap_kernel_page_tables
  run_new-Replaced Q k name (err e) loader give same = (refl, same, refl)
  run_new-Replaced Q k name (ok (p, task)) loader give (free, made) =
      let (ip, entry, initial) = made.entry in
      let same = eq→== task.address task.address refl in
      record {
        process = p;
        task = task;
        program = made.program;
        read = give made.program made.read;
        free = free;
        table = made.table;
        at = rw (eq→== task.process task.process refl) refl;
        listed = ap (λ l. make_current l task.address) made.listed;
        mapped = refl;
        owner = rw same refl;
        ip = ip;
        entry = entry;
        user_mode = rw same (ap some initial);
        others = λ t ne. rw (ne→== t task.address ne) refl;
      }

  module _ (filename argv_kernel_copy : ℕ) where
    abbrev Q : Program → Type 0
    Q = ReadNamed s files filename argv_kernel_copy

    execve_from-Replaced :
        (a : (ℕ × (ℕ × ℕ)) × System)
        → execve_items s ≡ some a
        → Settles (Replaced Q s) (execve_from filename argv_kernel_copy (swapped s) a.0 files)
    unfolding execve_from swap_kernel_page_tables
    execve_from-Replaced a e0 =
        let P = Replaced {World = World} {Priv = Priv} Q s in
        Settles-bind P
          (copy_arguments s.kernel (pgd_of_current (swapped s)) filename argv_kernel_copy a.0) _
          (λ c e1.
            let loader = loader_of (copied s c.1) files in
            let name = memory_from (2 ^ 32 - filename) c.1.bytes filename in
            let args = strings_at a.0.0 c.1.bytes c.0 in
            Settles-bind P (process_load_with_args loader name a.0.0 args) _ (λ r e.
              run_new-Replaced Q c.1 name r.0 r.1 (λ program q. (a, (c, e0, e1, q)))
                (Settles-some (Loaded loader name) (process_load_with_args loader name a.0.0 args) r
                  (process_load_with_args-Loaded loader name a.0.0 args) e)))

    -- Whatever the arguments and the driver, unless it faults, the system call execve either
    -- returns 0 with the table of processes as before and without entering user mode, or enters
    -- user mode with the initial registers at the entry of the program that process_load_data
    -- read from the file whose name was copied from the task; its process is put in the first
    -- free slot, its task is put at the end of the list, is current and has its page tables in
    -- use, and the saved registers of all other tasks are as before.
    pub isr80h_command_6_execve-Replaced :
        Settles (Replaced Q s) (isr80h_command_6_execve filename argv_kernel_copy s files)
    unfolding isr80h_command_6_execve
    isr80h_command_6_execve-Replaced =
        let P = Replaced {World = World} {Priv = Priv} Q s in
        Settles-bind P (execve_items s) _ (λ a e.
          subst (λ x. Settles P (execve_from filename argv_kernel_copy x a.0 files))
            (sym
              (Settles-some (λ r. r.1 ≡ swapped s) (execve_items s) a (execve_items-swapped s) e))
            (execve_from-Replaced a e))
