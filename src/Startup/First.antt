-- ===== src/Startup/First.antt =====
-- The first process of the kernel.
use conifer_os.Common.{
  ℕ, ◌≡◌, refl, ap, sym, ◌∙◌, Option, none, some, List, Result, ok, err, store, replicate, eq→==,
}
use mathlib.Core.Path.{subst}
use conifer_os.File.{Filesystem, find_slot}
use conifer_os.Loading.Executable.{Program}
use conifer_os.Loading.Settles.{Settles}
use conifer_os.Loading.Slot.{LoaderState}
use conifer_os.Loading.Slot.Table.{ReadFrom, Loaded}
use conifer_os.Loading.Task.{NewTask, entry_of, initial_registers}
use conifer_os.Processes.{Process, max_processes, process_get_free_slot}
use conifer_os.Startup.{Symbols, KernelState, first_machine, shell_path, message}
use conifer_os.Startup.Boot.{Booted}
use conifer_os.TaskList.{TaskList, task_list_append, make_current}
use conifer_os.Terminal.{print}
use conifer_os.Tasks.{Machine, of_task, task_exec}

-- The machine runs the one task of the process with the number 0, from the entry of its program.
pub record Entered (Read : Program → Type 0) (m : Machine) (processes : List (Option Process))
    : Type 0 where
  pub process : Process
  pub task : NewTask
  pub program : Program
  pub read : Read program
  pub number : process.pid ≡ 0
  pub table : store (replicate max_processes none) 0 (some process) ≡ some processes
  pub directory : process.pgd ≡ task.pgd
  pub current : m.tasks.current_task ≡ task.address
  pub head : m.tasks.task_list_head ≡ task.address
  pub tail : m.tasks.task_list_tail ≡ task.address
  pub mapped : m.page_tables ≡ of_task task.address
  pub owner : m.current_process ≡ task.process
  pub ip : ℕ
  pub entry : entry_of program ≡ some ip
  pub user_mode : m.user_mode ≡ some (initial_registers ip)

slot_zero : (pid : ℕ) → process_get_free_slot (replicate max_processes none) ≡ ok pid → pid ≡ 0
unfolding process_get_free_slot find_slot
slot_zero pid e = sym (ap (λ (r : Result ℕ). elim r [ err e ↦ 0 | ok n ↦ n ]) e)

-- A list without tasks gets its first one.
first_task :
    (tasks : TaskList) (a : ℕ)
    → tasks.task_list_head ≡ 0
    → task_list_append tasks a
      ≡ record tasks { task_list_head = a; task_list_tail = a; current_task = a }
unfolding task_list_append
first_task tasks a h = rw h refl

module _ {World Priv Handler Command : Type 0} (y : Symbols World Priv Handler Command)
    (s : KernelState World Priv Handler Command)
    (none_yet : s.loader.processes ≡ replicate max_processes none)
    (no_task : s.loader.tasks.task_list_head ≡ 0) where
  entered :
      (loader : LoaderState World Priv) (p : Process) (task : NewTask)
      → Loaded s.loader shell_path (ok (p, task), loader)
      → Entered
          (ReadFrom s.loader shell_path)
          (task_exec
            (first_machine y (record s { loader = loader }) task)
            loader.tasks.task_list_head)
          loader.processes
  unfolding task_exec first_machine make_current
  entered loader p task (free, made) =
      let zero = slot_zero p.pid (ap process_get_free_slot (sym none_yet) ∙ free) in
      let listed = made.listed ∙ first_task s.loader.tasks task.address no_task in
      let head = ap (λ t. t.task_list_head) listed in
      let same = eq→== loader.tasks.task_list_head task.address head in
      let (ip, entry, initial) = made.entry in
      record {
        process = p;
        task = task;
        program = made.program;
        read = made.read;
        number = zero;
        table =
            subst (λ ps. store ps 0 (some p) ≡ some loader.processes) none_yet
              (subst (λ n. store s.loader.processes n (some p) ≡ some loader.processes) zero
                made.table);
        directory = made.directory;
        current = head;
        head = head;
        tail = ap (λ t. t.task_list_tail) listed;
        mapped = ap of_task head;
        owner = rw same refl;
        ip = ip;
        entry = entry;
        user_mode = rw same (ap some initial);
      }

-- A panic leaves no process, and otherwise the machine runs the first one.
abbrev pub Outcome : (Program → Type 0) → Result Machine → List (Option Process) → Type 0
Outcome Read (err e) processes = processes ≡ replicate max_processes none
Outcome Read (ok m) processes = Entered Read m processes

-- The state behind kernel_main: what start_up made, with what process_load made of the loader.
pub record Started {World Priv Handler Command : Type 0} (y : Symbols World Priv Handler Command)
    (fat16 : Filesystem World Priv) (s : KernelState World Priv Handler Command)
    (handlers : List (Option Handler)) (ports : List (ℕ × ℕ)) (n m : ℕ)
    (r : Result Machine × KernelState World Priv Handler Command) : Type 0 where
  pub before : KernelState World Priv Handler Command
  pub booted : Booted y fat16 s handlers ports n m before
  pub kept : r.1 ≡ record before { loader = r.1.loader; terminal = r.1.terminal }
  pub shown : print before.terminal (message y r.0) ≡ some r.1.terminal
  pub outcome : Outcome (ReadFrom before.loader shell_path) r.0 r.1.loader.processes
