-- ===== src/Tasks.antt =====
-- src/task/task.c and src/idt/idt.c: the saved registers of tasks, the page tables in use, and the entry
-- of interrupts. Handlers and commands are functions on the machine, which is what they can change:
-- the tasks, the page tables and the ports. A fault or a panic is `none`.
pub mod Entry
pub mod Resume
use conifer_os.Common.{
  ℕ, ◌==◌, Option, none, some, List, [], ◌∷◌, ◌++◌, if◌then◌else◌, ◌>>=◌, get_elem?,
}
use conifer_os.TaskList.{TaskList, make_current}
use conifer_os.Interrupts.{isr80h_handle_command}

-- `struct registers`
pub record Registers : Type 0 where
  pub edi : ℕ
  pub esi : ℕ
  pub ebp : ℕ
  pub ebx : ℕ
  pub edx : ℕ
  pub ecx : ℕ
  pub eax : ℕ
  pub ip : ℕ
  pub cs : ℕ
  pub eflags : ℕ
  pub esp : ℕ
  pub ss : ℕ

-- `struct interrupt_frame`
pub record InterruptFrame : Type 0 where
  pub edi : ℕ
  pub esi : ℕ
  pub ebp : ℕ
  pub unused_esp : ℕ
  pub ebx : ℕ
  pub edx : ℕ
  pub ecx : ℕ
  pub eax : ℕ
  pub ip : ℕ
  pub cs : ℕ
  pub eflags : ℕ
  pub esp : ℕ
  pub ss : ℕ

-- The page tables that the processor uses: the kernel's, or those of a task.
pub data PageTables : Type 0 where
  kernel : PageTables
  of_task : ℕ → PageTables

-- The list of tasks, the fields `registers` and `process` of every task, `current_process`, the page
-- tables in use, the port writes so far, and the registers that user mode was entered with.
pub record Machine : Type 0 where
  pub tasks : TaskList
  pub registers : ℕ → Registers
  pub process : ℕ → ℕ
  pub current_process : ℕ
  pub page_tables : PageTables
  pub ports : List (ℕ × ℕ)
  pub user_mode : Option Registers

unfoldable pub saved_registers : InterruptFrame → Registers
saved_registers frame = record {
  edi = frame.edi;
  esi = frame.esi;
  ebp = frame.ebp;
  ebx = frame.ebx;
  edx = frame.edx;
  ecx = frame.ecx;
  eax = frame.eax;
  ip = frame.ip;
  cs = frame.cs;
  eflags = frame.eflags;
  esp = frame.esp;
  ss = frame.ss;
}

-- Without a current task the kernel panics.
unfoldable pub task_current_save_state : Machine → InterruptFrame → Option Machine
unfolding saved_registers
task_current_save_state m frame =
    let task = m.tasks.current_task in
    if task == 0
    then none
    else some
        (record m { registers = λ t. if t == task then saved_registers frame else m.registers t })

unfoldable pub swap_kernel_page_tables : Machine → Machine
swap_kernel_page_tables m = record m { page_tables = kernel }

-- A null pointer faults.
unfoldable pub swap_curr_task_page_tables : Machine → Option Machine
swap_curr_task_page_tables m =
    if m.tasks.current_task == 0
    then none
    else some (record m { page_tables = of_task m.tasks.current_task })

-- The task is not a null pointer.
unfoldable pub task_exec : Machine → ℕ → Machine
unfolding make_current
task_exec m task = record m {
  tasks = make_current m.tasks task;
  current_process = m.process task;
  page_tables = of_task task;
  user_mode = some (m.registers task);
}

unfoldable pub outb : Machine → ℕ → ℕ → Machine
outb m port value = record m { ports = m.ports ++ ((port, value) ∷ []) }

-- `interrupt_handler`; the number is not negative.
unfoldable pub interrupt_handler :
    List (Option (Machine → Option Machine)) → Machine → ℕ → InterruptFrame → Option Machine
unfolding swap_kernel_page_tables task_current_save_state swap_curr_task_page_tables outb
interrupt_handler handlers m interrupt frame =
    let m1 = swap_kernel_page_tables m in
    get_elem? handlers interrupt >>= λ handler.
    (elim handler [ none ↦ some m1 | some run ↦ task_current_save_state m1 frame >>= run ])
    >>= λ m2. swap_curr_task_page_tables m2 >>= λ m3. some (outb m3 0x20 0x20)

-- A command returns a value for the program that called it.
abbrev pub Command : Type 0
Command = Machine → InterruptFrame → Option (ℕ × Machine)

-- `isr80h_handle_command` with the call of the command, whose result is 0 if there is none.
unfoldable pub run_command :
    List (Option Command) → Machine → ℕ → InterruptFrame → Option (ℕ × Machine)
unfolding isr80h_handle_command
run_command commands m command_id frame = isr80h_handle_command commands command_id >>= λ command.
    elim command [ none ↦ some (0, m) | some call ↦ call m frame ]

unfoldable pub isr80h_handler :
    List (Option Command) → Machine → ℕ → InterruptFrame → Option (ℕ × Machine)
unfolding swap_kernel_page_tables task_current_save_state run_command swap_curr_task_page_tables
isr80h_handler commands m command_id frame =
    task_current_save_state (swap_kernel_page_tables m) frame >>= λ m1.
    run_command commands m1 command_id frame >>= λ (res, m2).
    swap_curr_task_page_tables m2 >>= λ m3. some (res, m3)
