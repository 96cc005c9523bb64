-- ===== src/Tasks/Entry.antt =====
-- src/idt/idt.c: what a system call runs, and what a task sees of being interrupted.
use conifer_os.Common.{
  ℕ, ◌<◌, ◌≡◌, ◌≢◌, refl, arith, Option, none, some, List, ne→==, lt→ltb, length, ◌==◌,
  if◌then◌else◌, get_elem?, get_elem?-set_self, set, store-some, ◌>>=◌,
}
use conifer_os.Interrupts.{isr80h_register_command, isr80h_handle_command, max_isr80h_commands}
use conifer_os.Tasks.{
  Machine, InterruptFrame, Command, kernel, of_task, saved_registers, task_current_save_state,
  swap_kernel_page_tables, swap_curr_task_page_tables, run_command, isr80h_handler,
}

-- The machine when a command or a handler starts: in the kernel's page tables, with the registers of
-- the current task saved.
unfoldable pub entered : Machine → InterruptFrame → Machine
entered m frame = record m {
  page_tables = kernel;
  registers = λ t. if t == m.tasks.current_task then saved_registers frame else m.registers t;
}

-- The machine when the entry of an interrupt returns to the current task.
unfoldable pub left : Machine → Machine
left m = record m { page_tables = of_task m.tasks.current_task }

save-entered :
    (m : Machine) (frame : InterruptFrame)
    → m.tasks.current_task ≢ 0
    → task_current_save_state (swap_kernel_page_tables m) frame ≡ some (entered m frame)
unfolding task_current_save_state swap_kernel_page_tables entered
save-entered m frame h = rw (ne→== m.tasks.current_task 0 h) refl

swap-left : (m : Machine) → m.tasks.current_task ≢ 0 → swap_curr_task_page_tables m ≡ some (left m)
unfolding swap_curr_task_page_tables left
swap-left m h = rw (ne→== m.tasks.current_task 0 h) refl

register_command :
    (commands : List (Option Command)) (id : ℕ) (command : Command)
    → length commands ≡ max_isr80h_commands
    → id < max_isr80h_commands
    → get_elem? commands id ≡ some none
    → isr80h_register_command commands id (some command) ≡ some (set commands id (some command))
unfolding isr80h_register_command
register_command commands id command l h e =
    rw (lt→ltb id max_isr80h_commands h, e)
      (store-some commands id (some command) (omega (arith, l)))

-- Registering a command with a free number below 1024, in a table of 1024, and then entering the
-- kernel with that number on a machine with a current task runs the command in the page tables of
-- the kernel with the registers of the task saved; if the command returns with a current task,
-- its value is returned, in the page tables of that task.
pub isr80h_handler-register :
    (commands : List (Option Command)) (id value : ℕ) (command : Command) (m m' : Machine)
    (frame : InterruptFrame)
    → length commands ≡ max_isr80h_commands
    → id < max_isr80h_commands
    → get_elem? commands id ≡ some none
    → m.tasks.current_task ≢ 0
    → command (entered m frame) frame ≡ some (value, m')
    → m'.tasks.current_task ≢ 0
    → isr80h_register_command commands id (some command) >>= (λ cs. isr80h_handler cs m id frame)
      ≡ some (value, left m')
unfolding isr80h_handler run_command isr80h_handle_command
isr80h_handler-register commands id value command m m' frame l h e c r k =
    rw
      (
        register_command commands id command l h e,
        save-entered m frame c,
        lt→ltb id max_isr80h_commands h,
        get_elem?-set_self commands id (some command) (omega (arith, l)),
        r,
        swap-left m' k,
      )
      refl
