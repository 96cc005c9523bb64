-- ===== src/Tasks/Resume.antt =====
-- src/task/task.c: the registers of a task over the interrupts of others.
use conifer_os.Common.{ℕ, ◌≡◌, ◌≢◌, ◌∙◌, refl, Option, some, List, [], ◌∷◌, ne→==, eq→==, ◌>>=◌}
use conifer_os.CString.Length.{All}
use conifer_os.TaskList.{make_current}
use conifer_os.Tasks.{
  Machine, Registers, InterruptFrame, saved_registers, task_current_save_state, task_exec,
}

-- Other tasks run and are interrupted, one after the other.
unfoldable pub run_tasks : Machine → List (ℕ × InterruptFrame) → Option Machine
run_tasks m [] = some m
run_tasks m ((task, frame) ∷ rest) =
    task_current_save_state (task_exec m task) frame >>= λ m'. run_tasks m' rest

-- Tasks that are not null pointers, and not `task`.
abbrev pub Others : ℕ → List (ℕ × InterruptFrame) → Type 0
Others task rest = All (λ r. (r.0 ≢ 0) × (task ≢ r.0)) rest

-- The registers that user mode is entered with when `task` is executed.
unfoldable pub resumed : Machine → ℕ → Option (Option Registers)
resumed m task = some (task_exec m task).user_mode

run_tasks-resumed :
    (task : ℕ) (rest : List (ℕ × InterruptFrame)) (m : Machine)
    → Others task rest
    → run_tasks m rest >>= (λ m'. resumed m' task) ≡ some (some (m.registers task))
unfolding run_tasks resumed task_exec make_current task_current_save_state
run_tasks-resumed task [] m h = refl
run_tasks-resumed task ((u, frame) ∷ rest) m ((z, o), hs) =
    rw (ne→== u 0 z) (run_tasks-resumed task rest _ hs ∙ rw (ne→== task u o) refl)

-- When the registers of the current task are saved from a frame, and then any number of other
-- tasks are executed and have theirs saved, executing the task enters user mode with the
-- registers of the frame.
pub task_exec-save_state :
    (m : Machine) (frame : InterruptFrame) (rest : List (ℕ × InterruptFrame))
    → m.tasks.current_task ≢ 0
    → Others m.tasks.current_task rest
    → task_current_save_state m frame
        >>= (λ m1. run_tasks m1 rest >>= λ m2. resumed m2 m.tasks.current_task)
      ≡ some (some (saved_registers frame))
unfolding task_current_save_state
task_exec-save_state m frame rest z h = rw (ne→== m.tasks.current_task 0 z) (
    run_tasks-resumed m.tasks.current_task rest _ h
    ∙ rw (eq→== m.tasks.current_task m.tasks.current_task refl) refl)
