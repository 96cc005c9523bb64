-- ===== src/Tests/Tasks.antt =====
-- src/task/task.c and src/idt/idt.c on three tasks, at the addresses 10, 20 and 30.
use conifer_os.Common.{
  ℕ, ◌+◌, ◌<◌, ◌≡◌, ◌≢◌, ◌>>=◌, refl, arith, List, [], ◌∷◌, Option, some, none, ◌==◌, if◌then◌else◌,
  replicate, length-replicate,
}
use conifer_os.TaskList.{TaskList, task_list_append, task_list_remove}
use conifer_os.TaskList.Sequence.{IsSequence}
use conifer_os.TaskList.Append.{task_list_append-IsSequence}
use conifer_os.TaskList.Remove.{task_list_remove-first}
use conifer_os.TaskList.Rotation.{switches, switches-reach}
use conifer_os.Interrupts.{isr80h_register_command}
use conifer_os.Tasks.{
  Machine, Registers, InterruptFrame, Command, kernel, saved_registers, task_current_save_state,
  isr80h_handler,
}
use conifer_os.Tasks.Entry.{entered, left, isr80h_handler-register}
use conifer_os.Tasks.Resume.{run_tasks, resumed, task_exec-save_state}

abbrev three : TaskList
three = record {
  current_task = 20;
  task_list_head = 10;
  task_list_tail = 30;
  next = λ t. if t == 10 then 20 else if t == 20 then 30 else 0;
  prev = λ t. if t == 30 then 20 else if t == 20 then 10 else 0;
}

apart : (a b : ℕ) → a < b → a ≢ b
apart a b h e = omega (arith, h, e)

positive : (a : ℕ) → 0 < a → a ≢ 0
positive a h e = omega (arith, h, e)

three-IsSequence : IsSequence three (10 ∷ 20 ∷ 30 ∷ [])
three-IsSequence = (
  (
    refl,
    (
      positive 10 (omega arith),
      (refl, (positive 20 (omega arith), (refl, (positive 30 (omega arith), refl)))),
    ),
  ),
  (
    (refl, (refl, (refl, refl))),
    (
      (apart 10 20 (omega arith), (apart 10 30 (omega arith), tt)),
      ((apart 20 30 (omega arith), tt), (tt, tt)),
    ),
  ),
)

task_list_append-IsSequence_example :
    IsSequence (task_list_append three 40) (10 ∷ 20 ∷ 30 ∷ 40 ∷ [])
task_list_append-IsSequence_example =
    task_list_append-IsSequence three (10 ∷ 20 ∷ 30 ∷ []) 40 three-IsSequence
      (positive 40 (omega arith)) refl refl
      (λ e. omega (arith, e), (λ e. omega (arith, e), (λ e. omega (arith, e), tt)))

task_list_remove-first_example : IsSequence (task_list_remove three 10) (20 ∷ 30 ∷ [])
task_list_remove-first_example = task_list_remove-first three 10 (20 ∷ 30 ∷ []) three-IsSequence

switches-reach_example : (switches 2 three).current_task ≡ 10
switches-reach_example =
    switches-reach three (10 ∷ []) (30 ∷ []) [] (20 ∷ 30 ∷ []) 20 10 three-IsSequence refl refl

abbrev registers : ℕ → Registers
registers t = record {
  edi = 0;
  esi = 0;
  ebp = 0;
  ebx = 0;
  edx = 0;
  ecx = 0;
  eax = 0;
  ip = t;
  cs = 0;
  eflags = 0;
  esp = 0;
  ss = 0;
}

abbrev frame : ℕ → InterruptFrame
frame n = record {
  edi = 0;
  esi = 0;
  ebp = 0;
  unused_esp = 0;
  ebx = 0;
  edx = 0;
  ecx = 0;
  eax = n;
  ip = 7;
  cs = 0;
  eflags = 0;
  esp = 0;
  ss = 0;
}

abbrev machine : Machine
machine = record {
  tasks = three;
  registers = registers;
  process = λ t. t + 1;
  current_process = 21;
  page_tables = kernel;
  ports = [];
  user_mode = none;
}

abbrev commands : List (Option Command)
commands = replicate 1024 none

-- Returns what its caller has in eax.
abbrev echo : Command
echo m f = some (f.eax, m)

isr80h_handler-register_example :
    isr80h_register_command commands 3 (some echo) >>= (λ cs. isr80h_handler cs machine 3 (frame 5))
    ≡ some (5, left (entered machine (frame 5)))
unfolding entered
isr80h_handler-register_example =
    isr80h_handler-register commands 3 5 echo machine (entered machine (frame 5)) (frame 5)
      (length-replicate {A = Option Command} 1024 none) (omega arith) refl
      (positive 20 (omega arith)) refl (positive 20 (omega arith))

task_exec-save_state_example :
    task_current_save_state machine (frame 5)
      >>= (λ m1. run_tasks m1 ((30, frame 6) ∷ []) >>= λ m2. resumed m2 20)
    ≡ some (some (saved_registers (frame 5)))
task_exec-save_state_example =
    task_exec-save_state machine (frame 5) ((30, frame 6) ∷ []) (positive 20 (omega arith))
      ((positive 30 (omega arith), apart 20 30 (omega arith)), tt)
