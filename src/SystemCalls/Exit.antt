-- ===== src/SystemCalls/Exit.antt =====
-- The system call `exit` of src/isr80h/process.c and what runs behind it.
use conifer_os.Common.{
  ℕ, ◌<◌, ◌≡◌, ◌≢◌, refl, ap, sym, ◌∙◌, Option, some, none, List, [], ◌∷◌, length, get_elem?,
  get_elem?-set_self, set, store-some, eq→==, ne→==,
}
use conifer_os.Processes.{Kernel, Process, process_free, process_terminate}
use conifer_os.SystemCalls.{System, current, exec_next, end_current, isr80h_command_7_exit}
use conifer_os.TaskList.{TaskList, task_get_next}
use conifer_os.Tasks.{task_exec}
use conifer_os.TaskList.Sequence.{IsSequence}

abbrev pub current_process_of : System → Process
current_process_of s = s.process_at s.machine.current_process

-- The call enters user mode with the registers of the task `t`; the kernel is `k`, the slot of the
-- process is free, and the list stands for the tasks `ts`.
pub record Entered (s : System) (k : Kernel) (t : ℕ) (ts : List ℕ) (r : Option System)
    : Type 0 where
  pub after : System
  pub result : r ≡ some after
  pub registers : after.machine.user_mode ≡ some (s.machine.registers t)
  pub running : current after ≡ t
  pub freed : after.kernel ≡ k
  pub slot : get_elem? after.processes (current_process_of s).pid ≡ some none
  pub tasks : IsSequence after.machine.tasks ts

terminated :
    (s : System) (k : Kernel)
    → process_free s.kernel (current_process_of s) ≡ some k
    → (current_process_of s).pid < length s.processes
    → process_terminate s.kernel s.processes (current_process_of s)
      ≡ some (k, set s.processes (current_process_of s).pid none)
unfolding process_terminate
terminated s k e h = rw (e, store-some s.processes (current_process_of s).pid none h) refl

-- The next task of a list that stands for one task is that task.
next_of_one :
    (l : TaskList) (t : ℕ) → IsSequence l (t ∷ []) → l.current_task ≡ t → task_get_next l ≡ t
unfolding task_get_next
next_of_one l t q c =
    let last : l.next l.current_task ≡ 0 = ap l.next c ∙ q.0.1.1 in
    rw (eq→== (l.next l.current_task) 0 last) q.0.0

-- Where the list stands for the current task alone, the number of its process is in the table,
-- and process_free succeeds, the system call exit frees what the process owns and its slot, and
-- then enters user mode with the registers of the same task, which is still current and in the
-- list.
pub isr80h_command_7_exit-Entered :
    (s : System) (k : Kernel) (t : ℕ)
    → IsSequence s.machine.tasks (t ∷ [])
    → current s ≡ t
    → process_free s.kernel (current_process_of s) ≡ some k
    → (current_process_of s).pid < length s.processes
    → Entered s k t (t ∷ []) (isr80h_command_7_exit s)
unfolding exec_next task_exec end_current isr80h_command_7_exit
isr80h_command_7_exit-Entered s k t q c e h =
    let next = task_get_next s.machine.tasks in
    let same = next_of_one s.machine.tasks t q c in
    let full : current s ≢ 0 = λ z. q.0.1.0 (sym c ∙ z) in
    record {
      after = record s {
        machine = task_exec s.machine next;
        kernel = k;
        processes = set s.processes (current_process_of s).pid none;
      };
      result = rw (terminated s k e h, ne→== (current s) 0 full) refl;
      registers = ap (λ x. some (s.machine.registers x)) same;
      running = same;
      freed = refl;
      slot = get_elem?-set_self s.processes (current_process_of s).pid none h;
      tasks = q;
    }
