-- ===== src/TaskList.antt =====
-- src/task/task.c: the doubly linked list of tasks. A task is its address, 0
-- the null pointer; `next` and `prev` are the fields of all tasks in memory.
pub mod Sequence
pub mod Append
pub mod Remove
pub mod Rotation
use conifer_os.Common.{ℕ, ◌&&◌, ◌==◌, if◌then◌else◌}

pub record TaskList : Type 0 where
  pub current_task : ℕ
  pub task_list_head : ℕ
  pub task_list_tail : ℕ
  pub next : ℕ → ℕ
  pub prev : ℕ → ℕ

-- A field of the task `task` set to `v`.
unfoldable pub update : (ℕ → ℕ) → ℕ → ℕ → ℕ → ℕ
update field task v a = if a == task then v else field a

unfoldable pub task_get_next : TaskList → ℕ
task_get_next s = if s.next s.current_task == 0 then s.task_list_head else s.next s.current_task

-- The list without the task, before the current task is replaced.
unfoldable pub unlink : TaskList → ℕ → TaskList
unlink s task =
    if (task == s.task_list_head) && (task == s.task_list_tail)
    then record s { task_list_head = 0; task_list_tail = 0; current_task = 0 }
    else if task == s.task_list_head
    then record s { task_list_head = s.next task; prev = update s.prev (s.next task) 0 }
    else if task == s.task_list_tail
    then record s { task_list_tail = s.prev task; next = update s.next (s.prev task) 0 }
    else record s { next = update s.next (s.prev task) (s.next task) }

unfoldable pub task_list_remove : TaskList → ℕ → TaskList
task_list_remove s task =
    let s' = unlink s task in
    if task == s'.current_task then record s' { current_task = task_get_next s' } else s'

-- The last part of `task_new`, for a task that was initialised.
unfoldable pub task_list_append : TaskList → ℕ → TaskList
task_list_append s task =
    if s.task_list_head == 0
    then record s { task_list_head = task; task_list_tail = task; current_task = task }
    else record s {
      next = update (update s.next s.task_list_tail task) task 0;
      prev = update s.prev task s.task_list_tail;
      task_list_tail = task;
    }

-- What `task_exec` does to the list.
unfoldable pub make_current : TaskList → ℕ → TaskList
make_current s task = record s { current_task = task }
