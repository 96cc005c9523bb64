-- ===== src/Loading/Slot/Runs.antt =====
-- src/task/process.c: a process is made where its program was read and memory is left.
use conifer_os.Common.{ℕ, ◌≡◌, Option, some, Result, ok}
use conifer_os.Loading.Reads.{Ready}
use conifer_os.Loading.Slot.{LoaderState}
use conifer_os.Loading.Task.{NewTask, initial_registers}
use conifer_os.Processes.{Process}

module _ {World Priv : Type 0} where
  -- A call that makes a process, and the kernel behind it.
  pub record Makes (ip n m : ℕ) (r : Option (Result (Process × NewTask) × LoaderState World Priv))
      : Type 0 where
    pub process : Process
    pub task : NewTask
    pub after : LoaderState World Priv
    pub result : r ≡ some (ok (process, task), after)
    pub registers : task.registers ≡ initial_registers ip
    pub ready : Ready after.kernel n m
