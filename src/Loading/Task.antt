-- ===== src/Loading/Task.antt =====
-- src/task/task.c: the making of a task with its page tables, and its end.
use conifer_os.Common.{
  ℕ, zero, suc, ◌-◌, ◌==◌, Option, none, some, List, [], ◌∷◌, if◌then◌else◌, ◌>>=◌, get_elem?,
}
use conifer_os.Elf.{word}
use conifer_os.Paging.{init_page_tables, free_page_tables}
use conifer_os.Processes.{Kernel, kernel_free, user_readable}
use conifer_os.TaskList.{TaskList, task_list_append, task_list_remove}
use conifer_os.Tasks.{Registers}
use conifer_os.Loading.{task_load_virtual_address, task_stack_virt_addr}
use conifer_os.Loading.Executable.{Program, binary, elf, kernel_kzalloc}

-- `sizeof(struct task)`
abbrev pub task_size : ℕ
task_size = 64

-- The tables that `init_page_tables` allocates, a page each.
unfoldable pub allocate_tables : ℕ → Kernel → Option (List ℕ × Kernel)
unfolding kernel_kzalloc
allocate_tables zero k = some ([], k)
allocate_tables (suc n) k = kernel_kzalloc k 4096 >>= λ (pte, k1).
    allocate_tables n k1 >>= λ (ptes, k2). some (pte ∷ ptes, k2)

abbrev pub table_of : List ℕ → ℕ → ℕ
table_of ptes i = elim (get_elem? ptes i) [ none ↦ 0 | some pte ↦ pte ]

-- `init_page_tables` with its allocations: the directory, the tables, and the descriptor, whose address
-- and whose directory are returned.
unfoldable pub new_page_tables : Kernel → ℕ → Option ((ℕ × ℕ) × Kernel)
unfolding kernel_kzalloc allocate_tables
new_page_tables k flags = kernel_kzalloc k 4096 >>= λ (pgd, k1).
    allocate_tables 1024 k1 >>= λ (ptes, k2). kernel_kzalloc k2 4 >>= λ (paging, k3). some (
      (paging, pgd),
      record k3 { page_tables = init_page_tables k3.page_tables pgd (table_of ptes) flags },
    )

-- The field `e_entry` of an ELF file.
unfoldable pub entry_of : Program → Option ℕ
entry_of (binary ptr size) = some task_load_virtual_address
entry_of (elf address f) = f.elf_file_buffer >>= λ file. word file 24

-- The registers that `task_init` sets; the structure was zeroed.
unfoldable pub initial_registers : ℕ → Registers
initial_registers ip = record {
  edi = 0;
  esi = 0;
  ebp = 0;
  ebx = 0;
  edx = 0;
  ecx = 0;
  eax = 0;
  ip = ip;
  cs = 0x1b;
  eflags = 0;
  esp = task_stack_virt_addr - 8;
  ss = 0x23;
}

-- A new task: its address, its page tables and registers, and its process.
pub record NewTask : Type 0 where
  pub address : ℕ
  pub paging : ℕ
  pub pgd : ℕ
  pub registers : Registers
  pub process : ℕ

-- `task_free`: the page tables, the list and the structure.
unfoldable pub free_all : Kernel → List ℕ → Option Kernel
unfolding kernel_free
free_all k [] = some k
free_all k (ptr ∷ ptrs) = kernel_free k ptr >>= λ k1. free_all k1 ptrs

unfoldable pub task_free : Kernel → TaskList → NewTask → Option (Kernel × TaskList)
unfolding free_all kernel_free
task_free k tasks task = free_all k (free_page_tables k.page_tables task.paging task.pgd) >>= λ k1.
    kernel_free k1 task.address >>= λ k2. some (k2, task_list_remove tasks task.address)

-- `task_new`. If the structure is not allocated, an error is returned as a pointer, which the caller
-- does not see as one; if the page tables are not, `task_free` reads through a null pointer.
unfoldable pub task_new : Kernel → TaskList → ℕ → Program → Option (NewTask × (Kernel × TaskList))
unfolding kernel_kzalloc new_page_tables entry_of initial_registers
task_new k tasks process program = kernel_kzalloc k task_size >>= λ (address, k1).
    if address == 0
    then none
    else (new_page_tables k1 user_readable >>= λ ((paging, pgd), k2).
        if paging == 0
        then none
        else (entry_of program >>= λ ip. some (
          record {
            address = address;
            paging = paging;
            pgd = pgd;
            registers = initial_registers ip;
            process = process;
          },
          (k2, task_list_append tasks address),
        )))
