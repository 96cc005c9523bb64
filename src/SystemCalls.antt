-- ===== src/SystemCalls.antt =====
-- src/isr80h: the system calls. A call changes the state of the whole kernel and returns a value for the
-- program; a null pointer to a task faults (`none`).
pub mod Print
pub mod Exit
pub mod Pointers
pub mod Execve
use conifer_os.Common.{
  ◌*◌, ◌/◌, leb, Result, ok, err, einvarg, eio, ℕ, zero, suc, ◌+◌, ◌-◌, ◌%◌, ◌^◌, Option, none,
  some, List, [], ◌∷◌, ltb, ◌==◌, if◌then◌else◌, ◌>>=◌,
}
use conifer_os.Interrupts.{isr80h_register_command}
use conifer_os.Keyboard.{KeyboardBuffer, keyboard_pop}
use conifer_os.Processes.{
  Kernel, Process, process_malloc_syscall_handler, process_free_syscall_handler, process_terminate,
  user_writable,
}
use conifer_os.TaskList.{task_get_next}
use conifer_os.Tasks.{Machine, task_exec, swap_kernel_page_tables}
use conifer_os.Terminal.{Terminal, terminal_write_char, print}
use conifer_os.Loading.{max_cmmd_arg_len}
use conifer_os.Paging.{page_size, get_pte, map_range, set_entry, get_physical_address}
use conifer_os.UserMemory.{
  Translation, put_byte, load_word, task_get_stack_item, copy_string_from_user_task,
}

-- MAX_STR_SIZE
abbrev pub max_str_size : ℕ
max_str_size = 1024

-- The tasks and registers, the memory of the kernel, the screen, the table of processes, and the
-- processes and their key buffers by address.
pub record System : Type 0 where
  pub machine : Machine
  pub kernel : Kernel
  pub terminal : Terminal
  pub processes : List (Option Process)
  pub process_at : ℕ → Process
  pub keyboard_buffer : ℕ → KeyboardBuffer

abbrev pub current : System → ℕ
current s = s.machine.tasks.current_task

-- `get_current_task()->process`
abbrev pub process_of_current : System → ℕ
process_of_current s = s.machine.process (current s)

-- The page directory of the current task.
abbrev pub pgd_of_current : System → ℕ
pgd_of_current s = (s.process_at (process_of_current s)).pgd

abbrev pub set_at : {A : Type 0} → (ℕ → A) → ℕ → A → ℕ → A
set_at f p v a = if a == p then v else f a

-- `task_get_stack_item(get_current_task(), index)`, which leaves the page tables of the kernel in use.
unfoldable pub stack_item : System → ℕ → Option (ℕ × System)
unfolding task_get_stack_item swap_kernel_page_tables
stack_item s index =
    if current s == 0
    then none
    else some (
      task_get_stack_item s.kernel (pgd_of_current s) (s.machine.registers (current s)).esp index,
      record s { machine = swap_kernel_page_tables s.machine },
    )

-- A sum wraps.
unfoldable pub isr80h_command_0_sum : System → Option (ℕ × System)
unfolding stack_item
isr80h_command_0_sum s =
    stack_item s 0 >>= λ (n1, s1). stack_item s1 1 >>= λ (n2, s2). some ((n1 + n2) % 2 ^ 32, s2)

-- `n` bytes of memory from an address on.
unfoldable pub memory_from : ℕ → (ℕ → ℕ) → ℕ → List ℕ
memory_from zero bytes a = []
memory_from (suc n) bytes a = bytes a ∷ memory_from n bytes (a + 1)

-- `buf` is the address of the array on the stack of the kernel. Whether the copy has failed is not
-- looked at. A string that does not end in the array faults: the copy of one writes behind it.
unfoldable pub isr80h_command_1_print : ℕ → System → Option (ℕ × System)
unfolding stack_item memory_from
isr80h_command_1_print buf s = stack_item s 0 >>= λ (user_message, s1).
    copy_string_from_user_task s1.kernel (pgd_of_current s1) user_message buf max_str_size
    >>= λ (rc, k). print s1.terminal (memory_from max_str_size k.bytes buf) >>= λ t.
        some (0, record s1 { kernel = k; terminal = t })

-- A `char` that is negative is extended by its sign.
unfoldable pub extend_char : ℕ → ℕ
extend_char c = if ltb c 128 then c else c + (2 ^ 32 - 2 ^ 8)

-- Without a current task there is no key.
unfoldable pub isr80h_command_2_get_key_press : System → Option (ℕ × System)
unfolding extend_char
isr80h_command_2_get_key_press s =
    let p = process_of_current s in
    if current s == 0
    then some (0, s)
    else (keyboard_pop (some (s.keyboard_buffer p)) >>= λ (c, k). elim k [
      | none ↦ some (extend_char c, s)
      | some k' ↦ some (extend_char c, record s { keyboard_buffer = set_at s.keyboard_buffer p k' })
    ])

unfoldable pub isr80h_command_3_put_char_on_display : System → Option (ℕ × System)
unfolding stack_item
isr80h_command_3_put_char_on_display s = stack_item s 0 >>= λ (c, s1).
    some (0, record s1 { terminal = terminal_write_char s1.terminal (c % 2 ^ 8) 15 })

-- A null result is 0.
unfoldable pub isr80h_command_4_malloc : System → Option (ℕ × System)
unfolding stack_item
isr80h_command_4_malloc s = stack_item s 0 >>= λ (size, s1).
    process_malloc_syscall_handler s1.kernel (s1.process_at (process_of_current s1)) size
    >>= λ (ptr, (p, k)). some (
      elim ptr [ none ↦ 0 | some a ↦ a ],
      record s1 { kernel = k; process_at = set_at s1.process_at (process_of_current s1) p },
    )

unfoldable pub isr80h_command_5_free : System → Option (ℕ × System)
unfolding stack_item
isr80h_command_5_free s = stack_item s 0 >>= λ (ptr, s1).
    process_free_syscall_handler s1.kernel (s1.process_at (process_of_current s1)) ptr >>= λ (p, k).
    some (0, record s1 { kernel = k; process_at = set_at s1.process_at (process_of_current s1) p })

-- `task_exec(task_get_next())`; without a current task a null pointer is read.
unfoldable pub exec_next : System → Option System
unfolding task_exec task_get_next
exec_next s =
    if current s == 0
    then none
    else some (record s { machine = task_exec s.machine (task_get_next s.machine.tasks) })

-- `process_terminate(get_current_process())` and the next task.
unfoldable pub end_current : System → Option System
unfolding process_terminate exec_next
end_current s =
    process_terminate s.kernel s.processes (s.process_at s.machine.current_process)
    >>= λ (k, processes). exec_next (record s { kernel = k; processes = processes })

-- `task_exec` does not return, so the result 0 is not reached.
unfoldable pub isr80h_command_7_exit : System → Option System
unfolding end_current
isr80h_command_7_exit s = end_current s

-- The handler of the exceptions of the processor in src/idt/idt.c.
unfoldable pub idt_handle_user_process_exception : System → Option System
unfolding end_current
idt_handle_user_process_exception s = end_current s

-- The commands are given by their numbers.
unfoldable pub isr80h_register_commands :
    {A : Type 0} → List (Option A) → (ℕ → A) → Option (List (Option A))
unfolding isr80h_register_command
isr80h_register_commands commands command =
    isr80h_register_command commands 0 (some (command 0)) >>= λ c0.
    isr80h_register_command c0 1 (some (command 1)) >>= λ c1.
    isr80h_register_command c1 2 (some (command 2)) >>= λ c2.
    isr80h_register_command c2 3 (some (command 3)) >>= λ c3.
    isr80h_register_command c3 4 (some (command 4)) >>= λ c4.
    isr80h_register_command c4 5 (some (command 5)) >>= λ c5.
    isr80h_register_command c5 6 (some (command 6)) >>= λ c6.
    isr80h_register_command c6 7 (some (command 7))

-- A `uint32_t` stored through page tables.
unfoldable pub store_through : (ℕ → ℕ) → Translation → ℕ → ℕ → ℕ → ℕ
unfolding put_byte
store_through bytes tr p v =
    put_byte
      (put_byte
        (put_byte (put_byte bytes (tr p) (v % 2 ^ 8)) (tr ((p + 1) % 2 ^ 32)) (v / 2 ^ 8 % 2 ^ 8))
        (tr ((p + 2) % 2 ^ 32)) (v / 2 ^ 16 % 2 ^ 8))
      (tr ((p + 3) % 2 ^ 32)) (v / 2 ^ 24 % 2 ^ 8)

-- The loop of `copy_argv_pointers_from_user_task` over `n` pointers.
unfoldable pub copy_pointers : ℕ → Translation → (ℕ → ℕ) → ℕ → ℕ → ℕ → ℕ
unfolding store_through
copy_pointers zero tr bytes kernel_argv argv_usr_addr = bytes
copy_pointers (suc n) tr bytes kernel_argv argv_usr_addr =
    copy_pointers n tr (store_through bytes tr kernel_argv (load_word bytes tr argv_usr_addr))
      ((kernel_argv + 4) % 2 ^ 32) ((argv_usr_addr + 4) % 2 ^ 32)

-- `argc * MAX_CMMD_ARG_LEN` is an `int` that is not negative. Whether the mapping has failed is not
-- looked at.
unfoldable pub copy_argv_pointers_from_user_task : Kernel → ℕ → ℕ → ℕ → ℕ → Result ℕ × Kernel
unfolding copy_pointers
copy_argv_pointers_from_user_task k pgd argv_usr_addr kernel_argv argc =
    let old_entry = get_pte k.page_tables pgd kernel_argv in
    let mapped = (map_range k.page_tables pgd kernel_argv kernel_argv 1 user_writable).1 in
    let copied =
      copy_pointers argc (get_physical_address mapped pgd) k.bytes kernel_argv argv_usr_addr in
    let restored = set_entry mapped pgd kernel_argv old_entry in
    let k' = record k { bytes = copied; page_tables = restored.1 } in
    if leb page_size (argc * max_cmmd_arg_len)
    then (err einvarg, k)
    else (elim restored.0 [ err e ↦ err eio | ok r ↦ ok 0 ], k')
