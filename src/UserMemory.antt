-- ===== src/UserMemory.antt =====
-- src/task/task.c and src/isr80h/process.c: how the kernel reads the memory of a task. An access goes
-- through the page tables in use: those of the task, or those of the kernel, in which every address is
-- its own. The page tables lie outside the bytes.
pub mod Text
pub mod Copy
use conifer_os.Common.{
  ℕ, zero, suc, ◌+◌, ◌*◌, ◌%◌, ◌^◌, Option, some, none, leb, ◌==◌, if◌then◌else◌, ◌>>=◌, Result, ok,
  err, einvarg, enomem, eio,
}
use conifer_os.KernelHeap.{kzalloc}
use conifer_os.Paging.{Memory, page_size, get_pte, map_range, set_entry, get_physical_address}
use conifer_os.Processes.{Kernel, kernel_free, user_writable}

-- From virtual to physical addresses.
abbrev pub Translation : Type 0
Translation = ℕ → ℕ

-- The page tables of the kernel.
abbrev pub direct : Translation
direct a = a

unfoldable pub put_byte : (ℕ → ℕ) → ℕ → ℕ → ℕ → ℕ
put_byte bytes p v a = if a == p then v else bytes a

-- A `uint32_t` in memory.
unfoldable pub load_word : (ℕ → ℕ) → Translation → ℕ → ℕ
load_word bytes tr a =
    bytes (tr a)
    + bytes (tr ((a + 1) % 2 ^ 32)) * 2 ^ 8
    + bytes (tr ((a + 2) % 2 ^ 32)) * 2 ^ 16
    + bytes (tr ((a + 3) % 2 ^ 32)) * 2 ^ 24

-- `strncpy` within the memory that the page tables in use lead to; `n` may be left.
unfoldable pub strncpy_loop : ℕ → Translation → (ℕ → ℕ) → ℕ → ℕ → ℕ → ℕ
unfolding put_byte
strncpy_loop zero tr bytes dest src = put_byte bytes (tr dest) 0
strncpy_loop (suc n) tr bytes dest src =
    let c = bytes (tr src) in
    let rest =
      strncpy_loop n tr (put_byte bytes (tr dest) c) ((dest + 1) % 2 ^ 32) ((src + 1) % 2 ^ 32) in
    if c == 0 then put_byte bytes (tr dest) 0 else rest

-- `copy_string_from_user_task` with the buffer `tmp` that was allocated.
unfoldable pub copy_by : Kernel → ℕ → ℕ → ℕ → ℕ → ℕ → Option (Result ℕ × Kernel)
unfolding strncpy_loop kernel_free
copy_by k pgd task_virt_addr kernel_virt_addr max tmp =
    let old_entry = get_pte k.page_tables pgd tmp in
    let mapped = (map_range k.page_tables pgd tmp tmp 1 user_writable).1 in
    let copied = strncpy_loop max (get_physical_address mapped pgd) k.bytes tmp task_virt_addr in
    let restored = set_entry mapped pgd tmp old_entry in
    let k' = record k { bytes = copied; page_tables = restored.1 } in
    elim restored.0 [
      | err e ↦ kernel_free k' tmp >>= λ k''. some (err eio, k'')
      | ok r ↦
          some (ok 0, record k' { bytes = strncpy_loop max direct copied kernel_virt_addr tmp })
    ]

-- `pgd` is `task->paging->pgd`; `max` is not negative.
unfoldable pub copy_string_from_user_task : Kernel → ℕ → ℕ → ℕ → ℕ → Option (Result ℕ × Kernel)
unfolding copy_by
copy_string_from_user_task k pgd task_virt_addr kernel_virt_addr max =
    if leb page_size max
    then some (err einvarg, k)
    else (kzalloc k.heap k.bytes max >>= λ (ptr, heap, bytes).
        let k' = record k { heap = heap; bytes = bytes } in
        elim ptr [
          | none ↦ some (err enomem, k')
          | some tmp ↦ copy_by k' pgd task_virt_addr kernel_virt_addr max tmp
        ])

-- The word `index` of the stack of a task with the stack pointer `esp`; the index is not negative.
unfoldable pub task_get_stack_item : Kernel → ℕ → ℕ → ℕ → ℕ
unfolding load_word
task_get_stack_item k pgd esp index =
    load_word k.bytes (get_physical_address k.page_tables pgd) ((esp + 4 * index) % 2 ^ 32)

unfoldable pub task_virtual_address_to_physical : Kernel → ℕ → ℕ → ℕ
task_virtual_address_to_physical k pgd virtual_address =
    get_physical_address k.page_tables pgd virtual_address
