-- ===== src/Processes.antt =====
-- src/task/process.c: the memory that processes hold, and the table of processes. The kernel's state is
-- its heap, the bytes that the heap hands out, and the words of the page tables. A null pointer to a
-- process is `none`, a null pointer to memory 0.
pub mod Allocations
use conifer_os.Common.{
  ℕ, zero, suc, ◌+◌, ◌-◌, ◌*◌, ◌%◌, ◌^◌, not, Option, none, some, List, [], ◌∷◌, ◌==◌, ltb,
  if◌then◌else◌, ◌>>=◌, get_elem?, store, Result, ok, err, eistaken,
}
use conifer_os.Heap.{HeapDesc}
use conifer_os.KernelHeap.{kzalloc, kfree}
use conifer_os.Paging.{Memory, create_mapping, align_address}
use conifer_os.File.{find_slot}

-- MAX_PROCESSES
abbrev pub max_processes : ℕ
max_processes = 12

-- PAGING_PRESENT | PAGING_USER_SUPERVISOR | PAGING_READ_WRITE
abbrev pub user_writable : ℕ
user_writable = 0b111

-- PAGING_USER_SUPERVISOR | PAGING_PRESENT
abbrev pub user_readable : ℕ
user_readable = 0b101

pub record Kernel : Type 0 where
  pub heap : HeapDesc
  pub bytes : ℕ → ℕ
  pub page_tables : Memory

-- `struct process_mem_allocation`
pub record MemAllocation : Type 0 where
  pub ptr : ℕ
  pub size : ℕ

-- What a process was loaded from: a binary in memory, or the buffer and the structure of an ELF file.
pub data Executable : Type 0 where
  binary : ℕ → Executable
  elf : Option (ℕ × ℕ) → Executable

-- The fields of `struct process` for its memory; `pgd` is `task->paging->pgd`, and `mem_allocs` has
-- PROCESS_MAX_ALLOCATIONS elements.
pub record Process : Type 0 where
  pub pid : ℕ
  pub pgd : ℕ
  pub mem_allocs : List MemAllocation
  pub executable : Executable
  pub stack_addr : ℕ

-- The index of the first allocation at an address, from index `i` on.
unfoldable pub find_allocation : List MemAllocation → ℕ → ℕ → Option ℕ
find_allocation [] addr i = none
find_allocation (a ∷ allocs) addr i =
    let rest = find_allocation allocs addr (i + 1) in if a.ptr == addr then some i else rest

unfoldable pub process_get_free_memory_allocation_slot : Process → Option ℕ
unfolding find_allocation
process_get_free_memory_allocation_slot p = find_allocation p.mem_allocs 0 0

unfoldable pub get_process_allocation : Process → ℕ → Option ℕ
unfolding find_allocation
get_process_allocation p addr = find_allocation p.mem_allocs addr 0

unfoldable pub kernel_free : Kernel → ℕ → Option Kernel
unfolding kfree
kernel_free k ptr = kfree k.heap ptr >>= λ heap. some (record k { heap = heap })

-- The mapping of an allocation in a page directory, and the page tables after it.
unfoldable pub map_allocation : Kernel → ℕ → ℕ → ℕ → ℕ → Result ℕ × Kernel
unfolding create_mapping align_address
map_allocation k pgd ptr size flags =
    let mapped =
      create_mapping k.page_tables pgd ptr ptr (align_address ((ptr + size) % 2 ^ 32)) flags in
    (mapped.0, record k { page_tables = mapped.1 })

-- `process_malloc_syscall_handler` with the memory `ptr` that was allocated.
unfoldable pub track : Kernel → Process → ℕ → ℕ → Option (Option ℕ × (Process × Kernel))
unfolding process_get_free_memory_allocation_slot map_allocation kernel_free
track k p ptr size = elim (process_get_free_memory_allocation_slot p) [
  | none ↦ kernel_free k ptr >>= λ k'. some (none, (p, k'))
  | some index ↦
      let mapped = map_allocation k p.pgd ptr size user_writable in
      elim mapped.0 [
        | err e ↦ kernel_free mapped.1 ptr >>= λ k'. some (none, (p, k'))
        | ok r ↦ store p.mem_allocs index (record { ptr = ptr; size = size }) >>= λ allocs.
            some (some ptr, (record p { mem_allocs = allocs }, mapped.1))
      ]
]

-- If the heap has no memory, the null pointer is freed.
unfoldable pub process_malloc_syscall_handler :
    Kernel → Process → ℕ → Option (Option ℕ × (Process × Kernel))
unfolding kzalloc track kernel_free
process_malloc_syscall_handler k p size = kzalloc k.heap k.bytes size >>= λ (ptr, heap, bytes).
    let k' = record k { heap = heap; bytes = bytes } in
    elim ptr [
      | none ↦ kernel_free k' 0 >>= λ k''. some (none, (p, k''))
      | some a ↦ track k' p a size
    ]

-- `process_free_syscall_handler` with the allocation and its index.
unfoldable pub free_allocation :
    Kernel → Process → ℕ → ℕ → MemAllocation → Option (Process × Kernel)
unfolding map_allocation kernel_free
free_allocation k p ptr index a =
    let mapped = map_allocation k p.pgd a.ptr a.size user_readable in
    elim mapped.0 [
      | err e ↦ some (p, mapped.1)
      | ok r ↦ kernel_free mapped.1 ptr >>= λ k'.
          store p.mem_allocs index (record { ptr = 0; size = 0 }) >>= λ allocs.
          some (record p { mem_allocs = allocs }, k')
    ]

unfoldable pub process_free_syscall_handler : Kernel → Process → ℕ → Option (Process × Kernel)
unfolding get_process_allocation free_allocation
process_free_syscall_handler k p ptr = elim (get_process_allocation p ptr) [
  | none ↦ some (p, k)
  | some index ↦ get_elem? p.mem_allocs index >>= λ a. free_allocation k p ptr index a
]

-- Memory that is freed unless its address is null.
unfoldable pub free_some : Kernel → ℕ → Option Kernel
unfolding kernel_free
free_some k ptr = if ptr == 0 then some k else kernel_free k ptr

unfoldable pub free_allocations : Kernel → List MemAllocation → Option Kernel
unfolding free_some
free_allocations k [] = some k
free_allocations k (a ∷ allocs) = free_some k a.ptr >>= λ k'. free_allocations k' allocs

unfoldable pub free_executable : Kernel → Executable → Option Kernel
unfolding free_some kernel_free
free_executable k (binary ptr) = free_some k ptr
free_executable k (elf none) = some k
free_executable k (elf (some (buffer, address))) =
    kernel_free k buffer >>= λ k'. kernel_free k' address

unfoldable pub process_free : Kernel → Process → Option Kernel
unfolding free_executable free_some free_allocations
process_free k p = free_executable k p.executable >>= λ k1.
    free_some k1 p.stack_addr >>= λ k2. free_allocations k2 p.mem_allocs

-- A number that is not negative.
unfoldable pub process_get : List (Option Process) → ℕ → Option (Option Process)
process_get processes pid = if ltb pid max_processes then get_elem? processes pid else some none

unfoldable pub process_get_free_slot : List (Option Process) → Result ℕ
unfolding find_slot
process_get_free_slot processes = elim (find_slot processes 0) [
  | none ↦ err eistaken
  | some i ↦ ok i
]

unfoldable pub process_terminate :
    Kernel → List (Option Process) → Process → Option (Kernel × List (Option Process))
unfolding process_free
process_terminate k processes p =
    process_free k p >>= λ k'. store processes p.pid none >>= λ ps. some (k', ps)
