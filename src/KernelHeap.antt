-- ===== src/KernelHeap.antt =====
-- src/memory/heap/kernel_heap.c: the one heap of the kernel, and the bytes of the memory that it hands
-- out, as a function from addresses.
pub mod Init
use conifer_os.Common.{
  ℕ, ◌+◌, ◌/◌, Bool, ◌&&◌, Option, none, some, List, ltb, leb, if◌then◌else◌, ◌>>=◌, Result,
}
use conifer_os.Heap.{HeapDesc, HeapEntryTable, heap_block_size, create, malloc, free}

-- KERNEL_HEAP_SIZE
abbrev pub kernel_heap_size : ℕ
kernel_heap_size = 104857600

-- KERNEL_HEAP_ADDRESS
abbrev pub kernel_heap_address : ℕ
kernel_heap_address = 0x01000000

-- `entries` is what lies at KERNEL_HEAP_TABLE_ADDR.
unfoldable pub kernel_heap_table : List ℕ → HeapEntryTable
kernel_heap_table entries = record {
  entries = entries;
  total_entries = kernel_heap_size / heap_block_size;
}

-- A failure is only printed.
unfoldable pub kernel_heap_init : HeapDesc → List ℕ → Option (Result ℕ × HeapDesc)
kernel_heap_init kernel_heap entries =
    create kernel_heap kernel_heap_address (kernel_heap_address + kernel_heap_size)
      (kernel_heap_table entries)

unfoldable pub kmalloc : HeapDesc → ℕ → Option (Option ℕ × HeapDesc)
kmalloc kernel_heap size = malloc kernel_heap size

unfoldable pub kfree : HeapDesc → ℕ → Option HeapDesc
kfree kernel_heap ptr = free kernel_heap ptr

-- `memset(ptr, 0, size)`
unfoldable pub clear : (ℕ → ℕ) → ℕ → ℕ → ℕ → ℕ
clear bytes ptr size a = if leb ptr a && ltb a (ptr + size) then 0 else bytes a

unfoldable pub kzalloc : HeapDesc → (ℕ → ℕ) → ℕ → Option (Option ℕ × HeapDesc × (ℕ → ℕ))
kzalloc kernel_heap bytes size = kmalloc kernel_heap size >>= λ (ptr, heap). elim ptr [
  | none ↦ some (none, heap, bytes)
  | some p ↦ some (some p, heap, clear bytes p size)
]
