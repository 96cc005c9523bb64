-- ===== src/KernelHeap/Init.antt =====
-- The kernel's heap after `kernel_heap_init`, and allocations from it.
use conifer_os.Common.{ℕ, ◌+◌, ◌≡◌, refl, sym, some, List, arith, length, ok}
use conifer_os.Heap.{HeapDesc}
use conifer_os.Heap.Blocks.{gaps}
use conifer_os.Heap.Alloc.{Holds}
use conifer_os.Heap.Create.{fresh, create-ok, fresh-Holds}
use conifer_os.KernelHeap.{kernel_heap_address, kernel_heap_table, kernel_heap_init}

-- Where the table has room for 25600 entries, kernel_heap_init succeeds whatever they are, and
-- leaves a heap at 16 MiB that holds a row of 25600 free blocks.
pub kernel_heap_init-Holds :
    (kernel_heap : HeapDesc) (entries : List ℕ)
    → length entries ≡ 25600
    → (kernel_heap_init kernel_heap entries ≡ some (ok 0, fresh kernel_heap_address 25600))
      × Holds (fresh kernel_heap_address 25600) (gaps 25600)
unfolding kernel_heap_init kernel_heap_table
kernel_heap_init-Holds kernel_heap entries room = (
  create-ok kernel_heap kernel_heap_address (kernel_heap_address + 104857600)
      (kernel_heap_table entries) (sym room)
      (record { start_aligned = refl; end_aligned = refl; entries = refl }),
  fresh-Holds kernel_heap_address 25600 (omega arith) (omega arith),
)
