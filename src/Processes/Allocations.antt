-- ===== src/Processes/Allocations.antt =====
-- src/task/process.c: memory that a process asks the kernel for and gives back.
use conifer_os.Common.{
  ℕ, ◌+◌, ◌≡◌, ◌≢◌, ◌∙◌, refl, ap, arith, none, some, List, [], ◌∷◌, ◌++◌, eq→==, ne→==,
  append_assoc, length, store-append, get_elem?-append, ok, ◌>>=◌,
}
use conifer_os.CString.Length.{All}
use conifer_os.Heap.{HeapDesc, free, address_to_block}
use conifer_os.KernelHeap.{kzalloc, kfree, kernel_heap_address}
use conifer_os.Processes.{
  Kernel, MemAllocation, Process, find_allocation, process_get_free_memory_allocation_slot,
  get_process_allocation, kernel_free, map_allocation, track, process_malloc_syscall_handler,
  free_allocation, process_free_syscall_handler, user_writable, user_readable,
}

-- No allocation begins at the address.
abbrev pub Unused : ℕ → List MemAllocation → Type 0
Unused addr allocs = All (λ (a : MemAllocation). a.ptr ≢ addr) allocs

find_allocation-none :
    (allocs : List MemAllocation) (addr i : ℕ)
    → Unused addr allocs
    → find_allocation allocs addr i ≡ none
unfolding find_allocation
find_allocation-none [] addr i h = refl
find_allocation-none (a ∷ allocs) addr i (h, hs) =
    rw (ne→== a.ptr addr h) (find_allocation-none allocs addr (i + 1) hs)

find_allocation-first :
    (pre post : List MemAllocation) (addr size i : ℕ)
    → Unused addr pre
    → find_allocation (pre ++ (record { ptr = addr; size = size } ∷ post)) addr i
      ≡ some (i + length pre)
unfolding find_allocation
find_allocation-first [] post addr size i h =
    let e : i ≡ i + 0 = omega arith in rw (eq→== addr addr refl) (ap some e)
find_allocation-first (a ∷ pre) post addr size i (h, hs) =
    let e : i + 1 + length pre ≡ i + length (a ∷ pre) = omega arith in
    rw (ne→== a.ptr addr h) (find_allocation-first pre post addr size (i + 1) hs ∙ ap some e)

find_at :
    (pre post : List MemAllocation) (addr size : ℕ)
    → Unused addr pre
    → find_allocation (pre ++ (record { ptr = addr; size = size } ∷ post)) addr 0
      ≡ some (length pre)
find_at pre post addr size h =
    let e : 0 + length pre ≡ length pre = omega arith in
    find_allocation-first pre post addr size 0 h ∙ ap some e

-- process_free_syscall_handler of an address at which no allocation of the process begins changes
-- nothing, of the process or of the kernel.
process_free_syscall_handler-foreign :
    (k : Kernel) (p : Process) (ptr : ℕ)
    → Unused ptr p.mem_allocs
    → process_free_syscall_handler k p ptr ≡ some (p, k)
unfolding process_free_syscall_handler get_process_allocation
process_free_syscall_handler-foreign k p ptr h =
    rw (find_allocation-none p.mem_allocs ptr 0 h, process_free_syscall_handler) refl

-- Freeing the null pointer writes in front of the table of the kernel's heap.
kernel_free-null : (k : Kernel) → k.heap.start_addr ≡ kernel_heap_address → kernel_free k 0 ≡ none
unfolding kernel_free kfree free address_to_block
kernel_free-null k h = rw (h) refl

-- Where the heap of the kernel has no memory of the size, process_malloc_syscall_handler writes
-- in front of the table of the heap.
process_malloc_syscall_handler-null :
    (k : Kernel) (p : Process) (size : ℕ) (heap : HeapDesc) (bytes : ℕ → ℕ)
    → heap.start_addr ≡ kernel_heap_address
    → kzalloc k.heap k.bytes size ≡ some (none, heap, bytes)
    → process_malloc_syscall_handler k p size ≡ none
unfolding process_malloc_syscall_handler
process_malloc_syscall_handler-null k p size heap bytes h e =
    rw
      (
        e,
        process_malloc_syscall_handler,
        kernel_free-null (record k { heap = heap; bytes = bytes }) h,
      )
      refl

-- A process with an allocation behind `pre` and before `post`.
unfoldable pub with_slot : Process → List MemAllocation → ℕ → ℕ → List MemAllocation → Process
with_slot p pre ptr size post = record p {
  mem_allocs = pre ++ (record { ptr = ptr; size = size } ∷ post);
}

-- A kernel whose heap has allocated memory.
unfoldable pub with_heap : Kernel → HeapDesc → (ℕ → ℕ) → Kernel
with_heap k heap bytes = record k { heap = heap; bytes = bytes }

module _ (p : Process) (pre post : List MemAllocation) (ptr size : ℕ) where
  malloc-with_slot :
      (k : Kernel) (old : ℕ) (heap : HeapDesc) (bytes : ℕ → ℕ)
      → Unused 0 pre
      → kzalloc k.heap k.bytes size ≡ some (some ptr, heap, bytes)
      → (r : ℕ) → (map_allocation (with_heap k heap bytes) p.pgd ptr size user_writable).0 ≡ ok r
      → process_malloc_syscall_handler k (with_slot p pre 0 old post) size
        ≡ some (
          some ptr,
          (
            with_slot p pre ptr size post,
            (map_allocation (with_heap k heap bytes) p.pgd ptr size user_writable).1,
          ),
        )
  unfolding process_malloc_syscall_handler with_slot with_heap
      process_get_free_memory_allocation_slot track
  malloc-with_slot k old heap bytes h e r m =
      rw
        (
          e,
          process_malloc_syscall_handler,
          track,
          find_at pre post 0 old h,
          m,
          track,
          store-append pre (record { ptr = 0; size = old }) post
              (record { ptr = ptr; size = size }),
          append_assoc pre (record { ptr = ptr; size = size } ∷ []) post,
        )
        refl

  free-with_slot :
      (k : Kernel) (heap' : HeapDesc)
      → Unused ptr pre
      → (r : ℕ) → (map_allocation k p.pgd ptr size user_readable).0 ≡ ok r
      → kfree k.heap ptr ≡ some heap'
      → process_free_syscall_handler k (with_slot p pre ptr size post) ptr
        ≡ some (
          with_slot p pre 0 0 post,
          record (map_allocation k p.pgd ptr size user_readable).1 { heap = heap' },
        )
  unfolding process_free_syscall_handler free_allocation with_slot get_process_allocation
      kernel_free
  free-with_slot k heap' h r m e =
      rw
        (
          find_at pre post ptr size h,
          process_free_syscall_handler,
          get_elem?-append pre (record { ptr = ptr; size = size }) post,
          process_free_syscall_handler,
          m,
          free_allocation,
          e,
          free_allocation,
          store-append pre (record { ptr = ptr; size = size }) post (record { ptr = 0; size = 0 }),
          append_assoc pre (record { ptr = 0; size = 0 } ∷ []) post,
        )
        refl

  -- Where the heap gives memory at an address that no allocation of the process before its first
  -- free slot has, both mappings of it succeed, and the heap takes it back,
  -- process_malloc_syscall_handler and then process_free_syscall_handler of the address leave the
  -- slot zeroed and the other allocations as they were, and the heap as it is after the free.
  pub process_free-malloc_syscall_handler :
      (k : Kernel) (old : ℕ) (heap heap' : HeapDesc) (bytes : ℕ → ℕ) (r r' : ℕ)
      → Unused 0 pre
      → Unused ptr pre
      → kzalloc k.heap k.bytes size ≡ some (some ptr, heap, bytes)
      → (map_allocation (with_heap k heap bytes) p.pgd ptr size user_writable).0 ≡ ok r
      → let k1 = (map_allocation (with_heap k heap bytes) p.pgd ptr size user_writable).1 in
        (map_allocation k1 p.pgd ptr size user_readable).0 ≡ ok r'
        → kfree heap ptr ≡ some heap'
        → process_malloc_syscall_handler k (with_slot p pre 0 old post) size
            >>= (λ (a, (p', k')). process_free_syscall_handler k' p' ptr)
          ≡ some (
            with_slot p pre 0 0 post,
            record (map_allocation
                (map_allocation (with_heap k heap bytes) p.pgd ptr size user_writable).1
                p.pgd
                ptr
                size
                user_readable).1 { heap = heap' },
          )
  unfolding with_heap map_allocation
  process_free-malloc_syscall_handler k old heap heap' bytes r r' h g e m m' f =
      ap (λ o. o >>= (λ (a, (p', k')). process_free_syscall_handler k' p' ptr))
        (malloc-with_slot k old heap bytes h e r m)
      ∙ free-with_slot (map_allocation (with_heap k heap bytes) p.pgd ptr size user_writable).1
          heap' g r' m' f
