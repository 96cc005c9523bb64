-- ===== src/Loading/Reads.antt =====
-- The heap of the kernel when a process is made, and blocks that are taken from it.
use conifer_os.Common.{ℕ, suc, ◌+◌, ◌-◌, ◌*◌, ◌^◌, ◌%◌, ◌≤◌, ◌<◌, ◌≡◌, arith, some}
use conifer_os.Heap.{heap_block_size}
use conifer_os.Heap.Pages.{Front}
use conifer_os.Loading.Pages.{kernel_kzalloc-Reserved}
use conifer_os.Loading.Executable.{kernel_kzalloc}
use conifer_os.Paging.{page_size}
use conifer_os.Processes.{Kernel}

-- A kernel whose heap begins at a page behind 0, with `n` taken blocks in front of `m` free ones.
pub record Ready (k : Kernel) (n m : ℕ) : Type 0 where
  pub front : Front k.heap n m
  pub aligned : k.heap.start_addr % page_size ≡ 0
  pub positive : 0 < k.heap.start_addr

-- `suc c` blocks from a kernel of this kind.
pub record Taken (k : Kernel) (n m c size : ℕ) : Type 0 where
  pub k' : Kernel
  pub result : kernel_kzalloc k size ≡ some (k.heap.start_addr + n * heap_block_size, k')
  pub ready : Ready k' (n + suc c) m
  pub start : k'.heap.start_addr ≡ k.heap.start_addr

pub take :
    (k : Kernel) (n m c size : ℕ)
    → Ready k n (suc c + m)
    → c * heap_block_size < size
    → size ≤ suc c * heap_block_size
    → size ≤ 2 ^ 32 - heap_block_size
    → Taken k n m c size
take k n m c size h over enough small =
    let (k', e, r) = kernel_kzalloc-Reserved k n m c size h.front over enough small in
    record {
      k' = k';
      result = e;
      ready = record {
        front = r.heap;
        aligned = omega (arith, r.start, h.aligned);
        positive = omega (arith, r.start, h.positive);
      };
      start = r.start;
    }
