-- ===== src/Loading/Pages.antt =====
-- The allocations of the kernel and its page tables from a heap whose taken blocks all stand in front.
use conifer_os.Common.{
  ℕ, zero, suc, ◌+◌, ◌*◌, ◌-◌, ◌%◌, ◌^◌, ◌≤◌, ◌<◌, ◌≡◌, refl, ap, ◌∙◌, Option, some, List, [], ◌∷◌,
  arith,
}
use conifer_os.Heap.{heap_block_size}
use conifer_os.Heap.Pages.{Front, Front-cast, Front-below, malloc-Front}
use conifer_os.KernelHeap.{kzalloc, kmalloc, clear}
use conifer_os.Loading.Executable.{kernel_kzalloc}
use conifer_os.Loading.Task.{allocate_tables, table_of, new_page_tables}
use conifer_os.Paging.{page_size, init_page_tables}
use conifer_os.Paging.Direct.{IsDirect, Tables, init_page_tables-IsDirect}
use conifer_os.Processes.{Kernel}

-- A kernel whose heap begins at the same address as that of `k`, and has `n` taken blocks in front of `m`
-- free ones, with the page tables of `k`.
pub record Reserved (k : Kernel) (n m : ℕ) (k' : Kernel) : Type 0 where
  pub heap : Front k'.heap n m
  pub start : k'.heap.start_addr ≡ k.heap.start_addr
  pub tables : k'.page_tables ≡ k.page_tables

-- `suc c` blocks of `suc c + m` free ones.
pub kernel_kzalloc-Reserved :
    (k : Kernel) (n m c size : ℕ)
    → Front k.heap n (suc c + m)
    → c * heap_block_size < size
    → size ≤ suc c * heap_block_size
    → size ≤ 2 ^ 32 - heap_block_size
    → (k' : Kernel) × (kernel_kzalloc k size ≡ some (k.heap.start_addr + n * heap_block_size, k'))
      × Reserved k (n + suc c) m k'
unfolding kernel_kzalloc kzalloc kmalloc
kernel_kzalloc-Reserved k n m c size h over enough small =
    let (heap', e, held, start) =
      malloc-Front k.heap n (suc c + m) c size h (omega arith) over enough small in
    let p = k.heap.start_addr + n * heap_block_size in
    (
      record k { heap = heap'; bytes = clear k.bytes p size },
      rw e refl,
      record {
        heap =
            Front-cast heap' (n + suc c) (n + suc c) (suc c + m - suc c) m refl (omega arith) held;
        start = start;
        tables = refl;
      },
    )

-- `c` pages, one behind the other.
abbrev pub pages : ℕ → ℕ → List ℕ
pages a zero = []
pages a (suc c) = a ∷ pages (a + page_size) c

table_of-pages : (a c i : ℕ) → i < c → table_of (pages a c) i ≡ a + i * page_size
table_of-pages a zero i h = absurd (omega arith)
table_of-pages a (suc c) zero h = omega arith
table_of-pages a (suc c) (suc i) h =
    omega (arith, table_of-pages (a + page_size) c i (omega (arith, h)))

allocate_tables-Reserved :
    (c : ℕ) (k : Kernel) (n m : ℕ)
    → Front k.heap n (c + m)
    → (k' : Kernel) × (allocate_tables c k ≡ some (pages (k.heap.start_addr + n * page_size) c, k'))
      × Reserved k (n + c) m k'
unfolding allocate_tables
allocate_tables-Reserved zero k n m h = (
  k,
  refl,
  record {
    heap = Front-cast k.heap n (n + 0) (0 + m) m (omega arith) (omega arith) h;
    start = refl;
    tables = refl;
  },
)
allocate_tables-Reserved (suc c) k n m h =
    let (k1, e, r1) =
      kernel_kzalloc-Reserved k n (c + m) 0 page_size
        (Front-cast k.heap n n (suc c + m) (1 + (c + m)) refl (omega arith) h) (omega arith)
        (omega arith) (omega arith) in
    let (k2, f, r2) = allocate_tables-Reserved c k1 (n + 1) m r1.heap in
    let next : k1.heap.start_addr + (n + 1) * page_size
        ≡ k.heap.start_addr + n * page_size + page_size =
      omega (arith, r1.start) in
    (
      k2,
      rw (e, f) (ap (λ a. some ((k.heap.start_addr + n * page_size) ∷ pages a c, k2)) next),
      record {
        heap = Front-cast k2.heap (n + 1 + c) (n + suc c) m m (omega arith) refl r2.heap;
        start = r2.start ∙ r1.start;
        tables = r2.tables ∙ r1.tables;
      },
    )

pages-Tables :
    (a : ℕ)
    → a % page_size ≡ 0
    → a + 1025 * page_size ≤ 2 ^ 32
    → Tables a (table_of (pages (a + page_size) 1024))
pages-Tables a aligned fits =
    let at : (i : ℕ)
        → i < 1024
        → table_of (pages (a + page_size) 1024) i ≡ a + page_size + i * page_size =
      λ i h. table_of-pages (a + page_size) 1024 i h in
    record {
      separate = record {
        from_pgd = λ i j k x y z e. omega (arith, at i x, x, y, z, e);
        from_other = λ i j i' j' x y x' y' ne e. ne (omega (arith, at i x, at i' x', y, y', e));
      };
      aligned = λ i h. omega (arith, at i h, aligned);
      bound = λ i h. omega (arith, at i h, h, fits);
    }

-- Page tables at the page `pgd`, which map each address to itself, and a heap with the blocks of the
-- tables and of their descriptor taken.
pub record MadeTables (k : Kernel) (n m pgd flags : ℕ) (r : Option ((ℕ × ℕ) × Kernel))
    : Type 0 where
  pub paging : ℕ
  pub after : Kernel
  pub result : r ≡ some ((paging, pgd), after)
  pub given : 0 < paging
  pub heap : Front after.heap (n + 1026) m
  pub start : after.heap.start_addr ≡ k.heap.start_addr
  pub direct : IsDirect after.page_tables pgd flags

-- From a heap at a page with all taken blocks in front and 1026 or more free ones.
pub new_page_tables-MadeTables :
    (k : Kernel) (n m flags : ℕ)
    → Front k.heap n (1026 + m)
    → k.heap.start_addr % page_size ≡ 0
    → flags < 256
    → MadeTables k n m (k.heap.start_addr + n * page_size) flags (new_page_tables k flags)
unfolding new_page_tables
new_page_tables-MadeTables k n m flags h aligned small =
    let pgd = k.heap.start_addr + n * page_size in
    let (k1, e, r1) =
      kernel_kzalloc-Reserved k n (1024 + (1 + m)) 0 page_size
        (Front-cast k.heap n n (1026 + m) (1 + (1024 + (1 + m))) refl (omega arith) h) (omega arith)
        (omega arith) (omega arith) in
    let (k2, f, r2) = allocate_tables-Reserved 1024 k1 (n + 1) (1 + m) r1.heap in
    let (k3, g, r3) =
      kernel_kzalloc-Reserved k2 (n + 1 + 1024) m 0 4 r2.heap (omega arith) (omega arith)
        (omega arith) in
    let next : k1.heap.start_addr + (n + 1) * page_size ≡ pgd + page_size =
      omega (arith, r1.start) in
    let ptes = pages (pgd + page_size) 1024 in
    record {
      paging = k2.heap.start_addr + (n + 1 + 1024) * page_size;
      after = record k3 { page_tables = init_page_tables k3.page_tables pgd (table_of ptes) flags };
      result =
          rw (e, f, g)
            (ap
              (λ a. some (
                (k2.heap.start_addr + (n + 1 + 1024) * page_size, pgd),
                record k3 {
                  page_tables = init_page_tables k3.page_tables pgd (table_of (pages a 1024)) flags;
                },
              ))
              next);
      given = omega arith;
      heap = Front-cast k3.heap (n + 1 + 1024 + 1) (n + 1026) m m (omega arith) refl r3.heap;
      start = r3.start ∙ r2.start ∙ r1.start;
      direct =
          init_page_tables-IsDirect k3.page_tables pgd (table_of ptes) flags
            (pages-Tables pgd (omega (arith, aligned))
              (omega (arith, Front-below k.heap n (1026 + m) h)))
            small;
    }
