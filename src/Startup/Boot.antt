-- ===== src/Startup/Boot.antt =====
-- What is in place when the first process is loaded.
use conifer_os.Common.{
  ℕ, ◌+◌, ◌*◌, ◌^◌, ◌≤◌, ◌<◌, ◌≡◌, ◌≢◌, ap, ◌∙◌, Option, none, some, List, [], ◌∷◌, ◌++◌, length,
  replicate, get_elem?, ◌>>=◌,
}
use conifer_os.Paging.{page_size}
use conifer_os.File.{Filesystem}
use conifer_os.Heap.Create.{fresh}
use conifer_os.Heap.Pages.{Front}
use conifer_os.Interrupts.{total_interrupts, max_isr80h_commands}
use conifer_os.Interrupts.Init.{LeadsTo, vector}
use conifer_os.Keyboard.Drivers.{ps2_keyboard_init}
use conifer_os.KernelHeap.{kernel_heap_address}
use conifer_os.Paging.Direct.{IsDirect}
use conifer_os.Processes.{user_writable}
use conifer_os.Startup.{Symbols, KernelState, gdt, kernel_stack_addr, kernel_data_selector}
use conifer_os.Startup.Tables.{Decodes, Mounted}

-- The memory in which kernel_main begins: the tables have their sizes, no command and no keyboard is
-- registered, and the structure of the PS/2 keyboard has its function; and what the driver leaves of the
-- heap when it looks for a file system: `n` taken blocks in front of 1026 and `m` free ones.
pub record Cold {World Priv Handler Command : Type 0} (y : Symbols World Priv Handler Command)
    (s : KernelState World Priv Handler Command) (handlers : List (Option Handler))
    (ports : List (ℕ × ℕ)) (n m : ℕ) : Type 0 where
  pub heap_table : length y.heap_table ≡ 25600
  pub tss : y.tss < 2 ^ 32
  pub idt : length s.idt ≡ total_interrupts
  pub world : s.keyboards.world ≡ some (handlers, ports)
  pub handlers_sized : length handlers ≡ total_interrupts
  pub commands : s.commands ≡ replicate max_isr80h_commands none
  pub driver_heap :
      Front
        (y.disk_kernel (record s.loader.kernel { heap = fresh kernel_heap_address 25600 })).heap
        n
        (1026 + m)
  pub driver_start :
      (y.disk_kernel
        (record s.loader.kernel { heap = fresh kernel_heap_address 25600 })).heap.start_addr
      ≡ kernel_heap_address
  pub keyboard : s.keyboards.init y.ps2_keyboard ≡ some (ps2_keyboard_init y.keyboard_handler)

-- The kernel when the first process is loaded.
pub record Booted {World Priv Handler Command : Type 0} (y : Symbols World Priv Handler Command)
    (fat16 : Filesystem World Priv) (s : KernelState World Priv Handler Command)
    (handlers : List (Option Handler)) (ports : List (ℕ × ℕ)) (n m : ℕ)
    (s' : KernelState World Priv Handler Command) : Type 0 where
  pub descriptors : Decodes (gdt y.tss) s'.gdt_raw
  pub task_state : s'.tss ≡ record { esp0 = kernel_stack_addr; ss0 = kernel_data_selector }
  pub heap : Front s'.loader.kernel.heap (n + 1026) m
  pub start : s'.loader.kernel.heap.start_addr ≡ kernel_heap_address
  pub directory : s'.kernel_pages.1 ≡ kernel_heap_address + n * page_size
  pub direct :
      IsDirect s'.loader.kernel.page_tables (kernel_heap_address + n * page_size) user_writable
  pub files : Mounted fat16 s.loader.files s'.loader.files
  pub gates :
      (i : ℕ)
      → i < total_interrupts
      → LeadsTo
          (get_elem? s'.idt i)
          (vector y.interrupt_pointer_table y.idt_zero y.isr80h_wrapper i)
  pub called : List (Option Handler)
  pub devices : s'.keyboards.world ≡ some (called, ports ++ ((0x64, 0xae) ∷ []))
  pub exceptions : (i : ℕ) → i < 32 → get_elem? called i ≡ some (some y.exception_handler)
  pub keyboard : get_elem? called 0x21 ≡ some (some y.keyboard_handler)
  pub others : (i : ℕ) → 32 ≤ i → 0x21 ≢ i → get_elem? called i ≡ get_elem? handlers i
  pub commands : (i : ℕ) → i < 8 → get_elem? s'.commands i ≡ some (some (y.command i))
  pub processes : s'.loader.processes ≡ s.loader.processes
  pub tasks : s'.loader.tasks ≡ s.loader.tasks

-- A step whose result is known, and the rest.
pub bind_then :
    {A B : Type 0} {m : Option A} {a : A} (f : A → Option B) {r : Option B}
    → m ≡ some a
    → f a ≡ r
    → (m >>= f) ≡ r
bind_then f e h = ap (λ x. x >>= f) e ∙ h
