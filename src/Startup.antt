-- ===== src/Startup.antt =====
-- src/kernel.c: kernel_main. What the linker and the hardware fix are the fields of `Symbols`; the
-- writes of processor registers by assembly are fields of the state. A fault is `none`.
pub mod Tables
pub mod Boot
pub mod First
use conifer_os.Common.{
  ℕ, ◌*◌, ◌==◌, Option, none, some, List, [], ◌∷◌, if◌then◌else◌, ◌>>=◌, Result, ok, err, Errno,
}
use conifer_os.File.{Files, Filesystem, fs_init, fs_resolve}
use conifer_os.Gdt.{SegmentDescriptor, segment_descriptor_to_raw}
use conifer_os.Interrupts.{IdtEntry, idt_init}
use conifer_os.Keyboard.Drivers.{Devices, KeyboardList, keyboard_init}
use conifer_os.KernelHeap.{kernel_heap_init}
use conifer_os.Loading.Slot.{LoaderState, process_load}
use conifer_os.Loading.Task.{NewTask, new_page_tables}
use conifer_os.Processes.{Kernel, Process, user_writable}
use conifer_os.SystemCalls.{isr80h_register_commands, set_at}
use conifer_os.Tasks.{Machine, Registers, kernel, task_exec}
use conifer_os.Terminal.{Terminal, terminal_initialize, print}

-- `sizeof(tss)`
abbrev pub tss_size : ℕ
tss_size = 108

-- `gdt`, for the address of `tss`.
abbrev pub gdt : ℕ → List SegmentDescriptor
gdt tss =
    record { base = 0x00; limit = 0x00; type = 0x00 }
    ∷ record { base = 0x00; limit = 0xffffffff; type = 0x9a }
    ∷ record { base = 0x00; limit = 0xffffffff; type = 0x92 }
    ∷ record { base = 0x00; limit = 0xffffffff; type = 0xf8 }
    ∷ record { base = 0x00; limit = 0xffffffff; type = 0xf2 }
    ∷ record { base = tss; limit = tss_size; type = 0xe9 }
    ∷ []

-- TSS_GDT_INDEX
abbrev pub tss_gdt_index : ℕ
tss_gdt_index = 5

-- KERNEL_STACK_ADDR
abbrev pub kernel_stack_addr : ℕ
kernel_stack_addr = 0x600000

-- KERNEL_DATA_SELECTOR
abbrev pub kernel_data_selector : ℕ
kernel_data_selector = 0x10

-- `0:/shell.elf`
abbrev pub shell_path : List ℕ
shell_path = 48 ∷ 58 ∷ 47 ∷ 115 ∷ 104 ∷ 101 ∷ 108 ∷ 108 ∷ 46 ∷ 101 ∷ 108 ∷ 102 ∷ 0 ∷ []

-- `Failed to load 0:/shell.elf`
abbrev pub failed_to_load : List ℕ
failed_to_load =
    70 ∷ 97 ∷ 105 ∷ 108 ∷ 101 ∷ 100 ∷ 32 ∷ 116 ∷ 111 ∷ 32 ∷ 108 ∷ 111 ∷ 97 ∷ 100 ∷ 32 ∷ 48 ∷ 58 ∷ 47
    ∷ 115 ∷ 104 ∷ 101 ∷ 108 ∷ 108 ∷ 46 ∷ 101 ∷ 108 ∷ 102 ∷ 10 ∷ 0 ∷ []

-- `Rust integration test passed`
abbrev pub rust_passed : List ℕ
rust_passed =
    82 ∷ 117 ∷ 115 ∷ 116 ∷ 32 ∷ 105 ∷ 110 ∷ 116 ∷ 101 ∷ 103 ∷ 114 ∷ 97 ∷ 116 ∷ 105 ∷ 111 ∷ 110 ∷ 32
    ∷ 116 ∷ 101 ∷ 115 ∷ 116 ∷ 32 ∷ 112 ∷ 97 ∷ 115 ∷ 115 ∷ 101 ∷ 100 ∷ 10 ∷ 0 ∷ []

-- `Rust integration test failed`
abbrev pub rust_failed : List ℕ
rust_failed =
    82 ∷ 117 ∷ 115 ∷ 116 ∷ 32 ∷ 105 ∷ 110 ∷ 116 ∷ 101 ∷ 103 ∷ 114 ∷ 97 ∷ 116 ∷ 105 ∷ 111 ∷ 110 ∷ 32
    ∷ 116 ∷ 101 ∷ 115 ∷ 116 ∷ 32 ∷ 102 ∷ 97 ∷ 105 ∷ 108 ∷ 101 ∷ 100 ∷ 10 ∷ 0 ∷ []

-- The fields of `struct tss` that are not left zero.
pub record Tss : Type 0 where
  pub esp0 : ℕ
  pub ss0 : ℕ

-- Addresses of assembly routines, of the structures `tss` and `ps2_keyboard`, the C functions that
-- are registered, what fat16_init returns, and what lies at KERNEL_HEAP_TABLE_ADDR. `disk_kernel` says
-- what the driver leaves of the kernel's memory, from whose heap it allocates, when it looks for a file
-- system on the disk; `rust_plus_2_callable` is the function of the Rust crate.
pub record Symbols (World Priv Handler Command : Type 0) : Type 0 where
  pub interrupt_pointer_table : ℕ → ℕ
  pub idt_zero : ℕ
  pub isr80h_wrapper : ℕ
  pub tss : ℕ
  pub ps2_keyboard : ℕ
  pub exception_handler : Handler
  pub keyboard_handler : Handler
  pub command : ℕ → Command
  pub fat16 : Option (Filesystem World Priv)
  pub heap_table : List ℕ
  pub disk_kernel : Kernel → Kernel
  pub rust_plus_2_callable : ℕ → ℕ

-- The structures that kernel_main sets up, the segment selector in the task register, and the descriptor
-- and the directory of `kernel_pages`. The handlers of interrupts and the ports are in `keyboards`;
-- `registers` and `process` are fields of all tasks.
pub record KernelState (World Priv Handler Command : Type 0) : Type 0 where
  pub terminal : Terminal
  pub gdt_raw : List (List ℕ)
  pub loader : LoaderState World Priv
  pub idt : List IdtEntry
  pub commands : List (Option Command)
  pub keyboards : KeyboardList (Devices Handler)
  pub tss : Tss
  pub task_register : ℕ
  pub kernel_pages : ℕ × ℕ
  pub registers : ℕ → Registers
  pub process : ℕ → ℕ
  pub current_process : ℕ

-- `disk` is left with the file system that recognises it.
unfoldable pub disk_search_and_init : {World Priv : Type 0} → Files World Priv → Files World Priv
unfolding fs_resolve
disk_search_and_init s = let r = fs_resolve s 0 in record r.1 { disk_filesystem = r.0 }

module _ {World Priv Handler Command : Type 0} (y : Symbols World Priv Handler Command) where
  -- From the page tables on.
  unfoldable pub start_services :
      KernelState World Priv Handler Command → Option (KernelState World Priv Handler Command)
  unfolding new_page_tables isr80h_register_commands keyboard_init
  start_services s = new_page_tables s.loader.kernel user_writable >>= λ ((paging, pgd), k).
      if paging == 0
      then none
      else (isr80h_register_commands s.commands y.command >>= λ commands.
          let keyboards = keyboard_init s.keyboards y.ps2_keyboard in
          keyboards.world >>= λ devices. some (record s {
            loader = record s.loader { kernel = k };
            kernel_pages = (paging, pgd);
            commands = commands;
            keyboards = keyboards;
          }))

  -- `kernel_main` up to the first process. A failure of the heap is only printed.
  unfoldable pub start_up :
      KernelState World Priv Handler Command → Option (KernelState World Priv Handler Command)
  unfolding terminal_initialize segment_descriptor_to_raw kernel_heap_init fs_init
      disk_search_and_init idt_init start_services
  start_up s = segment_descriptor_to_raw (gdt y.tss) >>= λ raws.
      kernel_heap_init s.loader.kernel.heap y.heap_table >>= λ (rc, heap).
      fs_init s.loader.files y.fat16 >>= λ files. s.keyboards.world >>= λ (handlers, ports).
      idt_init y.interrupt_pointer_table y.idt_zero y.isr80h_wrapper y.exception_handler s.idt
        handlers
      >>= λ (idt, hs). start_services (record s {
        terminal = terminal_initialize s.terminal;
        gdt_raw = raws;
        loader = record s.loader {
          kernel = y.disk_kernel (record s.loader.kernel { heap = heap });
          files = disk_search_and_init files;
        };
        idt = idt;
        keyboards = record s.keyboards { world = some (hs, ports) };
        tss = record { esp0 = kernel_stack_addr; ss0 = kernel_data_selector };
        task_register = tss_gdt_index * 8;
      })

  -- The machine that `task_exec` works on, with the fields of a new task.
  unfoldable pub first_machine : KernelState World Priv Handler Command → NewTask → Machine
  first_machine s task = record {
    tasks = s.loader.tasks;
    registers = set_at s.registers task.address task.registers;
    process = set_at s.process task.address task.process;
    current_process = s.current_process;
    page_tables = kernel;
    ports = elim s.keyboards.world [ none ↦ [] | some devices ↦ devices.1 ];
    user_mode = none;
  }

  -- What is printed behind the loading of the first process.
  abbrev pub message : {A : Type 0} → Result A → List ℕ
  message (err e) = failed_to_load
  message (ok a) = if y.rust_plus_2_callable 2 == 4 then rust_passed else rust_failed

  -- `kernel_main` behind the loading of the first process. An error is the panic.
  unfoldable pub run_first :
      KernelState World Priv Handler Command
      → Result (Process × NewTask)
      → Option (Result Machine × KernelState World Priv Handler Command)
  unfolding first_machine task_exec print
  run_first s (err e) = print s.terminal (message {A = Process × NewTask} (err e)) >>= λ t.
      some (err e, record s { terminal = t })
  run_first s (ok (p, task)) =
      print s.terminal (message {A = Process × NewTask} (ok (p, task))) >>= λ t. some (
        ok (task_exec (first_machine s task) s.loader.tasks.task_list_head),
        record s { terminal = t },
      )

  unfoldable pub kernel_main :
      KernelState World Priv Handler Command
      → Option (Result Machine × KernelState World Priv Handler Command)
  unfolding start_up process_load run_first
  kernel_main s = start_up s >>= λ s1. process_load s1.loader shell_path >>= λ (rc, loader).
      run_first (record s1 { loader = loader }) rc
