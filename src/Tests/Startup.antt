-- ===== src/Tests/Startup.antt =====
-- src/kernel.c with a driver that recognises the disk and opens no file.
use conifer_os.Common.{ℕ, ◌+◌, ◌≡◌, refl, true, Option, none, some, List, [], replicate, err, eio}
use conifer_os.File.{Filesystem, fs_resolve, fs_init, fs_insert_filesystem, find_slot, resolve_loop}
use conifer_os.Keyboard.Drivers.{Devices, KeyboardList, ps2_keyboard_init}
use conifer_os.Interrupts.{IdtEntry}
use conifer_os.Loading.Settles.{Settles}
use conifer_os.Heap.{HeapDesc, malloc}
use conifer_os.Heap.Create.{fresh}
use conifer_os.KernelHeap.{kernel_heap_address}
use conifer_os.Processes.{Kernel, max_processes}
use conifer_os.Startup.{Symbols, KernelState, disk_search_and_init}
use conifer_os.Tests.Loading.{kernel, files}

-- The world counts the calls.
abbrev driver : Filesystem ℕ ℕ
driver = record {
  fs_open = λ w d parts mode. (err eio, w + 1);
  resolve = λ w d. (true, w + 1);
  fs_fread = λ w d p size nmemb. ((err eio, []), w + 1);
  fs_fseek = λ w p offset whence. (err eio, w + 1);
  fs_fstat = λ w d p. (err eio, w + 1);
  fs_fclose = λ w p. w + 1;
}

-- The driver takes a block of the heap.
abbrev disk_kernel : Kernel → Kernel
disk_kernel k = elim (malloc k.heap 88) [ none ↦ k | some (p, heap) ↦ record k { heap = heap } ]

-- Handlers and commands are numbers.
abbrev symbols : Symbols ℕ ℕ ℕ ℕ
symbols = record {
  interrupt_pointer_table = λ i. 0x10000 + i;
  idt_zero = 0x20000;
  isr80h_wrapper = 0x20100;
  tss = 0x30000;
  ps2_keyboard = 0x30100;
  exception_handler = 1;
  keyboard_handler = 2;
  command = λ i. 100 + i;
  fat16 = some driver;
  heap_table = replicate 25600 0;
  disk_kernel = disk_kernel;
  rust_plus_2_callable = λ a. a + 2;
}

abbrev handlers : List (Option ℕ)
handlers = replicate 512 none

abbrev blank : IdtEntry
blank = record { offset_1 = 0; selector = 0; zero = 0; type_attr = 0; offset_2 = 0 }

abbrev keyboards : KeyboardList (Devices ℕ)
keyboards = record {
  keyboard_list_head = 0;
  keyboard_list_last = 0;
  next = λ k. 0;
  init = λ k. some (ps2_keyboard_init 2);
  world = some (handlers, []);
}

abbrev cold_state : KernelState ℕ ℕ ℕ ℕ
cold_state = record {
  terminal = record { row = 0; col = 0; cells = λ i. 0 };
  gdt_raw = [];
  loader = record {
    files = files;
    kernel = kernel;
    tasks = record {
      current_task = 0;
      task_list_head = 0;
      task_list_tail = 0;
      next = λ t. 0;
      prev = λ t. 0;
    };
    processes = replicate max_processes none;
  };
  idt = replicate 512 blank;
  commands = replicate 1024 none;
  keyboards = keyboards;
  tss = record { esp0 = 0; ss0 = 0 };
  task_register = 0;
  kernel_pages = (0, 0);
  registers = λ t. record {
    edi = 0;
    esi = 0;
    ebp = 0;
    ebx = 0;
    edx = 0;
    ecx = 0;
    eax = 0;
    ip = 0;
    cs = 0;
    eflags = 0;
    esp = 0;
    ss = 0;
  };
  process = λ t. 0;
  current_process = 0;
}

abbrev heap : HeapDesc
heap = fresh kernel_heap_address 25600

-- The state of the driver behind the search of the disk.
found : Option ℕ
unfolding fs_init fs_insert_filesystem disk_search_and_init fs_resolve resolve_loop find_slot
found = elim (fs_init files (some driver)) [
  | none ↦ none
  | some s ↦ some (disk_search_and_init s).world
]

found_once : found ≡ some 1
unfolding found
found_once = refl
