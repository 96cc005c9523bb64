-- ===== src/Lib.antt =====
-- ConiferOS: the core of a 32-bit x86 kernel.
--
-- The kernel (src/kernel.c) sets up a block heap, a page table, a disk with its file system, a
-- keyboard and the tasks that it runs. These parts are modelled, each in a module of its name:
--   Memory     src/memory/memory.c: memset, memcmp, memcpy. user_programs/stdlib has the same text.
--   CString    src/string/string.c: the string functions, on arrays of characters. The children say
--              what they return (Length, Compare) and what they write (Copy).
--   Heap       src/memory/heap/heap.c: heap_create, heap_malloc and heap_free on the entry table, with
--              the names of the C functions less `heap_`. Search is about the search for free
--              blocks, Blocks and Mark about the entries of an allocation, Alloc, Malloc, Pages
--              and Create about the operations.
--   PathParser src/fs/pparser.c: pparser_parse. Names describes a path without buffers or pointers.
--   Disk       src/disk/disk.c and src/disk/disk_stream.c: sector reads and the byte stream.
--   Keyboard   src/keyboard/keyboard.c and src/keyboard/ps2_keyboard.c: the key buffer of a process
--              (src/task/process.h) and the scan codes. Queue, Run and Backspace are about the buffer,
--              ScanCode about the driver, and Drivers has the list of drivers and their set-up.
--   KernelHeap src/memory/heap/kernel_heap.c: the heap that the kernel allocates from.
--   Paging     src/memory/paging/paging.c, with the names of the C functions less `paging_`, on a memory of
--              32-bit words. Tables is about one entry, Range about mappings, Physical about the
--              translation of an address, Init and Direct about the direct mapping of all
--              addresses, Masks and Align about bits and rounding.
--   Gdt        src/gdt/gdt.c: the bytes of segment descriptors. Decode reads them back.
--   Terminal   src/print/print.c: the cursor and the cells of the text screen.
--   File       src/fs/file.c: open files over the drivers. A driver is a record of functions on a state
--              of its own, as `struct filesystem` is one of function pointers; Slots is about the
--              arrays of pointers, Open about fopen and fclose.
--   Fat        src/fs/fat/fat16.c, with the names of the C functions less `fat16_` where the file layer does
--              not call them: the structures and names; Clusters has the table and the reads, Directory
--              the directories and paths, Operations what the file layer calls. Reads, Items, Counting,
--              Names, Matching and Find are about these; Outcomes, Ownership and Balance about the heap.
--              Driver is fat16_fs, the driver as the file layer sees it, and Driver.Paths about both.
--   Elf        src/loader/formats/elf_file.c: the checks on a file in memory, and the range of its
--              segments, which Segments is about. Accessors has what nothing calls.
--   TaskList   src/task/task.c: the doubly linked list of tasks. Sequence says which tasks it stands for;
--              Append, Remove and Rotation are about the operations.
--   Tasks      src/task/task.c and src/idt/idt.c: saved registers, page tables in use, and the entry of
--              interrupts and system calls. Entry and Resume are about these.
--   Processes  src/task/process.c: the table of processes, and the memory that they allocate and free.
--              Allocations is about the latter.
--   Stdlib     user_programs/stdlib/src/stdlib.c and string.c: the printing of numbers and the splitting of
--              texts in user programs. Reverse, Digits and Numerals follow the steps of itoa, and Tokens
--              the calls of strtok. Stdio is printf of stdio.c, and Formats is about it.
--   Shell      user_programs/shell/src/shell.c and user_programs/stdlib/src/coniferos.c: a round of the shell.
--              Editing is about the line that is read, Parsing about its tokens, and Commands about both.
--   Echo       user_programs/echo/src/echo.c.
--   Interrupts src/idt/idt.c: the tables of gates, interrupt handlers and system calls. Init is about
--              idt_init.
--   UserMemory src/task/task.c: how the kernel reads the memory of a task. Text has the strings in it, Copy
--              the copy of one by a page that is mapped for a while.
--   Loading    src/task/process.c, src/task/task.c and src/loader/formats/elf_file.c: what process_load
--              does. Loading.antt has the arguments and the mapping of a process, Executable the
--              reading of files, Task and Slot the making of a task and process; Words, Arguments and UserView
--              are about the former, and Slot.Table about the latter, by the rules in Settles. Pages, Mapping, Reads
--              and Slot.Runs are about the making of a process that succeeds. StackArguments has what nothing calls.
--   SystemCalls src/isr80h: the system calls and the handler of exceptions, on a state of the whole kernel.
--              Print and Exit are about these, and Pointers about the arguments of execve, which has its own
--              module: Execve, with the state behind it in Execve.Replaced.
--   Startup    src/kernel.c: kernel_main, which calls the parts above in turn. Tables is about what it sets up,
--              Boot about the whole state when the first process is loaded, First about that process.
--   Common     what these share: tests on numbers, arrays that fault, error codes, bit masks.
--   Tests      runs of the models, and the theorems at concrete inputs.
-- The parts call each other as in the program: the path parser uses the string and memory functions,
-- the disk stream the disk, the FAT16 driver the disk stream, fopen the path parser and the disk, the
-- kernel's heap the block heap, and processes that heap and the page tables; the loading of programs calls
-- the file layer, the checks on ELF files, the heap, the page tables and the list of tasks, and the system
-- calls all of the kernel, which start-up puts together.
--
-- State is passed explicitly. An array of the program is a list, a pointer into one is the list from
-- there on, and an access outside it is `none`: the program would read or write foreign memory there.
-- A result `none` inside an answer is a null pointer. Machine integers are natural numbers; where the
-- program's arithmetic wraps, the model takes the remainder by the power of two. The positions and counts
-- of src/disk/disk_stream.c and src/fs/fat/fat16.c are an `int` given by its 32 bits: a count below 0
-- reads nothing, and at a position below 0, and where one overflows, the result is `none`. Error codes
-- are the values of src/status.h, negated there and written `err` here.
--
-- The file layer is told which allocations of each call of fopen succeed. The parser of paths and fopen
-- write through the results of theirs without a test, so a failure is `none`. The blocks that the file layer and
-- the drivers take are not counted in the heap of the loading of programs; for the start-up,
-- `disk_kernel` says what the driver leaves of it when it has looked at the disk.
--
-- In the FAT16 driver the kernel's heap, and in the shell that of the program, is a list of outcomes,
-- whether each of the next allocations succeeds, and the number of live ones. A structure that is read from the disk is its bytes.
--
-- Seven loops of the source recurse on fuel. parse_parts takes the length of the path and one more, and
-- every part or slash takes a character. disk_stream_read takes fuel as an argument, and each round
-- takes a byte or more, so more fuel than bytes asked for is enough; fat16_read_internal takes a call
-- per byte for the same reason. reverse_str takes the number of characters and itoa the number, and
-- each round takes two characters or a digit. parse_args takes the length of the command and one
-- more, and each round takes a character or more. The count of a directory's entries has the bound
-- `max_entries`, which is enough where one of so many entries is the last. The loops of the heap count
-- the entries that are left, and the other loops are structural.
--
-- The drive is the parameter `sector`, which gives the 512 bytes of each block address; the wait for the
-- drive is left out.
--
-- The memory of the kernel is a function from addresses to bytes, apart from the page tables, which are
-- a memory of words, and from the entry table of the heap. User memory is read through `get_physical_address`.
-- Program files come from the file layer over any driver. For the text that the system call print shows,
-- `memory_from` lists the bytes of the array, so that a string which does not end in it is `none`.
--
-- Not modelled: the field with the name of a process's file, the smoke tests of src/kernel.c, which nothing
-- calls, what the shell prints, the assembly, whose routines are parameters where they are called, and the
-- Rust crate.
pub mod Common
pub mod Memory
pub mod CString
pub mod Heap
pub mod KernelHeap
pub mod Paging
pub mod Gdt
pub mod Terminal
pub mod PathParser
pub mod Disk
pub mod File
pub mod Fat
pub mod Elf
pub mod TaskList
pub mod Interrupts
pub mod Tasks
pub mod Processes
pub mod UserMemory
pub mod Loading
pub mod SystemCalls
pub mod Startup
pub mod Stdlib
pub mod Shell
pub mod Echo
pub mod Keyboard
pub mod Tests
