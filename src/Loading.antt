-- ===== src/Loading.antt =====
-- src/task/process.c: the arguments, the stack and the executable of a process that is loaded, and their
-- place in its address space.
pub mod Words
pub mod Arguments
pub mod UserView
pub mod Executable
pub mod Task
pub mod Pages
pub mod Mapping
pub mod Reads
pub mod Settles
pub mod Slot
pub mod StackArguments
use conifer_os.Common.{
  ℕ, zero, suc, ◌+◌, ◌-◌, ◌*◌, ◌/◌, ◌%◌, ◌^◌, Option, some, none, List, [], ◌∷◌, ltb, ◌==◌,
  if◌then◌else◌, ◌>>=◌, bit_and, Result, ok, err,
}
use conifer_os.Elf.{word, e_phoff, e_phnum}
use conifer_os.Paging.{Memory, create_mapping, align_address, align_to_lower_page}
use conifer_os.Processes.{user_writable, user_readable}
use conifer_os.UserMemory.{put_byte}

-- TASK_STACK_SIZE
abbrev pub task_stack_size : ℕ
task_stack_size = 1024 * 16

-- TASK_STACK_VIRT_ADDR
abbrev pub task_stack_virt_addr : ℕ
task_stack_virt_addr = 0x3ff000

-- TASK_STACK_VIRT_ADDR_END
abbrev pub task_stack_virt_addr_end : ℕ
task_stack_virt_addr_end = 0x3ff000 - 1024 * 16

-- TASK_LOAD_VIRTUAL_ADDRESS
abbrev pub task_load_virtual_address : ℕ
task_load_virtual_address = 0x400000

-- COMMAND_LINE_ARG_VIRTUAL_ADDR
abbrev pub command_line_arg_virtual_addr : ℕ
command_line_arg_virtual_addr = 0x02000000

-- MAX_CMMD_ARG_LEN
abbrev pub max_cmmd_arg_len : ℕ
max_cmmd_arg_len = 32

-- MAX_NUM_ARGS
abbrev pub max_num_args : ℕ
max_num_args = 5

-- The bytes of an arg block.
abbrev pub len_arg_block : ℕ
len_arg_block = max_cmmd_arg_len * max_num_args + 4 * max_num_args

-- A `uint32_t` stored in memory.
unfoldable pub store_word : (ℕ → ℕ) → ℕ → ℕ → ℕ → ℕ
unfolding put_byte
store_word bytes p v =
    put_byte
      (put_byte (put_byte (put_byte bytes p (v % 2 ^ 8)) ((p + 1) % 2 ^ 32) (v / 2 ^ 8 % 2 ^ 8))
        ((p + 2) % 2 ^ 32) (v / 2 ^ 16 % 2 ^ 8))
      ((p + 3) % 2 ^ 32) (v / 2 ^ 24 % 2 ^ 8)

-- `strcpy` of an array of characters into memory.
unfoldable pub strcpy_bytes : (ℕ → ℕ) → ℕ → List ℕ → Option (ℕ → ℕ)
unfolding put_byte
strcpy_bytes bytes dest [] = none
strcpy_bytes bytes dest (c ∷ src) =
    let rest = strcpy_bytes (put_byte bytes dest c) ((dest + 1) % 2 ^ 32) src in
    if c == 0 then some (put_byte bytes dest 0) else rest

unfoldable pub translate_arg_block_addr_to_userspace_addr : ℕ → ℕ → ℕ
translate_arg_block_addr_to_userspace_addr addr arg_block =
    if ltb addr arg_block then 0 else (command_line_arg_virtual_addr + (addr - arg_block)) % 2 ^ 32

-- `argc` is not negative.
unfoldable pub put_argv_argc_in_stack_mem : (ℕ → ℕ) → ℕ → ℕ → ℕ → ℕ → ℕ
unfolding store_word
put_argv_argc_in_stack_mem bytes process_stack_ptr argc argv =
    store_word (store_word bytes ((process_stack_ptr + task_stack_size - 4) % 2 ^ 32) argc)
      ((process_stack_ptr + task_stack_size - 8) % 2 ^ 32) argv

-- The loop of `load_arg_block`: `n` arguments, with `user_argv[i]` at the address `user_argv`. The
-- arguments are arrays of characters.
unfoldable pub load_args : ℕ → (ℕ → ℕ) → ℕ → ℕ → ℕ → List (List ℕ) → Option (ℕ → ℕ)
unfolding strcpy_bytes store_word translate_arg_block_addr_to_userspace_addr
load_args zero bytes arg_block user_argv arg_strings argv = some bytes
load_args (suc n) bytes arg_block user_argv arg_strings [] = none
load_args (suc n) bytes arg_block user_argv arg_strings (arg ∷ argv) =
    strcpy_bytes bytes arg_strings arg >>= λ bytes'.
    load_args n
      (store_word bytes' user_argv
        (translate_arg_block_addr_to_userspace_addr arg_strings arg_block))
      arg_block ((user_argv + 4) % 2 ^ 32) ((arg_strings + max_cmmd_arg_len) % 2 ^ 32) argv

unfoldable pub load_arg_block : (ℕ → ℕ) → ℕ → ℕ → List (List ℕ) → Option (ℕ → ℕ)
unfolding load_args
load_arg_block bytes arg_block argc argv =
    load_args argc bytes arg_block arg_block ((arg_block + 4 * max_num_args) % 2 ^ 32) argv

-- What a process was loaded from, in memory: a binary and its size, or an ELF file and its address.
pub data Image : Type 0 where
  binary : ℕ → ℕ → Image
  elf : List ℕ → ℕ → Image

unfoldable pub process_map_task_binary : Memory → ℕ → ℕ → ℕ → Result ℕ × Memory
process_map_task_binary m pgd binary_executable size =
    create_mapping m pgd task_load_virtual_address binary_executable
      (align_address ((binary_executable + size) % 2 ^ 32)) user_writable

-- PF_W makes a segment writable.
unfoldable pub segment_flags : ℕ → ℕ
segment_flags p_flags = if bit_and p_flags 0x02 == 0 then user_readable else user_writable

-- The mapping of a segment at `p_vaddr` whose bytes lie at `phys`.
unfoldable pub map_segment : Memory → ℕ → ℕ → ℕ → ℕ → ℕ → Result ℕ × Memory
unfolding segment_flags
map_segment m pgd p_vaddr phys p_memsz p_flags =
    create_mapping m pgd (align_to_lower_page p_vaddr) (align_to_lower_page phys)
      (align_address ((phys + p_memsz) % 2 ^ 32)) (segment_flags p_flags)

-- The loop of `process_map_task_elf`: `n` program headers, from the one at the offset `phdr` of the file
-- on, which has the address `buffer`.
unfoldable pub map_segments : ℕ → Memory → ℕ → List ℕ → ℕ → ℕ → Option (Result ℕ × Memory)
unfolding map_segment
map_segments zero m pgd file buffer phdr = some (ok 0, m)
map_segments (suc n) m pgd file buffer phdr = word file (phdr + 4) >>= λ p_offset.
    word file (phdr + 8) >>= λ p_vaddr. word file (phdr + 20) >>= λ p_memsz.
    word file (phdr + 24) >>= λ p_flags.
    let mapped = map_segment m pgd p_vaddr ((buffer + p_offset) % 2 ^ 32) p_memsz p_flags in
    let rest = map_segments n mapped.1 pgd file buffer (phdr + 32) in
    elim mapped.0 [ err e ↦ some mapped | ok r ↦ rest ]

-- Without a program header table the null pointer is read.
unfoldable pub process_map_task_elf : Memory → ℕ → List ℕ → ℕ → Option (Result ℕ × Memory)
unfolding map_segments
process_map_task_elf m pgd file buffer = e_phoff file >>= λ o. e_phnum file >>= λ n.
    if n == 0 then some (ok 0, m) else if o == 0 then none else map_segments n m pgd file buffer o

unfoldable pub map_image : Memory → ℕ → Image → Option (Result ℕ × Memory)
unfolding process_map_task_binary process_map_task_elf
map_image m pgd (binary ptr size) = some (process_map_task_binary m pgd ptr size)
map_image m pgd (elf file buffer) = process_map_task_elf m pgd file buffer

unfoldable pub map_stack : Memory → ℕ → ℕ → Result ℕ × Memory
map_stack m pgd stack_addr =
    create_mapping m pgd task_stack_virt_addr_end stack_addr
      (align_address ((stack_addr + task_stack_size) % 2 ^ 32)) user_writable

unfoldable pub map_arg_block : Memory → ℕ → ℕ → Result ℕ × Memory
map_arg_block m pgd arg_block =
    create_mapping m pgd command_line_arg_virtual_addr arg_block
      (align_address ((arg_block + len_arg_block) % 2 ^ 32)) user_writable

unfoldable pub process_map_task_memory : Memory → ℕ → ℕ → ℕ → Image → Option (Result ℕ × Memory)
unfolding map_stack map_arg_block map_image
process_map_task_memory m pgd stack_addr arg_block image =
    let stack = map_stack m pgd stack_addr in
    let args = map_arg_block stack.1 pgd arg_block in
    elim stack.0 [
      | err e ↦ some stack
      | ok r ↦ elim args.0 [ err e ↦ some args | ok r' ↦ map_image args.1 pgd image ]
    ]
