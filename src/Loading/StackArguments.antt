-- ===== src/Loading/StackArguments.antt =====
-- src/task/process.c: load_process_stack_memory_with_args, which nothing calls: the arguments on the stack
-- itself instead of in a block of their own.
use conifer_os.Common.{
  ℕ, zero, suc, ◌+◌, ◌-◌, ◌*◌, ◌%◌, ◌^◌, Option, some, none, List, [], ◌∷◌, ◌>>=◌,
}
use conifer_os.CString.{strnlen}
use conifer_os.Loading.{task_stack_size, max_cmmd_arg_len, store_word, strcpy_bytes}

-- The loop over `n` arguments, which are arrays of characters.
unfoldable copy_on_stack : ℕ → (ℕ → ℕ) → ℕ → List (List ℕ) → Option (ℕ → ℕ)
unfolding strnlen strcpy_bytes
copy_on_stack zero bytes arg_strings_location argv = some bytes
copy_on_stack (suc n) bytes arg_strings_location [] = none
copy_on_stack (suc n) bytes arg_strings_location (arg ∷ argv) =
    strnlen arg max_cmmd_arg_len >>= λ arg_len.
    strcpy_bytes bytes arg_strings_location arg >>= λ bytes'.
    copy_on_stack n bytes' ((arg_strings_location + arg_len + 5) % 2 ^ 32) argv

-- The pointers, of which the array has 32 and one more, have four bytes each.
unfoldable load_process_stack_memory_with_args : (ℕ → ℕ) → ℕ → ℕ → List (List ℕ) → Option (ℕ → ℕ)
unfolding store_word copy_on_stack
load_process_stack_memory_with_args bytes process_stack_ptr argc argv =
    let argv_char_array_location = process_stack_ptr + task_stack_size - 12 in
    copy_on_stack argc (store_word bytes ((process_stack_ptr + task_stack_size - 4) % 2 ^ 32) argc)
      ((argv_char_array_location + 4 * (max_cmmd_arg_len + 1)) % 2 ^ 32) argv
