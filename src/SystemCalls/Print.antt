-- ===== src/SystemCalls/Print.antt =====
-- The system call `print` of src/isr80h/io.c: from the memory of a task to the screen.
use conifer_os.Common.{
  ℕ, zero, suc, ◌+◌, ◌<◌, ◌≡◌, ◌≢◌, refl, ap, ◌∙◌, Option, some, List, [], ◌∷◌, ◌++◌, arith, length,
  ne→==,
}
use conifer_os.CString.Length.{NonNull, strlen_lem}
use conifer_os.Heap.{HeapDesc}
use conifer_os.KernelHeap.{kzalloc}
use conifer_os.Paging.{get_pte, get_physical_address}
use conifer_os.Paging.Tables.{Apart, IsPage}
use conifer_os.Processes.{Kernel}
use conifer_os.SystemCalls.{
  System, current, pgd_of_current, max_str_size, memory_from, isr80h_command_1_print,
}
use conifer_os.Tasks.{swap_kernel_page_tables}
use conifer_os.Terminal.{Terminal, terminal_write_char, print_loop, print}
use conifer_os.UserMemory.{direct, task_get_stack_item, copy_string_from_user_task}
use conifer_os.UserMemory.Text.{TextAt}
use conifer_os.UserMemory.Copy.{
  Separated, Delivered, after_kzalloc, copy_string_from_user_task-Delivered,
}

-- The screen after the characters of a string, one after the other, in white.
unfoldable pub write_all : Terminal → List ℕ → Terminal
write_all t [] = t
write_all t (c ∷ s) = write_all (terminal_write_char t c 15) s

print_loop_lem :
    (t : Terminal) (s q : List ℕ) → print_loop (length s) t (s ++ q) ≡ some (write_all t s)
unfolding print_loop write_all
print_loop_lem t [] q = refl
print_loop_lem t (c ∷ s) q = print_loop_lem (terminal_write_char t c 15) s q

print_lem :
    (t : Terminal) (s q : List ℕ) → NonNull s → print t (s ++ (0 ∷ q)) ≡ some (write_all t s)
unfolding print
print_lem t s q h = rw (strlen_lem s q h) (print_loop_lem t s (0 ∷ q))

TextAt-NonNull : (bytes : ℕ → ℕ) (a : ℕ) (s : List ℕ) → TextAt bytes direct a s → NonNull s
TextAt-NonNull bytes a [] t = tt
TextAt-NonNull bytes a (c ∷ s) t = (t.0, TextAt-NonNull bytes (a + 1) s t.2)

memory_from-TextAt :
    (n : ℕ) (bytes : ℕ → ℕ) (a : ℕ) (s : List ℕ)
    → length s < n
    → TextAt bytes direct a s
    → (q : List ℕ) × (memory_from n bytes a ≡ s ++ (0 ∷ q))
unfolding memory_from
memory_from-TextAt zero bytes a s h t = absurd (omega arith)
memory_from-TextAt (suc n) bytes a [] h t =
    (memory_from n bytes (a + 1), ap (λ x. x ∷ memory_from n bytes (a + 1)) t)
memory_from-TextAt (suc n) bytes a (c ∷ s) h t =
    let (q, e) = memory_from-TextAt n bytes (a + 1) s (omega arith) t.2 in
    (q, ap (λ x. x ∷ memory_from n bytes (a + 1)) t.1 ∙ ap (λ r. c ∷ r) e)

-- The call returns 0, the screen shows the string behind what it showed, the page tables map all pages
-- as before, and the heap is that of `k`: the buffer of the copy stays allocated.
pub record Printed (s : System) (k : Kernel) (msg : List ℕ) (r : Option (ℕ × System)) : Type 0 where
  pub after : Kernel
  pub result :
      r
      ≡ some (
        0,
        record s {
          machine = swap_kernel_page_tables s.machine;
          kernel = after;
          terminal = write_all s.terminal msg;
        },
      )
  pub heap : after.heap ≡ k.heap
  pub pages :
      (u : ℕ)
      → IsPage u
      → get_pte after.page_tables (pgd_of_current s) u ≡ get_pte k.page_tables (pgd_of_current s) u

isr80h_command_1_print-Delivered :
    (s : System) (k : Kernel) (buf virt tmp : ℕ) (msg : List ℕ)
    → current s ≢ 0
    → task_get_stack_item s.kernel (pgd_of_current s) (s.machine.registers (current s)).esp 0 ≡ virt
    → length msg < max_str_size
    → Delivered k
        (pgd_of_current s)
        buf
        tmp
        msg
        (copy_string_from_user_task s.kernel (pgd_of_current s) virt buf max_str_size)
    → Printed s k msg (isr80h_command_1_print buf s)
unfolding isr80h_command_1_print swap_kernel_page_tables
isr80h_command_1_print-Delivered s k buf virt tmp msg running item bound d =
    let (q, e) = memory_from-TextAt max_str_size d.bytes buf msg bound d.text in
    let shown =
      ap (print s.terminal) e
      ∙ print_lem s.terminal msg q (TextAt-NonNull d.bytes buf msg d.text) in
    record {
      after = record k { bytes = d.bytes; page_tables = d.tables };
      result = rw (ne→== (current s) 0 running, item, d.result, shown) refl;
      heap = refl;
      pages = d.pages;
    }

-- Under the conditions of copy_string_from_user_task-Delivered for the string msg of fewer than
-- 1024 characters at the address that is word 0 of the stack of the current task, with the array
-- on the stack of the kernel as destination, the system call print returns 0 and writes the
-- characters of msg to the screen in white behind what stands there, in the page tables of the
-- kernel; the tables of the task map each page as before, and the heap is the one after the
-- allocation.
pub isr80h_command_1_print-Printed :
    (s : System) (buf virt tmp : ℕ) (msg : List ℕ) (heap : HeapDesc) (bytes : ℕ → ℕ)
    → current s ≢ 0
    → task_get_stack_item s.kernel (pgd_of_current s) (s.machine.registers (current s)).esp 0 ≡ virt
    → Apart s.kernel.page_tables (pgd_of_current s)
    → kzalloc s.kernel.heap s.kernel.bytes max_str_size ≡ some (some tmp, heap, bytes)
    → IsPage tmp
    → length msg < max_str_size
    → Separated s.kernel.page_tables (pgd_of_current s) virt buf tmp (length msg)
    → TextAt bytes (get_physical_address s.kernel.page_tables (pgd_of_current s)) virt msg
    → Printed s (after_kzalloc s.kernel heap bytes) msg (isr80h_command_1_print buf s)
isr80h_command_1_print-Printed s buf virt tmp msg heap bytes running item apart alloc page fit
      separated text =
    isr80h_command_1_print-Delivered s (after_kzalloc s.kernel heap bytes) buf virt tmp msg running
      item fit
      (copy_string_from_user_task-Delivered s.kernel (pgd_of_current s) virt buf max_str_size tmp
        msg heap bytes apart alloc page (omega arith) (omega (arith, fit)) separated text)
