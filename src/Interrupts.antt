-- ===== src/Interrupts.antt =====
-- src/idt/idt.c: the gates of the descriptor table, the handlers of interrupts, and the commands that a
-- user program invokes. A handler or command is an element of a type `A`, a null pointer `none`.
pub mod Init
use conifer_os.Common.{
  ℕ, zero, suc, ◌+◌, ◌/◌, ◌^◌, replicate, length, [], ◌∷◌, Option, none, some, List, bit_and, ltb,
  if◌then◌else◌, ◌>>=◌, get_elem?, store, Result, ok, err, einvarg,
}

-- CONIFEROS_TOTAL_INTERRUPTS
abbrev pub total_interrupts : ℕ
total_interrupts = 512

-- MAX_ISR80H_COMMANDS
abbrev pub max_isr80h_commands : ℕ
max_isr80h_commands = 1024

-- KERNEL_CODE_SELECTOR
abbrev pub kernel_code_selector : ℕ
kernel_code_selector = 0x08

pub record IdtEntry : Type 0 where
  pub offset_1 : ℕ
  pub selector : ℕ
  pub zero : ℕ
  pub type_attr : ℕ
  pub offset_2 : ℕ

-- The entry that `idt_set` writes.
unfoldable pub gate : ℕ → IdtEntry
gate handler = record {
  offset_1 = bit_and handler 0x0000ffff;
  selector = kernel_code_selector;
  zero = 0x00;
  type_attr = 0xee;
  offset_2 = handler / 2 ^ 16;
}

unfoldable pub idt_set : List IdtEntry → ℕ → ℕ → Option (List IdtEntry)
idt_set idt i handler = store idt i (gate handler)

-- Numbers that are not negative; `none` is a panic.
unfoldable pub isr80h_register_command :
    {A : Type 0} → List (Option A) → ℕ → Option A → Option (List (Option A))
isr80h_register_command commands command_id command =
    let register = get_elem? commands command_id >>= λ old. elim old [
      | none ↦ store commands command_id command
      | some c ↦ none
    ] in
    if ltb command_id max_isr80h_commands then register else none

-- The command to run, if there is one; otherwise the result is 0.
unfoldable pub isr80h_handle_command : {A : Type 0} → List (Option A) → ℕ → Option (Option A)
isr80h_handle_command commands command_id =
    if ltb command_id max_isr80h_commands then get_elem? commands command_id else some none

unfoldable pub idt_register_interrupt_handler :
    {A : Type 0} → List (Option A) → ℕ → Option A → Option (Result ℕ × List (Option A))
idt_register_interrupt_handler handlers interrupt handler =
    if ltb interrupt total_interrupts
    then (store handlers interrupt handler >>= λ hs. some (ok 0, hs))
    else some (err einvarg, handlers)

-- The loop of `register_handler_for_exceptions` over `n` interrupts from `i` on.
unfoldable pub register_loop : {A : Type 0} → ℕ → A → List (Option A) → ℕ → Option (List (Option A))
unfolding idt_register_interrupt_handler
register_loop zero handler handlers i = some handlers
register_loop (suc n) handler handlers i =
    idt_register_interrupt_handler handlers i (some handler) >>= λ (rc, hs).
    register_loop n handler hs (i + 1)

-- `handler` is `idt_handle_user_process_exception`.
unfoldable pub register_handler_for_exceptions :
    {A : Type 0} → A → List (Option A) → Option (List (Option A))
unfolding register_loop
register_handler_for_exceptions handler handlers = register_loop 0x20 handler handlers 0

-- The loop of `idt_init` over `n` entries from `i` on.
unfoldable pub set_gates : ℕ → (ℕ → ℕ) → List IdtEntry → ℕ → Option (List IdtEntry)
unfolding idt_set
set_gates zero interrupt_pointer_table idt i = some idt
set_gates (suc n) interrupt_pointer_table idt i =
    idt_set idt i (interrupt_pointer_table i) >>= λ idt1.
    set_gates n interrupt_pointer_table idt1 (i + 1)

-- The addresses of the assembly routines and of the handlers are parameters. The loading of the table is
-- left out.
unfoldable pub idt_init :
    {A : Type 0}
    → (ℕ → ℕ)
    → ℕ
    → ℕ
    → A
    → List IdtEntry
    → List (Option A)
    → Option (List IdtEntry × List (Option A))
unfolding set_gates register_handler_for_exceptions
idt_init interrupt_pointer_table idt_zero isr80h_wrapper handler idt handlers =
    let cleared =
      replicate (length idt)
        (record { offset_1 = 0; selector = 0; zero = 0; type_attr = 0; offset_2 = 0 }) in
    set_gates total_interrupts interrupt_pointer_table cleared 0 >>= λ gates.
    idt_set gates 0 idt_zero >>= λ gates1. idt_set gates1 0x80 isr80h_wrapper >>= λ gates2.
    register_handler_for_exceptions handler handlers >>= λ hs. some (gates2, hs)
