-- ===== src/Tests/Interrupts.antt =====
-- src/idt/idt.c at empty tables.
use conifer_os.Common.{ℕ, ◌+◌, none, Option, List, replicate, length-replicate}
use conifer_os.Interrupts.{IdtEntry, idt_init, total_interrupts}
use conifer_os.Interrupts.Init.{Initialised, idt_init-Initialised}

abbrev empty : IdtEntry
empty = record { offset_1 = 0; selector = 0; zero = 0; type_attr = 0; offset_2 = 0 }

abbrev idt : List IdtEntry
idt = replicate total_interrupts empty

abbrev handlers : List (Option ℕ)
handlers = replicate total_interrupts none

-- The routine of each interrupt behind the one of the last.
abbrev table : ℕ → ℕ
table i = 0x100000 + i

idt_init-Initialised_example :
    Initialised table 0x200000 0x300000 7 handlers (idt_init table 0x200000 0x300000 7 idt handlers)
idt_init-Initialised_example =
    idt_init-Initialised table 0x200000 0x300000 7 idt handlers
      (length-replicate {A = IdtEntry} total_interrupts empty)
      (length-replicate {A = Option ℕ} total_interrupts none)
