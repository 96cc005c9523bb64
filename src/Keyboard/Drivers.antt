-- ===== src/Keyboard/Drivers.antt =====
-- The list of keyboard drivers of src/keyboard/keyboard.c. A driver is its address, 0 the null pointer;
-- `next` and `init` are the fields of all drivers, and `init` changes a state `World` of its own.
use conifer_os.Common.{
  ℕ, Option, none, some, List, [], ◌∷◌, ◌++◌, ◌>>=◌, ◌==◌, if◌then◌else◌, Result, ok, err, einvarg,
}
use conifer_os.Interrupts.{idt_register_interrupt_handler}

-- KEYBOARD_INTERRUPT_NO
abbrev pub keyboard_interrupt_no : ℕ
keyboard_interrupt_no = 0x21

-- The handlers of interrupts and the port writes so far: what a driver changes, `none` after a fault.
abbrev pub Devices : Type 0 → Type 0
Devices Handler = Option (List (Option Handler) × List (ℕ × ℕ))

unfoldable pub enable_ps2_first_port : List (ℕ × ℕ) → List (ℕ × ℕ)
enable_ps2_first_port ports = ports ++ ((0x64, 0xae) ∷ [])

-- `handler` is `ps2_keyboard_handle_interrupt`.
unfoldable pub ps2_keyboard_init :
    {Handler : Type 0} → Handler → Devices Handler → Result ℕ × Devices Handler
unfolding idt_register_interrupt_handler enable_ps2_first_port
ps2_keyboard_init handler devices = (
  ok 0,
  devices >>= λ (handlers, ports).
      idt_register_interrupt_handler handlers keyboard_interrupt_no (some handler) >>= λ (rc, hs).
      some (hs, enable_ps2_first_port ports),
)

pub record KeyboardList (World : Type 0) : Type 0 where
  pub keyboard_list_head : ℕ
  pub keyboard_list_last : ℕ
  pub next : ℕ → ℕ
  pub init : ℕ → Option (World → Result ℕ × World)
  pub world : World

module _ {World : Type 0} where
  -- The driver at the end of the list.
  unfoldable pub link_last : KeyboardList World → ℕ → KeyboardList World
  link_last s keyboard =
      if s.keyboard_list_last == 0
      then record s { keyboard_list_head = keyboard; keyboard_list_last = keyboard }
      else record s {
        next = λ k. if k == s.keyboard_list_last then keyboard else s.next k;
        keyboard_list_last = keyboard;
      }

  unfoldable pub keyboard_insert : KeyboardList World → ℕ → Result ℕ × KeyboardList World
  keyboard_insert s keyboard = elim (s.init keyboard) [
    | none ↦ (err einvarg, s)
    | some init ↦ let r = init s.world in (r.0, record (link_last s keyboard) { world = r.1 })
  ]

  -- `keyboard` is the driver that `get_ps2_keyboard_driver` returns.
  unfoldable pub keyboard_init : KeyboardList World → ℕ → KeyboardList World
  unfolding keyboard_insert
  keyboard_init s keyboard = (keyboard_insert s keyboard).1
