-- ===== src/Keyboard.antt =====
-- src/keyboard/keyboard.c and src/keyboard/ps2_keyboard.c: the key buffer of a process, and the
-- scan codes of the PS/2 driver. Characters are bytes; an access outside an array faults (`none`).
pub mod Queue
pub mod Run
pub mod Backspace
pub mod ScanCode
pub mod Drivers
use Prim.Native.Nat.{bit_and}
use conifer_os.Common.{
  ℕ, ◌+◌, ◌-◌, ◌%◌, Bool, true, false, Option, none, some, List, [], ◌∷◌, ltb, ◌==◌, if◌then◌else◌,
  ◌>>=◌, get_elem?, set, store, length,
}

abbrev pub buffer_size : ℕ
buffer_size = 1024

-- `struct keyboard_buffer` of src/task/process.h
pub record KeyboardBuffer : Type 0 where
  pub buffer : List ℕ
  pub head : ℕ
  pub tail : ℕ

-- The flag says whether the overflow message was printed.
unfoldable pub increment_tail : KeyboardBuffer → Bool × KeyboardBuffer
increment_tail k =
    let next_tail_val = (k.tail + 1) % buffer_size in
    (next_tail_val == k.head, record k { tail = (k.tail + 1) % buffer_size })

unfoldable pub increment_head : KeyboardBuffer → KeyboardBuffer
increment_head k = record k { head = (k.head + 1) % buffer_size }

unfoldable pub decrement_tail : KeyboardBuffer → KeyboardBuffer
decrement_tail k =
    if k.tail == k.head
    then k
    else if k.tail == 0
    then record k { tail = buffer_size }
    else record k { tail = k.tail - 1 }

unfoldable pub keyboard_backspace : KeyboardBuffer → KeyboardBuffer
unfolding decrement_tail
keyboard_backspace k = record (decrement_tail k) { tail = 0 }

-- The write of a character at the tail.
unfoldable pub push_char : KeyboardBuffer → ℕ → Option (Bool × KeyboardBuffer)
unfolding increment_tail
push_char k c = store k.buffer k.tail c >>= λ b. some (increment_tail (record k { buffer = b }))

-- The buffer is that of the current process, if there is one.
unfoldable pub keyboard_push : Option KeyboardBuffer → ℕ → Option (Bool × Option KeyboardBuffer)
unfolding push_char
keyboard_push none c = some (false, none)
keyboard_push (some k) c =
    if c == 0 then some (false, some k) else (push_char k c >>= λ r. some (r.0, some r.1))

unfoldable pub pop_char : KeyboardBuffer → Option (ℕ × KeyboardBuffer)
unfolding increment_head
pop_char k = get_elem? k.buffer k.head >>= λ val.
    if val == 0
    then some (0, k)
    else (store k.buffer k.head 0 >>= λ b. some (val, increment_head (record k { buffer = b })))

-- The buffer is that of the current task's process, if there is one.
unfoldable pub keyboard_pop : Option KeyboardBuffer → Option (ℕ × Option KeyboardBuffer)
unfolding pop_char
keyboard_pop none = some (0, none)
keyboard_pop (some k) = pop_char k >>= λ r. some (r.0, some r.1)

abbrev pub keyboard_scan_set_one : List ℕ
keyboard_scan_set_one =
    0 ∷ 27 ∷ 49 ∷ 50 ∷ 51 ∷ 52 ∷ 53 ∷ 54 ∷ 55 ∷ 56 ∷ 57 ∷ 48 ∷ 45 ∷ 61 ∷ 8 ∷ 9 ∷ 81 ∷ 87 ∷ 69 ∷ 82
    ∷ 84 ∷ 89 ∷ 85 ∷ 73 ∷ 79 ∷ 80 ∷ 91 ∷ 93 ∷ 13 ∷ 0 ∷ 65 ∷ 83 ∷ 68 ∷ 70 ∷ 71 ∷ 72 ∷ 74 ∷ 75 ∷ 76
    ∷ 59 ∷ 39 ∷ 96 ∷ 0 ∷ 92 ∷ 90 ∷ 88 ∷ 67 ∷ 86 ∷ 66 ∷ 78 ∷ 77 ∷ 44 ∷ 46 ∷ 47 ∷ 0 ∷ 42 ∷ 0 ∷ 32 ∷ 0
    ∷ 0 ∷ 0 ∷ 0 ∷ 0 ∷ 0 ∷ 0 ∷ 0 ∷ 0 ∷ 0 ∷ 0 ∷ 55 ∷ 56 ∷ 57 ∷ 45 ∷ 52 ∷ 53 ∷ 54 ∷ 43 ∷ 49 ∷ 50 ∷ 51
    ∷ 48 ∷ 46 ∷ []

-- `-EINVARG` as a `uint8_t`
abbrev pub einvarg_byte : ℕ
einvarg_byte = 254

unfoldable pub ps2_keyboard_scancode_to_char : ℕ → Option ℕ
ps2_keyboard_scancode_to_char scancode =
    if ltb (length keyboard_scan_set_one) scancode
    then some einvarg_byte
    else get_elem? keyboard_scan_set_one scancode

-- `scancode` is the byte read from the data port.
unfoldable pub ps2_keyboard_handle_interrupt :
    Option KeyboardBuffer → ℕ → Option (Bool × Option KeyboardBuffer)
unfolding ps2_keyboard_scancode_to_char keyboard_push
ps2_keyboard_handle_interrupt k scancode =
    if bit_and scancode 0x80 == 0
    then (ps2_keyboard_scancode_to_char scancode >>= λ c.
        if ltb 0 c then keyboard_push k c else some (false, k))
    else some (false, k)
