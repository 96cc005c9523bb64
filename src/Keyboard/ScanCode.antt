-- ===== src/Keyboard/ScanCode.antt =====
-- The scan codes of src/keyboard/ps2_keyboard.c.
use mathlib.Core.Path.{subst}
use conifer_os.Common.{
  ℕ, zero, suc, ◌-◌, ◌+◌, ◌≤◌, ◌<◌, ◌≡◌, refl, Bool, true, false, not, Option, none, some, arith,
  ltb, lt→ltb, le→ltb, ◌==◌, if◌then◌else◌, get_or, ltb, if◌then◌else◌, ne→==, le→ltb, all_below,
  all_below_sound, bit_and,
}
use conifer_os.Keyboard.Queue.{get_elem?-get_or}
use native.Mathlib.Decide.{ℕ_discrete, dec_lt}
use conifer_os.Keyboard.{
  KeyboardBuffer, keyboard_scan_set_one, keyboard_push, ps2_keyboard_handle_interrupt,
}

-- A press has a code below 128, a release one from 128 on.
press_table : all_below 128 (λ s. bit_and s 0x80 == 0) ≡ true
unfolding all_below
press_table = refl

release_table : all_below 128 (λ s. not (bit_and (s + 128) 0x80 == 0)) ≡ true
unfolding all_below
release_table = refl

not-true : (b : Bool) → not b ≡ true → b ≡ false
not-true true h = cc
not-true false h = refl

press_lem : (s : ℕ) → s < 128 → (bit_and s 0x80 == 0) ≡ true
press_lem s h = all_below_sound 128 (λ s. bit_and s 0x80 == 0) s press_table h

release_lem : (s : ℕ) → 128 ≤ s → s < 256 → (bit_and s 0x80 == 0) ≡ false
release_lem s l h =
    let back : (s - 128) + 128 ≡ s = omega (arith, l) in
    not-true (bit_and s 0x80 == 0) (
      subst (λ v. not (bit_and v 0x80 == 0) ≡ true) back
        (all_below_sound 128 (λ s. not (bit_and (s + 128) 0x80 == 0)) (s - 128) release_table
          (omega (arith, l, h))))

-- The character 0 is not pushed, whoever tests for it.
positive_push :
    (k : Option KeyboardBuffer) (c : ℕ)
    → (if ltb 0 c then keyboard_push k c else some (false, k)) ≡ keyboard_push k c
unfolding keyboard_push
positive_push none zero = refl
positive_push (some k) zero = refl
positive_push k (suc c) = rw (lt→ltb 0 (suc c) (omega arith))

-- What a byte from the keyboard does. A release changes nothing. A press with a code of the table
-- stores its character, if that is not 0. The code just behind the table is read past its end. For
-- a larger one the byte of -EINVARG, 254, is stored as if it were a character.
unfoldable pub on_byte : Option KeyboardBuffer → ℕ → Option (Bool × Option KeyboardBuffer)
on_byte k s =
    if ltb s 82
    then keyboard_push k (get_or keyboard_scan_set_one s 0)
    else if s == 82
    then none
    else if ltb s 128
    then keyboard_push k 254
    else some (false, k)

-- On a byte, ps2_keyboard_handle_interrupt does what on_byte describes: a code of the table
-- stores its character, 82 is read past the table, a larger press stores 254, and a release
-- changes nothing.
pub ps2_keyboard_handle_interrupt_lem :
    (k : Option KeyboardBuffer) (s : ℕ) → s < 256 → ps2_keyboard_handle_interrupt k s ≡ on_byte k s
unfolding ps2_keyboard_handle_interrupt on_byte
ps2_keyboard_handle_interrupt_lem k s byte = elim (dec_lt s 82) [
  | yes l ↦
      rw
        (
          press_lem s (omega (arith, l)),
          le→ltb 82 s (omega (arith, l)),
          lt→ltb s 82 l,
          get_elem?-get_or keyboard_scan_set_one s l,
        )
        (positive_push k _)
  | no g ↦ elim (dec_lt s 128) [
    | yes l ↦ elim (ℕ_discrete s 82) [
      | yes e ↦ rw e refl
      | no n ↦ rw (
        press_lem s l,
        lt→ltb 82 s (omega arith),
        le→ltb s 82 (omega arith),
        lt→ltb s 128 l,
        ne→== s 82 n,
      )
    ]
    | no m ↦ rw (
      release_lem s (omega (arith, m)) byte,
      le→ltb s 82 (omega (arith, m)),
      le→ltb s 128 (omega (arith, m)),
      ne→== s 82 (omega (arith, m)),
    )
  ]
]
