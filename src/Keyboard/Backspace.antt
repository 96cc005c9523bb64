-- ===== src/Keyboard/Backspace.antt =====
-- The backspace of src/keyboard/keyboard.c, which resets the tail.
use conifer_os.Common.{
  ℕ, ◌<◌, ◌≤◌, ◌+◌, ◌%◌, ◌≡◌, ◌≢◌, sym, ◌∙◌, inl, inr, List, [], ◌∷◌, zero, suc, ◌==◌, Bool-cases,
  length, get_or, arith, ap,
}
use mathlib.Core.Path.{subst}
use native.Mathlib.Decide.{dec_lt}
use conifer_os.CString.Length.{NonNull}
use conifer_os.Keyboard.{KeyboardBuffer, buffer_size, keyboard_backspace}
use conifer_os.Keyboard.Queue.{IsQueue, get_or_beyond}

NonNull-get_or : (q : List ℕ) (i : ℕ) → NonNull q → i < length q → get_or q i 0 ≢ 0
NonNull-get_or [] i n h = absurd (omega arith)
NonNull-get_or (c ∷ q) zero n h = n.0
NonNull-get_or (c ∷ q) (suc i) n h = NonNull-get_or q i n.1 (omega arith)

-- A queue that agrees with another one is not longer.
agreeing :
    (q p : List ℕ)
    → NonNull p
    → length p ≤ buffer_size
    → ((i : ℕ) → i < buffer_size → get_or q i 0 ≡ get_or p i 0)
    → length p ≤ length q
agreeing q p n fits same = elim (dec_lt (length q) (length p)) [
  | yes l ↦ absurd (
      NonNull-get_or p (length q) n l
        (sym (same (length q) (omega (arith, fits, l))) ∙ get_or_beyond q (length q) (omega arith)))
  | no n ↦ omega (arith, n)
]

backspace_tail : (k : KeyboardBuffer) → keyboard_backspace k ≡ record k { tail = 0 }
unfolding keyboard_backspace
backspace_tail k = elim (Bool-cases (k.tail == k.head)) [
  | inl y ↦ rw y
  | inr n ↦ elim (Bool-cases (k.tail == 0)) [ inl z ↦ rw (n, z) | inr z ↦ rw (n, z) ]
]

-- In a buffer that holds a queue and whose tail is not 0, keyboard_backspace leaves a buffer that
-- holds no queue at all.
keyboard_backspace-broken :
    (k : KeyboardBuffer) (q p : List ℕ)
    → IsQueue k q
    → k.tail ≢ 0
    → ¬ IsQueue (keyboard_backspace k) p
keyboard_backspace-broken k q p h ne b =
    let c : IsQueue (record k { tail = 0 }) p = subst (λ b. IsQueue b p) (backspace_tail k) b in
    let up = agreeing q p c.keys c.fits (λ i l. sym (h.holds i l) ∙ c.holds i l) in
    let down = agreeing p q h.keys h.fits (λ i l. sym (c.holds i l) ∙ h.holds i l) in
    let same : length p ≡ length q = omega (arith, up, down) in
    ne (h.tail_at ∙ ap (λ n. (k.head + n) % buffer_size) (sym same) ∙ sym c.tail_at)
