-- ===== src/Stdlib/Reverse.antt =====
-- `reverse_str` of user_programs/stdlib/src/stdlib.c.
use native.Mathlib.Decide.{ℕ_discrete, dec_lt}
use conifer_os.Common.{
  ℕ, zero, suc, ◌+◌, ◌-◌, ◌≤◌, ◌<◌, ◌≡◌, ◌≢◌, ◌⊎◌, inl, inr, refl, ap, ◌∙◌, arith, lt→ltb, le→ltb,
  eq→==, ne→==,
}
use conifer_os.Stdlib.{Buffer, set_char, reverse_loop, reverse_str}

pub set_char_same : (str : Buffer) (i c : ℕ) → set_char str i c i ≡ c
unfolding set_char
set_char_same str i c = rw (eq→== i i refl)

pub set_char_other : (str : Buffer) (i c j : ℕ) → j ≢ i → set_char str i c j ≡ str j
unfolding set_char
set_char_other str i c j h = rw (ne→== j i h)

-- A round of the loop.
abbrev swap : Buffer → ℕ → ℕ → Buffer
swap str l r = set_char (set_char str l (str r)) r (str l)

swap-other : (str : Buffer) (l r j : ℕ) → j ≢ l → j ≢ r → swap str l r j ≡ str j
swap-other str l r j h g =
    set_char_other (set_char str l (str r)) r (str l) j g ∙ set_char_other str l (str r) j h

swap-left : (str : Buffer) (l r : ℕ) → l ≢ r → swap str l r l ≡ str r
swap-left str l r h =
    set_char_other (set_char str l (str r)) r (str l) l h ∙ set_char_same str l (str r)

reverse_loop-swap :
    (fuel : ℕ) (str : Buffer) (l r : ℕ)
    → l < r
    → reverse_loop (suc fuel) str l r ≡ reverse_loop fuel (swap str l r) (l + 1) (r - 1)
unfolding reverse_loop
reverse_loop-swap fuel str l r h = rw (lt→ltb l r h)

reverse_loop-stop : (fuel : ℕ) (str : Buffer) (l r : ℕ) → r ≤ l → reverse_loop fuel str l r ≡ str
unfolding reverse_loop
reverse_loop-stop zero str l r h = refl
reverse_loop-stop (suc fuel) str l r h = rw (le→ltb l r h)

reverse_loop-outside :
    (fuel : ℕ) (str : Buffer) (l r j : ℕ) → (j < l) ⊎ (r < j) → reverse_loop fuel str l r j ≡ str j
unfolding reverse_loop
reverse_loop-outside zero str l r j h = refl
reverse_loop-outside (suc fuel) str l r j h = elim (dec_lt l r) [
  | no stop ↦ ap (λ s. s j) (reverse_loop-stop (suc fuel) str l r (omega (arith, stop)))
  | yes next ↦
      ap (λ s. s j) (reverse_loop-swap fuel str l r next)
      ∙ reverse_loop-outside fuel (swap str l r) (l + 1) (r - 1) j
          (elim h [ inl a ↦ inl (omega (arith, a)) | inr a ↦ inr (omega (arith, a)) ])
      ∙ swap-other str l r j
          (λ e. elim h [ inl a ↦ omega (arith, a, e) | inr a ↦ omega (arith, a, e, next) ])
          (λ e. elim h [ inl a ↦ omega (arith, a, e, next) | inr a ↦ omega (arith, a, e) ])
]

reverse_loop-inside :
    (fuel : ℕ) (str : Buffer) (l r j : ℕ)
    → r ≤ l + fuel
    → l ≤ j
    → j ≤ r
    → reverse_loop fuel str l r j ≡ str (l + r - j)
unfolding reverse_loop
reverse_loop-inside zero str l r j f a b = ap str (omega arith)
reverse_loop-inside (suc fuel) str l r j f a b = elim (dec_lt l r) [
  | no stop ↦
      ap (λ s. s j) (reverse_loop-stop (suc fuel) str l r (omega (arith, stop)))
      ∙ ap str (omega (arith, stop))
  | yes next ↦ ap (λ s. s j) (reverse_loop-swap fuel str l r next) ∙ elim (ℕ_discrete j l) [
    | yes left ↦
        reverse_loop-outside fuel (swap str l r) (l + 1) (r - 1) j (inl (omega (arith, left)))
        ∙ ap (swap str l r) left
        ∙ swap-left str l r (λ e. omega (arith, e, next))
        ∙ ap str (omega (arith, left))
    | no inner ↦ elim (ℕ_discrete j r) [
      | yes right ↦
          reverse_loop-outside fuel (swap str l r) (l + 1) (r - 1) j
            (inr (omega (arith, right, next)))
          ∙ ap (swap str l r) right
          ∙ set_char_same (set_char str l (str r)) r (str l)
          ∙ ap str (omega (arith, right))
      | no middle ↦
          reverse_loop-inside fuel (swap str l r) (l + 1) (r - 1) j (omega (arith, next))
            (omega (arith, inner)) (omega (arith, middle))
          ∙ swap-other str l r (l + 1 + (r - 1) - j) (λ e. omega (arith, e, next, middle))
              (λ e. omega (arith, e, next, inner))
          ∙ ap str (omega (arith, next))
    ]
  ]
]

-- The first `len` characters come in the opposite order.
pub reverse_str-inside :
    (str : Buffer) (len j : ℕ) → j < len → reverse_str str len j ≡ str (len - 1 - j)
unfolding reverse_str
reverse_str-inside str len j h =
    reverse_loop-inside len str 0 (len - 1) j (omega arith) (omega arith) (omega (arith, h))
    ∙ ap str (omega arith)

pub reverse_str-outside :
    (str : Buffer) (len j : ℕ) → 0 < len → len ≤ j → reverse_str str len j ≡ str j
unfolding reverse_str
reverse_str-outside str len j h g =
    reverse_loop-outside len str 0 (len - 1) j (inr (omega (arith, h, g)))
