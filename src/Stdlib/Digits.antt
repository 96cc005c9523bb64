-- ===== src/Stdlib/Digits.antt =====
-- The loop of `itoa` of user_programs/stdlib/src/stdlib.c that writes the digits, the last one first.
use conifer_os.Common.{
  ℕ, zero, suc, ◌+◌, ◌/◌, ◌%◌, ◌≤◌, ◌<◌, ◌≡◌, ◌≢◌, refl, ap, ◌∙◌, arith, ◌⊎◌, inl, inr,
}
use conifer_os.Stdlib.{Buffer, set_char, write_digits}
use conifer_os.Stdlib.Reverse.{set_char_same, set_char_other}

-- A number without its last `k` digits.
unfoldable pub tenths : ℕ → ℕ → ℕ
tenths zero num = num
tenths (suc k) num = tenths k (num / 10)

-- The digits of a number, `n` many, from the last one on at the index `i`; nothing else has changed.
pub record Written (buffer : Buffer) (num i : ℕ) (r : Buffer × ℕ) (n : ℕ) : Type 0 where
  pub index : r.1 ≡ i + n
  pub digits : (k : ℕ) → k < n → r.0 (i + k) ≡ 48 + tenths k num % 10
  pub other : (j : ℕ) → (j < i) ⊎ (i + n ≤ j) → r.0 j ≡ buffer j
  pub short : tenths n num ≡ 0
  pub leading : (k : ℕ) → k < n → tenths k num ≢ 0

module _ (buffer : Buffer) (m i : ℕ) (r : Buffer × ℕ) (n : ℕ)
    (w : Written (set_char buffer i (48 + suc m % 10)) (suc m / 10) (i + 1) r n) where
  digits_suc : (k : ℕ) → k < suc n → r.0 (i + k) ≡ 48 + tenths k (suc m) % 10
  unfolding tenths
  digits_suc zero h =
      ap r.0 (omega arith)
      ∙ w.other i (inl (omega arith))
      ∙ set_char_same buffer i (48 + suc m % 10)
  digits_suc (suc k) h = ap r.0 (omega arith) ∙ w.digits k (omega (arith, h))

  leading_suc : (k : ℕ) → k < suc n → tenths k (suc m) ≢ 0
  unfolding tenths
  leading_suc zero h = λ e. omega (arith, e)
  leading_suc (suc k) h = w.leading k (omega (arith, h))

  other_suc : (j : ℕ) → (j < i) ⊎ (i + suc n ≤ j) → r.0 j ≡ buffer j
  other_suc j (inl a) =
      w.other j (inl (omega (arith, a)))
      ∙ set_char_other buffer i (48 + suc m % 10) j (λ e. omega (arith, a, e))
  other_suc j (inr a) =
      w.other j (inr (omega (arith, a)))
      ∙ set_char_other buffer i (48 + suc m % 10) j (λ e. omega (arith, a, e))

  write_digits-suc : Written buffer (suc m) i r (suc n)
  unfolding tenths
  write_digits-suc = record {
    index = omega (arith, w.index);
    digits = digits_suc;
    other = other_suc;
    short = w.short;
    leading = leading_suc;
  }

pub write_digits-Written :
    (fuel num : ℕ) (buffer : Buffer) (i : ℕ)
    → num ≤ fuel
    → (n : ℕ) × Written buffer num i (write_digits fuel num buffer i) n
unfolding write_digits tenths
write_digits-Written zero zero buffer i h = (
  0,
  record {
    index = omega arith;
    digits = λ k g. absurd (omega arith);
    other = λ j g. refl;
    short = refl;
    leading = λ k g. absurd (omega arith);
  },
)
write_digits-Written (suc fuel) zero buffer i h = (
  0,
  record {
    index = omega arith;
    digits = λ k g. absurd (omega arith);
    other = λ j g. refl;
    short = refl;
    leading = λ k g. absurd (omega arith);
  },
)
write_digits-Written zero (suc m) buffer i h = absurd (omega arith)
write_digits-Written (suc fuel) (suc m) buffer i h =
    let w =
      write_digits-Written fuel (suc m / 10) (set_char buffer i (48 + suc m % 10)) (i + 1)
        (omega arith) in
    (suc w.0, write_digits-suc buffer m i _ w.0 w.1)
