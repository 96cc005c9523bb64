-- ===== src/Stdlib/Numerals.antt =====
-- `itoa` of user_programs/stdlib/src/stdlib.c: the text of a number in decimal digits.
use mathlib.Core.Path.{subst}
use native.Mathlib.Decide.{dec_lt}
use conifer_os.Common.{
  ℕ, zero, suc, ◌+◌, ◌-◌, ◌%◌, ◌^◌, ◌≤◌, ◌<◌, ◌≡◌, ◌≢◌, refl, ap, sym, ◌∙◌, arith, some, ℤ, pos,
  negsuc, ne→==, inr,
}
use conifer_os.Stdlib.{Buffer, set_char, write_digits, add_sign, finish, itoa}
use conifer_os.Stdlib.Reverse.{
  set_char_same, set_char_other, reverse_str-inside, reverse_str-outside,
}
use conifer_os.Stdlib.Digits.{tenths, Written, write_digits-Written}

-- The text of `num` stands in `b` from `start` on: `n` digits, of which the first is not 0, and a null
-- character. Behind it nothing has changed.
pub record IsNumeral (buffer b : Buffer) (start num n : ℕ) : Type 0 where
  pub digits : (j : ℕ) → j < n → b (start + j) ≡ 48 + tenths (n - 1 - j) num % 10
  pub ended : b (start + n) ≡ 0
  pub other : (j : ℕ) → start + n < j → b j ≡ buffer j
  pub short : tenths n num ≡ 0
  pub leading : (k : ℕ) → k < n → tenths k num ≢ 0

module _ (buffer : Buffer) (num n : ℕ) (r : Buffer × ℕ) (positive : num ≢ 0)
    (w : Written buffer num 0 r n) where
  some_digits : 0 < n
  unfolding tenths
  some_digits = elim (dec_lt 0 n) [
    | yes h ↦ h
    | no h ↦
        let none_left : n ≡ 0 = omega (arith, h) in
        absurd (positive (ap (λ k. tenths k num) (sym none_left) ∙ w.short))
  ]

  -- The text that `finish` reverses, with `start` characters behind the digits.
  module _ (text : Buffer) (start : ℕ) (same : (j : ℕ) → j < n → text j ≡ r.0 j)
      (behind : (j : ℕ) → start + n < j → text j ≡ buffer j) where
    abbrev closed : Buffer
    closed = set_char text (start + n) 0

    finish-IsNumeral : IsNumeral buffer (finish (text, start + n)) start num n
    unfolding finish
    finish-IsNumeral = record {
      digits = λ j h.
          reverse_str-inside closed (start + n) (start + j) (omega (arith, h))
          ∙ ap closed (omega (arith, h))
          ∙ set_char_other text (start + n) 0 (n - 1 - j) (λ e. omega (arith, e, h))
          ∙ same (n - 1 - j) (omega (arith, h))
          ∙ ap r.0 (omega arith)
          ∙ w.digits (n - 1 - j) (omega (arith, h));
      ended =
          reverse_str-outside closed (start + n) (start + n) (omega (arith, some_digits))
            (omega arith)
          ∙ set_char_same text (start + n) 0;
      other = λ j h.
          reverse_str-outside closed (start + n) j (omega (arith, some_digits)) (omega (arith, h))
          ∙ set_char_other text (start + n) 0 j (λ e. omega (arith, e, h))
          ∙ behind j h;
      short = w.short;
      leading = w.leading;
    }

  finish_positive : IsNumeral buffer (finish r) 0 num n
  finish_positive =
      subst (λ i. IsNumeral buffer (finish (r.0, i)) 0 num n) (sym w.index)
        (finish-IsNumeral r.0 0 (λ j h. refl) (λ j h. w.other j (inr (omega (arith, h)))))

  abbrev signed : Buffer
  signed = set_char r.0 n 45

  add_sign_lem : add_sign r ≡ (signed, 1 + n)
  unfolding add_sign
  add_sign_lem =
      let index : r.1 ≡ n = omega (arith, w.index) in
      let next : n + 1 ≡ 1 + n = omega arith in
      ap (λ i. (set_char r.0 i 45, i + 1)) index ∙ ap (λ i. (set_char r.0 n 45, i)) next

  finish_negative : IsNumeral buffer (finish (signed, 1 + n)) 1 num n
  finish_negative =
      finish-IsNumeral signed 1 (λ j h. set_char_other r.0 n 45 j (λ e. omega (arith, e, h)))
        (λ j h.
          set_char_other r.0 n 45 j (λ e. omega (arith, e, h)) ∙ w.other j (inr (omega (arith, h))))

  sign : finish (signed, 1 + n) 0 ≡ 45
  unfolding finish
  sign =
      reverse_str-inside (set_char signed (1 + n) 0) (1 + n) 0 (omega arith)
      ∙ ap (set_char signed (1 + n) 0) (omega arith)
      ∙ set_char_other signed (1 + n) 0 n (λ e. omega (arith, e))
      ∙ set_char_same r.0 n 45

-- What `b` holds after the printing of a number: its sign, if it is negative, and its digits, of which
-- there are ten at most. For 0 it is `0` and a newline.
pub data IsPrinted (buffer b : Buffer) : ℤ → Type 0 where
  zero_digit : b 0 ≡ 48 → b 1 ≡ 10 → ((j : ℕ) → 1 < j → b j ≡ buffer j) → IsPrinted buffer b (pos 0)
  positive : (m n : ℕ) → n ≤ 10 → IsNumeral buffer b 0 (suc m) n → IsPrinted buffer b (pos (suc m))
  negative :
      (m n : ℕ) → n ≤ 10 → b 0 ≡ 45 → IsNumeral buffer b 1 (suc m) n → IsPrinted buffer b (negsuc m)

abbrev pub magnitude : ℤ → ℕ
magnitude (pos n) = n
magnitude (negsuc n) = suc n

few_digits :
    (buffer b : Buffer) (start num n : ℕ) → num < 2 ^ 31 → IsNumeral buffer b start num n → n ≤ 10
unfolding tenths
few_digits buffer b start num n h p = elim (dec_lt 10 n) [
  | yes more ↦ absurd (p.leading 10 more (omega (arith, h)))
  | no few ↦ omega (arith, few)
]

-- For every int but -2147483648, itoa writes its sign, if it is negative, then its digits in
-- decimal, at most ten and none that leads with 0, then a null character, and changes nothing
-- behind it; for 0 it writes the digit and a newline.
pub itoa_lem :
    (num : ℤ) (buffer : Buffer)
    → magnitude num < 2 ^ 31
    → (b : Buffer) × (itoa num buffer ≡ some b) × IsPrinted buffer b num
unfolding itoa
itoa_lem (pos zero) buffer h = (
  set_char (set_char buffer 0 48) 1 10,
  refl,
  zero_digit
      (set_char_other (set_char buffer 0 48) 1 10 0 (λ e. omega (arith, e))
        ∙ set_char_same buffer 0 48)
      (set_char_same (set_char buffer 0 48) 1 10)
      (λ j g.
        set_char_other (set_char buffer 0 48) 1 10 j (λ e. omega (arith, e, g))
        ∙ set_char_other buffer 0 48 j (λ e. omega (arith, e, g))),
)
itoa_lem (pos (suc m)) buffer h =
    let r = write_digits (suc m) (suc m) buffer 0 in
    let w = write_digits-Written (suc m) (suc m) buffer 0 (omega arith) in
    let p = finish_positive buffer (suc m) w.0 r (λ e. omega (arith, e)) w.1 in
    (finish r, refl, positive m w.0 (few_digits buffer (finish r) 0 (suc m) w.0 h p) p)
itoa_lem (negsuc m) buffer h =
    let r = write_digits (suc m) (suc m) buffer 0 in
    let w = write_digits-Written (suc m) (suc m) buffer 0 (omega arith) in
    let p = finish_negative buffer (suc m) w.0 r (λ e. omega (arith, e)) w.1 in
    let s = sign buffer (suc m) w.0 r (λ e. omega (arith, e)) w.1 in
    let b = finish (signed buffer (suc m) w.0 r (λ e. omega (arith, e)) w.1, 1 + w.0) in
    (
      b,
      rw (ne→== (suc m) (2 ^ 31) (λ e. omega (arith, e, h))) (
          ap (λ x. some (finish x))
            (add_sign_lem buffer (suc m) w.0 r (λ e. omega (arith, e)) w.1)),
      negative m w.0 (few_digits buffer b 1 (suc m) w.0 h p) s p,
    )
