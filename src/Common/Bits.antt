-- ===== src/Common/Bits.antt =====
-- Masks of low bits. `bit_and` computes at numerals only; here it is taken apart digit by digit.
use Prim.Native.Nat.{ℕ, zero, suc, ◌+◌, ◌*◌, ◌/◌, ◌%◌, ◌≤◌, min, bit_and, digits, bit_and-bitwise}
use mathlib.Core.Path.{◌≡◌, refl, ap}
use native.Mathlib.Omega.{arith}

-- The operation on `fuel` digits at most.
abbrev and_upto : ℕ → ℕ → ℕ → ℕ
and_upto fuel a b = digits (λ _. zero) min fuel a b

-- More fuel than the first number has digits makes no difference.
and_upto-fuel : (a b n m : ℕ) → a ≤ n → a ≤ m → and_upto n a b ≡ and_upto m a b
and_upto-fuel zero b zero zero h k = refl
and_upto-fuel zero b zero (suc m) h k = refl
and_upto-fuel zero b (suc n) zero h k = refl
and_upto-fuel zero b (suc n) (suc m) h k = refl
and_upto-fuel (suc a) b zero m h k = absurd (omega arith)
and_upto-fuel (suc a) b (suc n) zero h k = absurd (omega arith)
and_upto-fuel (suc a) b (suc n) (suc m) h k =
    ap (λ d. d * 2 + min (suc a % 2) (b % 2))
      (and_upto-fuel (suc a / 2) (b / 2) n m (omega arith) (omega arith))

-- The digits of the half with the smaller of the two fuels.
halved : (a b : ℕ) → and_upto a (suc a / 2) (b / 2) ≡ bit_and (suc a / 2) (b / 2)
halved a b =
    let enough : suc a / 2 ≤ a = omega arith in
    omega (
      arith,
      and_upto-fuel (suc a / 2) (b / 2) a (suc a / 2) enough (omega arith),
      bit_and-bitwise (suc a / 2) (b / 2),
    )

-- The lowest digit, and the others.
pub bit_and-digit : (m n : ℕ) → bit_and m n ≡ bit_and (m / 2) (n / 2) * 2 + min (m % 2) (n % 2)
bit_and-digit zero n = omega (arith, bit_and-bitwise zero n, bit_and-bitwise zero (n / 2))
bit_and-digit (suc m) n = omega (arith, halved m n, bit_and-bitwise (suc m) n)

-- `k` ones
abbrev pub ones : ℕ → ℕ
ones zero = 0
ones (suc k) = ones k * 2 + 1

-- The `k` lowest bits, one at a time.
abbrev pub low : ℕ → ℕ → ℕ
low zero a = 0
low (suc k) a = low k (a / 2) * 2 + a % 2

bit_and-zero : (fuel a : ℕ) → a ≤ fuel → bit_and a 0 ≡ 0
bit_and-zero fuel zero h = refl
bit_and-zero zero (suc a) h = absurd (omega arith)
bit_and-zero (suc fuel) (suc a) h =
    let half = bit_and-zero fuel (suc a / 2) (omega arith) in
    omega (arith, half, bit_and-digit (suc a) 0)

pub bit_and-ones : (k a : ℕ) → bit_and a (ones k) ≡ low k a
bit_and-ones zero a = bit_and-zero a a (omega arith)
bit_and-ones (suc k) a =
    let half : (ones k * 2 + 1) / 2 ≡ ones k = omega arith in
    omega
      (arith, bit_and-digit a (ones k * 2 + 1), ap (bit_and (a / 2)) half, bit_and-ones k (a / 2))

-- `a & 0xff`
pub bit_and-byte : (a : ℕ) → bit_and a 0xff ≡ a % 256
bit_and-byte a = omega (arith, bit_and-ones 8 a)

-- `a & 0x0f`
pub bit_and-nibble : (a : ℕ) → bit_and a 0x0f ≡ a % 16
bit_and-nibble a = omega (arith, bit_and-ones 4 a)
