-- ===== src/Paging/Masks.antt =====
-- The bit masks of page table entries: an entry is the address of a page with flags in its low bits.
use Prim.Native.Nat.{max, digits, bit_or-bitwise}
use conifer_os.Common.{
  ℕ, zero, suc, ◌+◌, ◌*◌, ◌/◌, ◌%◌, ◌^◌, ◌≤◌, ◌<◌, ◌≡◌, refl, ap, sym, ◌∙◌, arith, bit_and, bit_or,
  bit_and-digit, bit_and-ones, ones, low,
}

-- Each digit of the result is the greater one.
abbrev or_upto : ℕ → ℕ → ℕ → ℕ
or_upto fuel a b = digits (λ b. b) max fuel a b

or_upto-fuel : (k l x y : ℕ) → x ≤ k → x ≤ l → or_upto k x y ≡ or_upto l x y
or_upto-fuel zero zero zero y h g = refl
or_upto-fuel zero (suc l) zero y h g = refl
or_upto-fuel (suc k) zero zero y h g = refl
or_upto-fuel (suc k) (suc l) zero y h g = refl
or_upto-fuel zero l (suc x) y h g = absurd (omega arith)
or_upto-fuel (suc k) zero (suc x) y h g = absurd (omega arith)
or_upto-fuel (suc k) (suc l) (suc x) y h g =
    let half = or_upto-fuel k l (suc x / 2) (y / 2) (omega arith) (omega arith) in
    ap (λ d. d * 2 + max (suc x % 2) (y % 2)) half

bit_or-digit : (x y : ℕ) → bit_or x y ≡ bit_or (x / 2) (y / 2) * 2 + max (x % 2) (y % 2)
bit_or-digit zero y = omega (arith, bit_or-bitwise zero y, bit_or-bitwise zero (y / 2))
bit_or-digit (suc x) y =
    let half = or_upto-fuel x (suc x / 2) (suc x / 2) (y / 2) (omega arith) (omega arith) in
    omega (arith, half, bit_or-bitwise (suc x / 2) (y / 2), bit_or-bitwise (suc x) y)

bit_or-zero : (bound x : ℕ) → x ≤ bound → bit_or x 0 ≡ x
bit_or-zero bound zero h = omega (arith, bit_or-bitwise 0 0)
bit_or-zero zero (suc x) h = absurd (omega arith)
bit_or-zero (suc bound) (suc x) h =
    omega (arith, bit_or-zero bound (suc x / 2) (omega arith), bit_or-digit (suc x) 0)

-- `k` zeros behind the digits of `m`.
abbrev shifted : ℕ → ℕ → ℕ
shifted zero m = m
shifted (suc k) m = shifted k m * 2

abbrev halves : ℕ → ℕ → ℕ
halves zero a = a
halves (suc k) a = halves k (a / 2)

abbrev power : ℕ → ℕ
power zero = 1
power (suc k) = power k * 2

bit_and-shifted : (k a m : ℕ) → bit_and a (shifted k m) ≡ shifted k (bit_and (halves k a) m)
bit_and-shifted zero a m = refl
bit_and-shifted (suc k) a m =
    let even : shifted k m * 2 / 2 ≡ shifted k m = omega arith in
    omega (
      arith,
      bit_and-digit a (shifted k m * 2),
      ap (bit_and (a / 2)) even,
      bit_and-shifted k (a / 2) m,
    )

bit_or-shifted : (k q f : ℕ) → f < power k → bit_or (shifted k q) f ≡ shifted k q + f
bit_or-shifted zero q f h =
    let none : f ≡ 0 = omega arith in
    ap (bit_or q) none ∙ bit_or-zero q q (omega arith) ∙ omega (arith, none)
bit_or-shifted (suc k) q f h =
    let even : shifted k q * 2 / 2 ≡ shifted k q = omega arith in
    omega (
      arith,
      bit_or-digit (shifted k q * 2) f,
      ap (λ x. bit_or x (f / 2)) even,
      bit_or-shifted k q (f / 2) (omega arith),
    )

low_id : (k a : ℕ) → a < power k → low k a ≡ a
low_id zero a h = omega arith
low_id (suc k) a h = omega (arith, low_id k (a / 2) (omega arith))

halves-shifted : (k q f : ℕ) → f < power k → halves k (shifted k q + f) ≡ q
halves-shifted zero q f h = omega arith
halves-shifted (suc k) q f h =
    let half : (shifted k q * 2 + f) / 2 ≡ shifted k q + f / 2 = omega arith in
    ap (halves k) half ∙ halves-shifted k q (f / 2) (omega arith)

-- The mask takes the address of a page out of an entry with flags.
pub frame_of_entry :
    (frame flags : ℕ)
    → frame % 4096 ≡ 0
    → frame < 2 ^ 32
    → flags < 4096
    → bit_and (bit_or frame flags) 0xfffff000 ≡ frame
frame_of_entry frame flags aligned bound small =
    let q = frame / 4096 in
    let whole : shifted 12 q ≡ frame = omega (arith, aligned) in
    let entry : bit_or frame flags ≡ frame + flags =
      ap (λ x. bit_or x flags) (sym whole)
      ∙ bit_or-shifted 12 q flags small
      ∙ ap (λ x. x + flags) whole in
    let high : halves 12 (frame + flags) ≡ q =
      ap (λ x. halves 12 (x + flags)) (sym whole) ∙ halves-shifted 12 q flags small in
    ap (λ x. bit_and x 0xfffff000) entry
    ∙ bit_and-shifted 12 (frame + flags) (ones 20)
    ∙ ap (λ x. shifted 12 (bit_and x (ones 20))) high
    ∙ ap (shifted 12) (bit_and-ones 20 q ∙ low_id 20 q (omega (arith, bound)))
    ∙ whole

bit_or-bound : (k f g : ℕ) → f < power k → g < power k → bit_or f g < power k
bit_or-bound zero f g h e =
    let z : f ≡ 0 = omega arith in let y : g ≡ 0 = omega arith in rw (z, y) (omega arith)
bit_or-bound (suc k) f g h e =
    omega (arith, bit_or-bound k (f / 2) (g / 2) (omega arith) (omega arith), bit_or-digit f g)

bit_or-low :
    (k q f g : ℕ)
    → f < power k
    → g < power k
    → bit_or (shifted k q + f) g ≡ shifted k q + bit_or f g
bit_or-low zero q f g h e =
    let z : f ≡ 0 = omega arith in
    let y : g ≡ 0 = omega arith in
    let w : q + 0 ≡ q = omega arith in rw (z, y, w, bit_or-zero q q (omega arith)) (omega arith)
bit_or-low (suc k) q f g h e =
    let half : (shifted k q * 2 + f) / 2 ≡ shifted k q + f / 2 = omega arith in
    omega (
      arith,
      bit_or-digit (shifted k q * 2 + f) g,
      ap (λ x. bit_or x (g / 2)) half,
      bit_or-low k q (f / 2) (g / 2) (omega arith) (omega arith),
      bit_or-digit f g,
    )

-- The same for an entry with flags that were set one after the other.
pub frame_of_flags :
    (frame flags more : ℕ)
    → frame % 4096 ≡ 0
    → frame < 2 ^ 32
    → flags < 4096
    → more < 4096
    → bit_and (bit_or (bit_or frame flags) more) 0xfffff000 ≡ frame
frame_of_flags frame flags more aligned bound small few =
    let q = frame / 4096 in
    let whole : shifted 12 q ≡ frame = omega (arith, aligned) in
    let or : bit_or (bit_or frame flags) more ≡ bit_or frame (bit_or flags more) =
      ap (λ x. bit_or (bit_or x flags) more) (sym whole)
      ∙ ap (λ x. bit_or x more) (bit_or-shifted 12 q flags small)
      ∙ bit_or-low 12 q flags more small few
      ∙ sym (bit_or-shifted 12 q (bit_or flags more) (bit_or-bound 12 flags more small few))
      ∙ ap (λ x. bit_or x (bit_or flags more)) whole in
    ap (λ x. bit_and x 0xfffff000) or
    ∙ frame_of_entry frame (bit_or flags more) aligned bound (bit_or-bound 12 flags more small few)
