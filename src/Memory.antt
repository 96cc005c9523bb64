-- ===== src/Memory.antt =====
-- src/memory/memory.c (the same text as user_programs/stdlib/src/memory.c): `memset`, `memcmp` and
-- `memcpy` on byte arrays. A pointer is the array from where it points on; an access behind its
-- end faults (`none`).
use conifer_os.Common.{
  ℕ, zero, suc, ◌+◌, ◌%◌, ◌≤◌, ◌≡◌, refl, ◌↔◌, Bool, Option, none, some, List, [], ◌∷◌, ◌++◌, arith,
  ltb, ◌==◌, if◌then◌else◌, length, take, drop, replicate, ◌>>=◌, ℤ, pos, negsuc,
}

-- A byte stored through `char *`
unfoldable pub memset : List ℕ → ℕ → ℕ → Option (List ℕ)
memset s c zero = some s
memset [] c (suc n) = none
memset (b ∷ s) c (suc n) = memset s c n >>= λ s'. some ((c % 256) ∷ s')

unfoldable pub memcpy : List ℕ → List ℕ → ℕ → Option (List ℕ)
memcpy dest src zero = some dest
memcpy [] src (suc n) = none
memcpy (d ∷ dest) [] (suc n) = none
memcpy (d ∷ dest) (s ∷ src) (suc n) = memcpy dest src n >>= λ dest'. some (s ∷ dest')

-- `*c1 < *c2`: `char` is signed, 0x80 to 0xff are negative.
abbrev pub char_lt : ℕ → ℕ → Bool
char_lt a b = ltb ((a + 128) % 256) ((b + 128) % 256)

unfoldable pub memcmp : List ℕ → List ℕ → ℕ → Option ℤ
memcmp s1 s2 zero = some (pos 0)
memcmp [] s2 (suc n) = none
memcmp (a ∷ s1) [] (suc n) = none
memcmp (a ∷ s1) (b ∷ s2) (suc n) =
    let rest = memcmp s1 s2 n in
    if a == b then rest else some (if char_lt a b then negsuc 0 else pos 1)

-- `memset` puts the low byte of `c` in the first `n` bytes, and nothing else.
memset_lem :
    (s : List ℕ) (c n : ℕ) → n ≤ length s → memset s c n ≡ some (replicate n (c % 256) ++ drop n s)
unfolding memset
memset_lem s c zero h = refl
memset_lem [] c (suc n) h = absurd (omega arith)
memset_lem (b ∷ s) c (suc n) h = rw (memset_lem s c n (omega arith))

-- memcpy between separate arrays that hold n bytes copies those and changes nothing else.
pub memcpy_lem :
    (dest src : List ℕ) (n : ℕ)
    → n ≤ length dest
    → n ≤ length src
    → memcpy dest src n ≡ some (take n src ++ drop n dest)
unfolding memcpy
memcpy_lem dest src zero h k = refl
memcpy_lem [] src (suc n) h k = absurd (omega arith)
memcpy_lem (d ∷ dest) [] (suc n) h k = absurd (omega arith)
memcpy_lem (d ∷ dest) (s ∷ src) (suc n) h k = rw (memcpy_lem dest src n (omega arith) (omega arith))

-- memcmp of arrays that hold n bytes returns 0 exactly when the first n bytes are the same.
pub memcmp_iff :
    (s1 s2 : List ℕ) (n : ℕ)
    → n ≤ length s1
    → n ≤ length s2
    → (memcmp s1 s2 n ≡ some (pos 0)) ↔ (take n s1 ≡ take n s2)
unfolding memcmp
memcmp_iff s1 s2 zero h k = (λ _. refl, λ _. refl)
memcmp_iff [] s2 (suc n) h k = absurd (omega arith)
memcmp_iff (a ∷ s1) [] (suc n) h k = absurd (omega arith)
memcmp_iff (a ∷ s1) (b ∷ s2) (suc n) h k =
    let ih = memcmp_iff s1 s2 n (omega arith) (omega arith) in
    (λ e. ground (arith, ih.0), λ e. ground (arith, ih.1))
