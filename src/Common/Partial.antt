-- ===== src/Common/Partial.antt =====
-- Steps that may fault: `none` is an access outside the memory that the model holds.
use mathlib.Core.Path.{◌≡◌, refl, ap, sym, ◌∙◌}
use mathlib.Core.Option.{Option, none, some}
use Prim.Native.Nat.{ℕ, ◌+◌, ◌<◌}
use mathlib.Core.List.{List, [], ◌∷◌, ◌++◌, append_assoc}
use native.Mathlib.Omega.{arith}
use conifer_os.Common.Tests.{ltb, lt→ltb, if◌then◌else◌}
use conifer_os.Common.Lists.{length, length-append, set, get_elem?}

infixl 5 ◌>>=◌
abbrev pub ◌>>=◌ {ℓ κ} : {A : Type ℓ} {B : Type κ} → Option A → (A → Option B) → Option B
none >>= f = none
some a >>= f = f a

-- A write to an element of a C array; outside the array it faults.
abbrev pub store {ℓ} : {A : Type ℓ} → List A → ℕ → A → Option (List A)
store xs i v = if ltb i (length xs) then some (set xs i v) else none

pub store-some {ℓ} :
    {A : Type ℓ} (xs : List A) (i : ℕ) (v : A) → i < length xs → store xs i v ≡ some (set xs i v)
store-some xs i v h = rw (lt→ltb i (length xs) h)

pub set-append {ℓ} :
    {A : Type ℓ} (pre : List A) (x : A) (ys : List A) (v : A)
    → set (pre ++ (x ∷ ys)) (length pre) v ≡ pre ++ (v ∷ ys)
set-append [] x ys v = refl
set-append (p ∷ pre) x ys v = ap (λ t. p ∷ t) (set-append pre x ys v)

pub store-append {ℓ} :
    {A : Type ℓ} (pre : List A) (x : A) (ys : List A) (v : A)
    → store (pre ++ (x ∷ ys)) (length pre) v ≡ some ((pre ++ (v ∷ [])) ++ ys)
store-append pre x ys v =
    store-some (pre ++ (x ∷ ys)) (length pre) v (omega (arith, length-append pre (x ∷ ys)))
    ∙ ap some (set-append pre x ys v ∙ sym (append_assoc pre (v ∷ []) ys))

pub length-snoc {ℓ} :
    {A : Type ℓ} (pre : List A) (v : A) → length pre + 1 ≡ length (pre ++ (v ∷ []))
length-snoc pre v = omega (arith, length-append pre (v ∷ []))

pub get_elem?-append {ℓ} :
    {A : Type ℓ} (pre : List A) (x : A) (ys : List A)
    → get_elem? (pre ++ (x ∷ ys)) (length pre) ≡ some x
get_elem?-append [] x ys = refl
get_elem?-append (p ∷ pre) x ys = get_elem?-append pre x ys
