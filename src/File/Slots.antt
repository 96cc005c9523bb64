-- ===== src/File/Slots.antt =====
-- The first free slot of the arrays of src/fs/file.c.
use conifer_os.Common.{
  ℕ, zero, suc, ◌+◌, ◌<◌, ◌≡◌, ◌≢◌, refl, ap, sym, Option, none, some, List, [], ◌∷◌, arith,
  get_elem?, set, length,
}
use mathlib.Core.Option.{some-injective}
use conifer_os.File.{find_slot}

-- The first null pointer of an array is at `i`.
pub record FirstNull {A : Type 0} (xs : List (Option A)) (i : ℕ) : Type 0 where
  pub inside : i < length xs
  pub null : get_elem? xs i ≡ some none
  pub first : (j : ℕ) → j < i → get_elem? xs j ≢ some none

-- What the search returns: the first null pointer, or nothing if there is none.
abbrev pub Slot : {A : Type 0} → List (Option A) → ℕ → Option ℕ → Type 0
Slot xs o none = (j : ℕ) → get_elem? xs j ≢ some none
Slot xs o (some k) = (i : ℕ) × (k ≡ o + i) × FirstNull xs i

occupied : {A : Type 0} (x : A) → some (some x) ≢ some none
occupied x e = cc

nothing : {A : Type 0} (x : Option A) → none ≢ some x
nothing x e = cc

still_none :
    {A : Type 0} (x : A) (xs : List (Option A))
    → ((j : ℕ) → get_elem? xs j ≢ some none)
    → (j : ℕ) → get_elem? (some x ∷ xs) j ≢ some none
still_none x xs h zero = occupied x
still_none x xs h (suc j) = h j

still_first :
    {A : Type 0} (x : A) (xs : List (Option A)) (i : ℕ)
    → FirstNull xs i
    → (j : ℕ) → j < suc i
    → get_elem? (some x ∷ xs) j ≢ some none
still_first x xs i f zero h = occupied x
still_first x xs i f (suc j) h = f.first j (omega arith)

behind :
    {A : Type 0} (x : A) (xs : List (Option A)) (o : ℕ) (r : Option ℕ)
    → Slot xs (o + 1) r
    → Slot (some x ∷ xs) o r
behind x xs o none h = still_none x xs h
behind x xs o (some k) (i, at, f) = (
  suc i,
  omega (arith, at),
  record { inside = omega (arith, f.inside); null = f.null; first = still_first x xs i f },
)

-- The search of file_new_descriptor returns the index of the first null pointer behind its
-- offset, or nothing if no pointer of the array is null.
pub find_slot-Slot : {A : Type 0} (xs : List (Option A)) (o : ℕ) → Slot xs o (find_slot xs o)
unfolding find_slot
find_slot-Slot [] o = λ j. nothing none
find_slot-Slot (none ∷ xs) o = (
  0,
  omega arith,
  record { inside = omega arith; null = refl; first = λ j h. absurd (omega arith) },
)
find_slot-Slot (some x ∷ xs) o = behind x xs o (find_slot xs (o + 1)) (find_slot-Slot xs (o + 1))

pub get_elem?-set :
    {A : Type 0} (xs : List A) (i : ℕ) (x : A) → i < length xs → get_elem? (set xs i x) i ≡ some x
get_elem?-set [] i x h = absurd (omega arith)
get_elem?-set (y ∷ xs) zero x h = refl
get_elem?-set (y ∷ xs) (suc i) x h = get_elem?-set xs i x (omega arith)

pub set-set : {A : Type 0} (xs : List A) (i : ℕ) (x y : A) → set (set xs i x) i y ≡ set xs i y
set-set [] i x y = refl
set-set (z ∷ xs) zero x y = refl
set-set (z ∷ xs) (suc i) x y = ap (λ t. z ∷ t) (set-set xs i x y)

pub set_same :
    {A : Type 0} (xs : List A) (i : ℕ) (x : A) → get_elem? xs i ≡ some x → set xs i x ≡ xs
set_same [] i x e = refl
set_same (z ∷ xs) zero x e = ap (λ t. t ∷ xs) (sym (some-injective _ _ e))
set_same (z ∷ xs) (suc i) x e = ap (λ t. z ∷ t) (set_same xs i x e)
