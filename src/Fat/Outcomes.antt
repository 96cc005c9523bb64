-- ===== src/Fat/Outcomes.antt =====
-- What holds of the results of calls that may fault, read off their parts. A call returns a value and
-- a state.
use conifer_os.Common.{
  ◌≡◌, refl, Bool, true, false, Option, some, none, Result, ok, err, Errno, ◌>>=◌, if◌then◌else◌,
}

-- What holds of the result of a call, and of the driver after it, if it returns.
pub data After {A S : Type 0} (P : A → S → Type 0) : Option (A × S) → Type 0 where
  fails : After P none
  returns : {a : A} {s : S} → P a s → After P (some (a, s))

module _ {A S B T : Type 0} {P : A → S → Type 0} {Q : B → T → Type 0} where
  pub bind-After :
      (call : Option (A × S)) (f : A × S → Option (B × T))
      → After P call
      → ((a : A) (s : S) → P a s → After Q (f (a, s)))
      → After Q (call >>= f)
  bind-After none f h k = fails
  bind-After (some (a, s)) f (returns h) k = k a s h

module _ {A B T : Type 0} {Q : B → T → Type 0} where
  pub from-After :
      (call : Option A) (f : A → Option (B × T)) → ((a : A) → After Q (f a)) → After Q (call >>= f)
  from-After none f k = fails
  from-After (some a) f k = k a

module _ {B T : Type 0} {Q : B → T → Type 0} where
  -- Either branch.
  pub if-After :
      (b : Bool) (x y : Option (B × T)) → After Q x → After Q y → After Q (if b then x else y)
  if-After true x y h k = h
  if-After false x y h k = k

module _ {A B T : Type 0} {Q : B → T → Type 0} where
  -- An error, or a value.
  pub result-After :
      (r : Result A) (f : Errno → Option (B × T)) (g : A → Option (B × T))
      → ((e : Errno) → After Q (f e))
      → ((a : A) → After Q (g a))
      → After Q (elim r [ ok a ↦ g a | err e ↦ f e ])
  result-After (ok a) f g h k = k a
  result-After (err e) f g h k = h e

module _ {B T : Type 0} {Q : B → T → Type 0} where
  -- Either branch, with the value of the test.
  pub branch-After :
      (b : Bool) (x y : Option (B × T))
      → (b ≡ true → After Q x)
      → (b ≡ false → After Q y)
      → After Q (if b then x else y)
  branch-After true x y h k = h refl
  branch-After false x y h k = k refl

module _ {A B T : Type 0} {Q : B → T → Type 0} where
  -- A null pointer, or none.
  pub option-After :
      (o : Option A) (x : Option (B × T)) (g : A → Option (B × T))
      → After Q x
      → ((a : A) → After Q (g a))
      → After Q (elim o [ none ↦ x | some a ↦ g a ])
  option-After none x g h k = h
  option-After (some a) x g h k = k a
