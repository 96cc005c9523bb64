-- ===== src/Loading/Settles.antt =====
-- What holds of the result of a chain of operations that may fault.
use conifer_os.Common.{
  ◌≡◌, refl, Bool, true, false, Option, none, some, Errno, Result, ok, err, if◌then◌else◌, ◌>>=◌,
}
use mathlib.Core.Path.{subst}

-- What holds of every result; `none` is a fault.
abbrev pub Settles : {B : Type 0} → (B → Type 0) → Option B → Type 0
Settles P none = Unit
Settles P (some b) = P b

module _ {B : Type 0} (P : B → Type 0) where
  pub Settles-bind :
      {A : Type 0} (m : Option A) (f : A → Option B)
      → ((a : A) → m ≡ some a → Settles P (f a))
      → Settles P (m >>= f)
  Settles-bind none f h = tt
  Settles-bind (some a) f h = h a refl

  pub Settles-if :
      (b : Bool) (x y : Option B) → Settles P x → Settles P y → Settles P (if b then x else y)
  Settles-if true x y h g = h
  Settles-if false x y h g = g

  pub Settles-result :
      {C : Type 0} (r : Result C) (f : Errno → Option B) (g : C → Option B)
      → ((e : Errno) → Settles P (f e))
      → ((c : C) → Settles P (g c))
      → Settles P (elim r [ err e ↦ f e | ok c ↦ g c ])
  Settles-result (err e) f g h k = h e
  Settles-result (ok c) f g h k = k c

  pub Settles-option :
      {C : Type 0} (o : Option C) (x : Option B) (g : C → Option B)
      → Settles P x
      → ((c : C) → Settles P (g c))
      → Settles P (elim o [ none ↦ x | some c ↦ g c ])
  Settles-option none x g h k = h
  Settles-option (some c) x g h k = k c

  pub Settles-some : (m : Option B) (b : B) → Settles P m → m ≡ some b → P b
  Settles-some m b h e = subst (Settles P) e h

pub Settles-mono :
    {B : Type 0} (P Q : B → Type 0) (m : Option B)
    → ((b : B) → P b → Q b)
    → Settles P m
    → Settles Q m
Settles-mono P Q none h g = tt
Settles-mono P Q (some b) h g = h b g
