-- ===== src/Keyboard/Queue.antt =====
-- The key buffer of src/keyboard/keyboard.c as a queue of at most 1024 characters.
use conifer_os.Common.{
  ℕ, zero, suc, ◌+◌, ◌%◌, ◌≤◌, ◌<◌, ◌≡◌, ◌≢◌, refl, ap, sym, ◌∙◌, inl, inr, some, List, [], ◌∷◌,
  ◌++◌, arith, ◌==◌, ==_iff, eq→==, ne→==, Bool-cases, length, length-append, length-set, get_or,
  get_elem?, set, store-some,
}
use native.Mathlib.Decide.{ℕ_discrete}
use conifer_os.CString.Length.{NonNull}
use conifer_os.Keyboard.{KeyboardBuffer, buffer_size, increment_tail, keyboard_push, keyboard_pop}

-- The buffer holds the characters `q` in order from its head on, round the end of the array, and 0
-- everywhere else.
pub record IsQueue (k : KeyboardBuffer) (q : List ℕ) : Type 0 where
  pub sized : length k.buffer ≡ buffer_size
  pub head_in : k.head < buffer_size
  pub fits : length q ≤ buffer_size
  pub tail_at : k.tail ≡ (k.head + length q) % buffer_size
  pub keys : NonNull q
  pub holds :
      (i : ℕ) → i < buffer_size → get_or k.buffer ((k.head + i) % buffer_size) 0 ≡ get_or q i 0

get_or-set_self : (xs : List ℕ) (i v : ℕ) → i < length xs → get_or (set xs i v) i 0 ≡ v
get_or-set_self [] i v h = absurd (omega arith)
get_or-set_self (x ∷ xs) zero v h = refl
get_or-set_self (x ∷ xs) (suc i) v h = get_or-set_self xs i v (omega arith)

get_or-set_ne : (xs : List ℕ) (i j v : ℕ) → i ≢ j → get_or (set xs i v) j 0 ≡ get_or xs j 0
get_or-set_ne [] i j v h = refl
get_or-set_ne (x ∷ xs) zero zero v h = absurd (h refl)
get_or-set_ne (x ∷ xs) zero (suc j) v h = refl
get_or-set_ne (x ∷ xs) (suc i) zero v h = refl
get_or-set_ne (x ∷ xs) (suc i) (suc j) v h = get_or-set_ne xs i j v (λ e. h (ap suc e))

pub get_elem?-get_or : (xs : List ℕ) (i : ℕ) → i < length xs → get_elem? xs i ≡ some (get_or xs i 0)
get_elem?-get_or [] i h = absurd (omega arith)
get_elem?-get_or (x ∷ xs) zero h = refl
get_elem?-get_or (x ∷ xs) (suc i) h = get_elem?-get_or xs i (omega arith)

get_or-snoc_last : (q : List ℕ) (c : ℕ) → get_or (q ++ (c ∷ [])) (length q) 0 ≡ c
get_or-snoc_last [] c = refl
get_or-snoc_last (x ∷ q) c = get_or-snoc_last q c

get_or-snoc_ne : (q : List ℕ) (c i : ℕ) → i ≢ length q → get_or (q ++ (c ∷ [])) i 0 ≡ get_or q i 0
get_or-snoc_ne [] c zero h = absurd (h refl)
get_or-snoc_ne [] c (suc i) h = refl
get_or-snoc_ne (x ∷ q) c zero h = refl
get_or-snoc_ne (x ∷ q) c (suc i) h = get_or-snoc_ne q c i (λ e. h (ap suc e))

pub get_or_beyond : (q : List ℕ) (i : ℕ) → length q ≤ i → get_or q i 0 ≡ 0
get_or_beyond [] i h = refl
get_or_beyond (x ∷ q) zero h = absurd (omega arith)
get_or_beyond (x ∷ q) (suc i) h = get_or_beyond q i (omega arith)

NonNull-snoc : (q : List ℕ) (c : ℕ) → NonNull q → c ≢ 0 → NonNull (q ++ (c ∷ []))
NonNull-snoc [] c h ne = (ne, tt)
NonNull-snoc (x ∷ q) c h ne = (h.0, NonNull-snoc q c h.1 ne)

-- The buffer after a character is stored.
abbrev pub pushed : KeyboardBuffer → ℕ → KeyboardBuffer
pushed k c = record k { buffer = set k.buffer k.tail c; tail = (k.tail + 1) % buffer_size }

-- The buffer after a character is taken.
abbrev pub popped : KeyboardBuffer → KeyboardBuffer
popped k = record k { buffer = set k.buffer k.head 0; head = (k.head + 1) % buffer_size }

module _ (k : KeyboardBuffer) (q : List ℕ) (c : ℕ) where
  pushed_holds :
      IsQueue k q
      → length q < buffer_size
      → (i : ℕ) → i < buffer_size
      → get_or (set k.buffer k.tail c) ((k.head + i) % buffer_size) 0 ≡ get_or (q ++ (c ∷ [])) i 0
  pushed_holds h room i b = elim (ℕ_discrete i (length q)) [
    | yes e ↦
        rw (e, ← h.tail_at, get_or-snoc_last q c)
          (get_or-set_self k.buffer k.tail c (omega (arith, h.sized, h.tail_at)))
    | no ne ↦
        let apart : k.tail ≢ (k.head + i) % buffer_size = omega (arith, h.tail_at, h.head_in) in
        get_or-set_ne k.buffer k.tail ((k.head + i) % buffer_size) c apart
        ∙ h.holds i b
        ∙ sym (get_or-snoc_ne q c i ne)
  ]

  pushed-IsQueue :
      IsQueue k q → c ≢ 0 → length q < buffer_size → IsQueue (pushed k c) (q ++ (c ∷ []))
  pushed-IsQueue h ne room =
      let l = length-append q (c ∷ []) in
      record {
        sized = length-set k.buffer k.tail c ∙ h.sized;
        head_in = h.head_in;
        fits = omega (arith, l);
        tail_at = omega (arith, l, h.tail_at, h.head_in);
        keys = NonNull-snoc q c h.keys ne;
        holds = pushed_holds h room;
      }

  overflow_flag :
      IsQueue k q
      → length q < buffer_size
      → ((k.tail + 1) % buffer_size == k.head) ≡ (length q + 1 == buffer_size)
  overflow_flag h room = elim (Bool-cases (length q + 1 == buffer_size)) [
    | inl full ↦ rw full (eq→== _ _ (omega (arith, (==_iff _ _).0 full, h.tail_at, h.head_in)))
    | inr more ↦ rw more (
        ne→== _ _ (
          let n : length q + 1 ≢ buffer_size = ground arith in omega (arith, h.tail_at, h.head_in)))
  ]

  -- While fewer than 1024 characters wait, keyboard_push of a character that is not 0 puts it
  -- behind them; the overflow message appears exactly when it takes the last free place.
  pub keyboard_push-IsQueue :
      IsQueue k q
      → c ≢ 0
      → length q < buffer_size
      → (keyboard_push (some k) c ≡ some (length q + 1 == buffer_size, some (pushed k c)))
        × IsQueue (pushed k c) (q ++ (c ∷ []))
  unfolding keyboard_push increment_tail
  keyboard_push-IsQueue h ne room = (
    rw (
      ne→== c 0 ne,
      store-some k.buffer k.tail c (omega (arith, h.sized, h.tail_at)),
      overflow_flag h room,
    ),
    pushed-IsQueue h ne room,
  )

  popped_holds :
      IsQueue k (c ∷ q)
      → (i : ℕ) → i < buffer_size
      → get_or (set k.buffer k.head 0) (((k.head + 1) % buffer_size + i) % buffer_size) 0
        ≡ get_or q i 0
  popped_holds h i b = elim (ℕ_discrete i 1023) [
    | yes e ↦
        let at : ((k.head + 1) % buffer_size + i) % buffer_size ≡ k.head =
          omega (arith, h.head_in) in
        rw at (
          get_or-set_self k.buffer k.head 0 (omega (arith, h.sized, h.head_in))
          ∙ sym (get_or_beyond q i (omega (arith, h.fits))))
    | no ne ↦
        let at : ((k.head + 1) % buffer_size + i) % buffer_size ≡ (k.head + suc i) % buffer_size =
          omega (arith, h.head_in) in
        let apart : k.head ≢ (k.head + suc i) % buffer_size = omega (arith, h.head_in) in
        rw at (
          get_or-set_ne k.buffer k.head ((k.head + suc i) % buffer_size) 0 apart
          ∙ h.holds (suc i) (omega arith))
  ]

  -- keyboard_pop takes the first waiting character, and what is left is the queue of the others.
  pub keyboard_pop-IsQueue :
      IsQueue k (c ∷ q) → (keyboard_pop (some k) ≡ some (c, some (popped k))) × IsQueue (popped k) q
  unfolding keyboard_pop
  keyboard_pop-IsQueue h =
      let at : (k.head + 0) % buffer_size ≡ k.head = omega (arith, h.head_in) in
      let first : get_or k.buffer k.head 0 ≡ c = rw at at (h.holds 0 (omega arith)) in
      let inside : k.head < length k.buffer = omega (arith, h.sized, h.head_in) in
      let read : get_elem? k.buffer k.head ≡ some c =
        get_elem?-get_or k.buffer k.head inside ∙ ap some first in
      (
        rw (read, ne→== c 0 h.keys.0, store-some k.buffer k.head 0 inside),
        record {
          sized = length-set k.buffer k.head 0 ∙ h.sized;
          head_in = omega arith;
          fits = omega (arith, h.fits);
          tail_at = omega (arith, h.tail_at, h.head_in);
          keys = h.keys.1;
          holds = popped_holds h;
        },
      )

-- With no character waiting it returns 0 and changes nothing.
pub keyboard_pop-empty :
    (k : KeyboardBuffer) → IsQueue k [] → keyboard_pop (some k) ≡ some (0, some k)
unfolding keyboard_pop
keyboard_pop-empty k h =
    let at : (k.head + 0) % buffer_size ≡ k.head = omega (arith, h.head_in) in
    let first : get_or k.buffer k.head 0 ≡ 0 = rw at at (h.holds 0 (omega arith)) in
    let read : get_elem? k.buffer k.head ≡ some 0 =
      get_elem?-get_or k.buffer k.head (omega (arith, h.sized, h.head_in)) ∙ ap some first in
    rw read
