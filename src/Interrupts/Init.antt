-- ===== src/Interrupts/Init.antt =====
-- What `idt_init` makes of the tables.
use conifer_os.Common.{
  ℕ, zero, suc, ◌+◌, ◌*◌, ◌^◌, ◌≤◌, ◌<◌, ◌≡◌, ◌≢◌, refl, sym, ◌∙◌, arith, Option, none, some, List,
  ◌==◌, if◌then◌else◌, length, replicate, length-replicate, length-set, lt→ltb, ne→==, bit_and-ones,
  get_elem?, get_elem?-set_self, get_elem?-set_ne, set, store, store-some, ok, ◌>>=◌,
}
use mathlib.Core.Path.{subst}
use native.Mathlib.Decide.{ℕ_discrete}
use conifer_os.Interrupts.{
  IdtEntry, gate, idt_set, idt_register_interrupt_handler, register_loop,
  register_handler_for_exceptions, set_gates, idt_init, total_interrupts, kernel_code_selector,
}

bind_ext :
    {A B : Type 0} (m : Option A) {f g : A → Option B}
    → ((a : A) → f a ≡ g a)
    → (m >>= f) ≡ (m >>= g)
bind_ext none h = refl
bind_ext (some a) h = h a

-- Where the result code of a step is not looked at.
bind_kept :
    {A B C : Type 0} (c : C) (m : Option A) {f g : A → Option B}
    → ((a : A) → f a ≡ g a)
    → ◌>>=◌ {A = C × A} (m >>= λ a. some (c, a)) (λ x. f x.1) ≡ (m >>= g)
bind_kept c none h = refl
bind_kept c (some a) h = h a

-- Elements of an array that are written one after the other.
store_all : {A : Type 0} → ℕ → (ℕ → A) → List A → ℕ → Option (List A)
store_all zero f xs i = some xs
store_all (suc n) f xs i = store xs i (f i) >>= λ ys. store_all n f ys (i + 1)

record Filled {A : Type 0} (n : ℕ) (f : ℕ → A) (xs : List A) (i : ℕ) (r : Option (List A))
    : Type 0 where
  filled : List A
  result : r ≡ some filled
  sized : length filled ≡ length xs
  inside : (j : ℕ) → i ≤ j → j < i + n → get_elem? filled j ≡ some (f j)
  before : (j : ℕ) → j < i → get_elem? filled j ≡ get_elem? xs j
  behind : (j : ℕ) → i + n ≤ j → get_elem? filled j ≡ get_elem? xs j

store_all-Filled :
    {A : Type 0} (n : ℕ) (f : ℕ → A) (xs : List A) (i : ℕ)
    → i + n ≤ length xs
    → Filled n f xs i (store_all n f xs i)
unfolding store_all
store_all-Filled zero f xs i h = record {
  filled = xs;
  result = refl;
  sized = refl;
  inside = λ j a b. absurd (omega (arith, a, b));
  before = λ j a. refl;
  behind = λ j a. refl;
}
store_all-Filled (suc n) f xs i h =
    let ys = set xs i (f i) in
    let stored = store-some xs i (f i) (omega (arith, h)) in
    let rest = store_all-Filled n f ys (i + 1) (omega (arith, h, length-set xs i (f i))) in
    let kept : (j : ℕ) → i ≢ j → get_elem? ys j ≡ get_elem? xs j =
      λ j e. get_elem?-set_ne xs (f i) e in
    record {
      filled = rest.filled;
      result = rw stored rest.result;
      sized = rest.sized ∙ length-set xs i (f i);
      inside = λ j a b. elim (ℕ_discrete i j) [
        | yes e ↦
            rest.before j (omega (arith, e))
            ∙ subst (λ m. get_elem? ys m ≡ some (f m)) e
                (get_elem?-set_self xs i (f i) (omega (arith, h)))
        | no e ↦ rest.inside j (omega (arith, e, a)) (omega (arith, b))
      ];
      before = λ j a. rest.before j (omega (arith, a)) ∙ kept j (λ e. omega (arith, e, a));
      behind = λ j a. rest.behind j (omega (arith, a)) ∙ kept j (λ e. omega (arith, e, a));
    }

-- The loops write one element after the other.
set_gates_lem :
    (n : ℕ) (table : ℕ → ℕ) (idt : List IdtEntry) (i : ℕ)
    → set_gates n table idt i ≡ store_all n (λ j. gate (table j)) idt i
unfolding set_gates store_all idt_set
set_gates_lem zero table idt i = refl
set_gates_lem (suc n) table idt i =
    bind_ext (store idt i (gate (table i))) (λ idt1. set_gates_lem n table idt1 (i + 1))

register_loop_lem :
    {A : Type 0} (n : ℕ) (handler : A) (handlers : List (Option A)) (i : ℕ)
    → i + n ≤ total_interrupts
    → register_loop n handler handlers i ≡ store_all n (λ j. some handler) handlers i
unfolding register_loop store_all idt_register_interrupt_handler
register_loop_lem zero handler handlers i h = refl
register_loop_lem {A = A} (suc n) handler handlers i h =
    rw (lt→ltb i total_interrupts (omega (arith, h))) (
      bind_kept (ok 0) (store handlers i (some handler))
        (λ hs. register_loop_lem n handler hs (i + 1) (omega (arith, h))))

-- The address that a gate leads to.
abbrev pub address : IdtEntry → ℕ
address e = e.offset_1 + e.offset_2 * 2 ^ 16

address-gate : (handler : ℕ) → address (gate handler) ≡ handler
unfolding gate
address-gate handler = omega (arith, bit_and-ones 16 handler)

-- A gate of the kernel for programs, which leads to an address.
abbrev pub LeadsTo : Option IdtEntry → ℕ → Type 0
LeadsTo r a =
    (e : IdtEntry) × (r ≡ some e)
    × (address e ≡ a)
    × (e.selector ≡ kernel_code_selector)
    × (e.type_attr ≡ 0xee)

gate-LeadsTo : (r : Option IdtEntry) (a : ℕ) → r ≡ some (gate a) → LeadsTo r a
unfolding gate
gate-LeadsTo r a h = (gate a, h, address-gate a, refl, refl)

-- The routine of an interrupt.
abbrev pub vector : (ℕ → ℕ) → ℕ → ℕ → ℕ → ℕ
vector interrupt_pointer_table idt_zero isr80h_wrapper i =
    if i == 0x80 then isr80h_wrapper else if i == 0 then idt_zero else interrupt_pointer_table i

-- The tables behind `idt_init`.
pub record Initialised {A : Type 0} (table : ℕ → ℕ) (idt_zero isr80h_wrapper : ℕ) (handler : A)
    (handlers : List (Option A)) (r : Option (List IdtEntry × List (Option A))) : Type 0 where
  pub gates : List IdtEntry
  pub registered : List (Option A)
  pub result : r ≡ some (gates, registered)
  pub leads :
      (i : ℕ)
      → i < total_interrupts
      → LeadsTo (get_elem? gates i) (vector table idt_zero isr80h_wrapper i)
  pub exceptions : (i : ℕ) → i < 32 → get_elem? registered i ≡ some (some handler)
  pub others : (i : ℕ) → 32 ≤ i → get_elem? registered i ≡ get_elem? handlers i
  pub size : length registered ≡ length handlers

module _ (table : ℕ → ℕ) (idt_zero isr80h_wrapper : ℕ) (gates : List IdtEntry)
    (sized : length gates ≡ total_interrupts)
    (written : (j : ℕ) → j < total_interrupts → get_elem? gates j ≡ some (gate (table j))) where
  abbrev first : List IdtEntry
  first = set gates 0 (gate idt_zero)

  abbrev overwritten : List IdtEntry
  overwritten = set first 0x80 (gate isr80h_wrapper)

  by_zero :
      (i : ℕ)
      → Dec (0 ≡ i)
      → i < total_interrupts
      → get_elem? first i ≡ some (gate (if i == 0 then idt_zero else table i))
  by_zero i (yes e) h =
      subst (λ m. get_elem? first m ≡ some (gate (if m == 0 then idt_zero else table m))) e
        (get_elem?-set_self gates 0 (gate idt_zero) (omega (arith, sized)))
  by_zero i (no e) h =
      rw (ne→== i 0 (λ x. e (sym x))) (get_elem?-set_ne gates (gate idt_zero) e ∙ written i h)

  overwritten-vector :
      (i : ℕ)
      → i < total_interrupts
      → get_elem? overwritten i ≡ some (gate (vector table idt_zero isr80h_wrapper i))
  overwritten-vector i h = elim (ℕ_discrete 0x80 i) [
    | yes e ↦
        subst (λ m. get_elem? overwritten m ≡ some (gate (vector table idt_zero isr80h_wrapper m)))
          e
          (get_elem?-set_self first 0x80 (gate isr80h_wrapper)
            (omega (arith, sized, length-set gates 0 (gate idt_zero))))
    | no e ↦
        let other = ne→== i 0x80 (λ x. e (sym x)) in
        get_elem?-set_ne first (gate isr80h_wrapper) e ∙ rw other (by_zero i (ℕ_discrete 0 i) h)
  ]

-- With tables of 512 entries, idt_init leaves gates of the kernel code segment that programs may
-- use, which lead to the routine of the interrupt, for interrupt 0 and 0x80 to idt_zero and
-- isr80h_wrapper; the handlers of interrupts 0 to 31 are the handler of exceptions, and the
-- others are as before.
pub idt_init-Initialised :
    {A : Type 0} (table : ℕ → ℕ) (idt_zero isr80h_wrapper : ℕ) (handler : A) (idt : List IdtEntry)
    (handlers : List (Option A))
    → length idt ≡ total_interrupts
    → length handlers ≡ total_interrupts
    → Initialised table idt_zero isr80h_wrapper handler handlers
        (idt_init table idt_zero isr80h_wrapper handler idt handlers)
unfolding idt_init register_handler_for_exceptions idt_set
idt_init-Initialised table idt_zero isr80h_wrapper handler idt handlers size room =
    let empty : IdtEntry = record {
      offset_1 = 0;
      selector = 0;
      zero = 0;
      type_attr = 0;
      offset_2 = 0;
    } in
    let cleared = replicate (length idt) empty in
    let full = length-replicate (length idt) empty in
    let f =
      store_all-Filled total_interrupts (λ j. gate (table j)) cleared 0
        (omega (arith, size, full)) in
    let g = store_all-Filled 32 (λ j. some handler) handlers 0 (omega (arith, room)) in
    let sized : length f.filled ≡ total_interrupts = omega (arith, f.sized, full, size) in
    let one = store-some f.filled 0 (gate idt_zero) (omega (arith, sized)) in
    let two =
      store-some
        (first table idt_zero isr80h_wrapper f.filled sized
          (λ j h. f.inside j (omega arith) (omega (arith, h))))
        0x80 (gate isr80h_wrapper) (omega (arith, sized, length-set f.filled 0 (gate idt_zero))) in
    record {
      gates =
          overwritten table idt_zero isr80h_wrapper f.filled sized
            (λ j h. f.inside j (omega arith) (omega (arith, h)));
      registered = g.filled;
      result =
          rw
            (
              set_gates_lem total_interrupts table cleared 0,
              f.result,
              one,
              two,
              register_loop_lem 32 handler handlers 0 (omega arith),
              g.result,
            )
            refl;
      leads = λ i h. gate-LeadsTo _ (vector table idt_zero isr80h_wrapper i) (
          overwritten-vector table idt_zero isr80h_wrapper f.filled sized
            (λ j b. f.inside j (omega arith) (omega (arith, b))) i h);
      exceptions = λ i h. g.inside i (omega arith) (omega (arith, h));
      others = λ i h. g.behind i (omega (arith, h));
      size = g.sized;
    }
