-- ===== src/UserMemory/Text.antt =====
-- `strncpy` of src/string/string.c in the memory behind page tables.
use conifer_os.Common.{
  ℕ, zero, suc, ◌+◌, ◌%◌, ◌^◌, ◌≤◌, ◌<◌, ◌≡◌, ◌≢◌, refl, ap, sym, ◌∙◌, List, [], ◌∷◌, arith, length,
  eq→==, ne→==,
}
use mathlib.Core.Path.{subst}
use conifer_os.UserMemory.{Translation, put_byte, strncpy_loop}

-- A string with its terminator stands at an address.
abbrev pub TextAt : (ℕ → ℕ) → Translation → ℕ → List ℕ → Type 0
TextAt bytes tr a [] = bytes (tr a) ≡ 0
TextAt bytes tr a (c ∷ s) = (c ≢ 0) × (bytes (tr a) ≡ c) × TextAt bytes tr (a + 1) s

pub put_byte_same : (bytes : ℕ → ℕ) (p v : ℕ) → put_byte bytes p v p ≡ v
unfolding put_byte
put_byte_same bytes p v = rw (eq→== p p refl)

pub put_byte_other : (bytes : ℕ → ℕ) (p v a : ℕ) → a ≢ p → put_byte bytes p v a ≡ bytes a
unfolding put_byte
put_byte_other bytes p v a h = rw (ne→== a p h)

-- The same characters at the same or other places.
pub TextAt-agree :
    (s : List ℕ) (bytes bytes' : ℕ → ℕ) (tr tr' : Translation) (a a' : ℕ)
    → ((j : ℕ) → j ≤ length s → bytes' (tr' (a' + j)) ≡ bytes (tr (a + j)))
    → TextAt bytes tr a s
    → TextAt bytes' tr' a' s
TextAt-agree [] bytes bytes' tr tr' a a' h t =
    ap (λ x. bytes' (tr' x)) (omega arith)
    ∙ h 0 (omega arith)
    ∙ ap (λ x. bytes (tr x)) (omega arith)
    ∙ t
TextAt-agree (c ∷ s) bytes bytes' tr tr' a a' h t = (
  t.0,
  ap (λ x. bytes' (tr' x)) (omega arith)
      ∙ h 0 (omega arith)
      ∙ ap (λ x. bytes (tr x)) (omega arith)
      ∙ t.1,
  TextAt-agree s bytes bytes' tr tr' (a + 1) (a' + 1)
      (λ j l.
        ap (λ x. bytes' (tr' x)) (omega arith)
        ∙ h (suc j) (omega arith)
        ∙ ap (λ x. bytes (tr x)) (omega arith))
      t.2,
)

-- What `strncpy` makes of the memory: the string stands at the destination, nothing else has changed.
pub record CopiedTo (s : List ℕ) (tr : Translation) (bytes r : ℕ → ℕ) (dest : ℕ) : Type 0 where
  pub text : TextAt r tr dest s
  pub other : (a : ℕ) → ((i : ℕ) → i ≤ length s → a ≢ tr (dest + i)) → r a ≡ bytes a

ne_at : (tr : Translation) (a b a' b' : ℕ) → a ≡ a' → b ≡ b' → tr a' ≢ tr b' → tr a ≢ tr b
ne_at tr a b a' b' e f h = rw (e, f) h

-- Neither does the destination overlap the source, nor does any of its bytes have two addresses.
pub record Clear (tr : Translation) (dest src n : ℕ) : Type 0 where
  pub apart : (i j : ℕ) → i ≤ n → j ≤ n → tr (src + j) ≢ tr (dest + i)
  pub once : (i j : ℕ) → i ≤ n → j ≤ n → i ≢ j → tr (dest + i) ≢ tr (dest + j)
  pub dest_bound : dest + n < 2 ^ 32
  pub src_bound : src + n < 2 ^ 32

ended :
    (tr : Translation) (bytes : ℕ → ℕ) (dest : ℕ)
    → CopiedTo [] tr bytes (put_byte bytes (tr dest) 0) dest
ended tr bytes dest = record {
  text = put_byte_same bytes (tr dest) 0;
  other = λ a h.
      put_byte_other bytes (tr dest) 0 a (subst (λ x. a ≢ tr x) (omega arith) (h 0 (omega arith)));
}

module _ (tr : Translation) (dest src : ℕ) (s : List ℕ)
    (clear : Clear tr dest src (suc (length s))) where
  Clear-suc : Clear tr (dest + 1) (src + 1) (length s)
  Clear-suc =
      let d : (i : ℕ) → dest + 1 + i ≡ dest + suc i = λ i. omega arith in
      let e : (i : ℕ) → src + 1 + i ≡ src + suc i = λ i. omega arith in
      record {
        apart = λ i j a b. rw (d i, e j) (clear.apart (suc i) (suc j) (omega arith) (omega arith));
        once = λ i j a b ne.
            rw (d i, d j)
              (clear.once (suc i) (suc j) (omega arith) (omega arith) (λ f. ne (omega (arith, f))));
        dest_bound = omega (arith, clear.dest_bound);
        src_bound = omega (arith, clear.src_bound);
      }

  -- One character in front of the copy.
  CopiedTo-suc :
      (c v : ℕ) (bytes r : ℕ → ℕ)
      → c ≢ 0
      → v ≡ c
      → CopiedTo s tr (put_byte bytes (tr dest) v) r (dest + 1)
      → CopiedTo (c ∷ s) tr bytes r dest
  CopiedTo-suc c v bytes r full e rest = record {
    text = (
      full,
      rest.other (tr dest) (λ i l.
            ne_at tr dest (dest + 1 + i) (dest + 0) (dest + suc i) (omega arith) (omega arith)
              (clear.once 0 (suc i) (omega arith) (omega arith) (λ f. omega (arith, f))))
          ∙ put_byte_same bytes (tr dest) v
          ∙ e,
      rest.text,
    );
    other = λ a h.
        rest.other a (λ i l. subst (λ x. a ≢ tr x) (omega arith) (h (suc i) (omega arith)))
        ∙ put_byte_other bytes (tr dest) v a
            (subst (λ x. a ≢ tr x) (omega arith) (h 0 (omega arith)));
  }

pub strncpy_loop-CopiedTo :
    (s : List ℕ) (n : ℕ) (tr : Translation) (bytes : ℕ → ℕ) (dest src : ℕ)
    → length s ≤ n
    → Clear tr dest src (length s)
    → TextAt bytes tr src s
    → CopiedTo s tr bytes (strncpy_loop n tr bytes dest src) dest
unfolding strncpy_loop
strncpy_loop-CopiedTo [] zero tr bytes dest src l clear t = ended tr bytes dest
strncpy_loop-CopiedTo [] (suc n) tr bytes dest src l clear t =
    rw (eq→== _ 0 t) (ended tr bytes dest)
strncpy_loop-CopiedTo (c ∷ s) zero tr bytes dest src l clear t = absurd (omega arith)
strncpy_loop-CopiedTo (c ∷ s) (suc n) tr bytes dest src l clear t =
    let full : bytes (tr src) ≢ 0 = λ e. t.0 (sym t.1 ∙ e) in
    let bytes' = put_byte bytes (tr dest) (bytes (tr src)) in
    let d : (dest + 1) % 2 ^ 32 ≡ dest + 1 = omega (arith, clear.dest_bound) in
    let e : (src + 1) % 2 ^ 32 ≡ src + 1 = omega (arith, clear.src_bound) in
    let kept =
      TextAt-agree s bytes bytes' tr tr (src + 1) (src + 1)
        (λ j m. put_byte_other bytes (tr dest) (bytes (tr src)) (tr (src + 1 + j)) (
          ne_at tr (src + 1 + j) dest (src + suc j) (dest + 0) (omega arith) (omega arith)
            (clear.apart 0 (suc j) (omega arith) (omega arith))))
        t.2 in
    let rest =
      strncpy_loop-CopiedTo s n tr bytes' (dest + 1) (src + 1) (omega arith)
        (Clear-suc tr dest src s clear) kept in
    rw (ne→== (bytes (tr src)) 0 full, d, e)
      (CopiedTo-suc tr dest src s clear c (bytes (tr src)) bytes
        (strncpy_loop n tr bytes' (dest + 1) (src + 1)) t.0 t.1 rest)
