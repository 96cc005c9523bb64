-- ===== src/Loading/Words.antt =====
-- Words and strings that the kernel writes to memory.
use conifer_os.Common.{
  Bool, true, false, ◌==◌, if◌then◌else◌, ℕ, ◌+◌, ◌%◌, ◌^◌, ◌≤◌, ◌<◌, ◌≡◌, ◌⊎◌, inl, inr, refl, ap,
  ◌∙◌, some, List, [], ◌∷◌, ◌++◌, arith, length, ne→==,
}
use conifer_os.CString.Length.{NonNull}
use conifer_os.UserMemory.{Translation, direct, put_byte, load_word}
use conifer_os.UserMemory.Text.{TextAt, put_byte_same, put_byte_other}
use conifer_os.Loading.{store_word, strcpy_bytes}

pub store_word-other :
    (bytes : ℕ → ℕ) (p v a : ℕ)
    → p + 4 ≤ 2 ^ 32
    → (a < p) ⊎ (p + 4 ≤ a)
    → store_word bytes p v a ≡ bytes a
unfolding store_word put_byte
store_word-other bytes p v a h (inl l) = rw (
  ne→== a p (λ e. omega (arith, e, l)),
  ne→== a ((p + 1) % 2 ^ 32) (λ e. omega (arith, e, l, h)),
  ne→== a ((p + 2) % 2 ^ 32) (λ e. omega (arith, e, l, h)),
  ne→== a ((p + 3) % 2 ^ 32) (λ e. omega (arith, e, l, h)),
)
store_word-other bytes p v a h (inr l) = rw (
  ne→== a p (λ e. omega (arith, e, l)),
  ne→== a ((p + 1) % 2 ^ 32) (λ e. omega (arith, e, l, h)),
  ne→== a ((p + 2) % 2 ^ 32) (λ e. omega (arith, e, l, h)),
  ne→== a ((p + 3) % 2 ^ 32) (λ e. omega (arith, e, l, h)),
)

-- The four bytes of a word, through page tables that lead to where it was stored.
pub load_word-store_word :
    (bytes : ℕ → ℕ) (p v : ℕ)
    → p + 4 ≤ 2 ^ 32
    → v < 2 ^ 32
    → load_word (store_word bytes p v) direct p ≡ v
unfolding store_word put_byte load_word
load_word-store_word bytes p v h small = ground arith

-- A word depends on its four bytes.
pub load_word-agree :
    (bytes bytes' : ℕ → ℕ) (tr tr' : Translation) (a a' : ℕ)
    → a + 4 ≤ 2 ^ 32
    → a' + 4 ≤ 2 ^ 32
    → ((i : ℕ) → i < 4 → bytes' (tr' (a' + i)) ≡ bytes (tr (a + i)))
    → load_word bytes' tr' a' ≡ load_word bytes tr a
unfolding load_word
load_word-agree bytes bytes' tr tr' a a' h h' agree =
    let plus : (b i : ℕ) → b + 4 ≤ 2 ^ 32 → i < 4 → (b + i) % 2 ^ 32 ≡ b + i =
      λ b i g l. omega arith in
    let zeroth : bytes' (tr' a') ≡ bytes (tr a) =
      ap (λ x. bytes' (tr' x)) (omega arith)
      ∙ agree 0 (omega arith)
      ∙ ap (λ x. bytes (tr x)) (omega arith) in
    rw (
      plus a 1 h (omega arith),
      plus a 2 h (omega arith),
      plus a 3 h (omega arith),
      plus a' 1 h' (omega arith),
      plus a' 2 h' (omega arith),
      plus a' 3 h' (omega arith),
      zeroth,
      agree 1 (omega arith),
      agree 2 (omega arith),
      agree 3 (omega arith),
    )

-- Memory holds bytes.
abbrev pub Bytes : (ℕ → ℕ) → Type 0
Bytes bytes = (a : ℕ) → bytes a < 256

put_byte-Bytes : (bytes : ℕ → ℕ) (p v : ℕ) → Bytes bytes → v < 256 → Bytes (put_byte bytes p v)
unfolding put_byte
put_byte-Bytes bytes p v h small a = by_test (a == p)
  where
    by_test : (b : Bool) → (if b then v else bytes a) < 256
    by_test true = small
    by_test false = h a

pub store_word-Bytes : (bytes : ℕ → ℕ) (p v : ℕ) → Bytes bytes → Bytes (store_word bytes p v)
unfolding store_word
store_word-Bytes bytes p v h =
    put_byte-Bytes _ _ _
      (put_byte-Bytes _ _ _
        (put_byte-Bytes _ _ _ (put_byte-Bytes bytes _ _ h (omega arith)) (omega arith))
        (omega arith))
      (omega arith)

pub load_word-small :
    (bytes : ℕ → ℕ) (tr : Translation) (a : ℕ) → Bytes bytes → load_word bytes tr a < 2 ^ 32
unfolding load_word
load_word-small bytes tr a h = omega (
  arith,
  h (tr a),
  h (tr ((a + 1) % 2 ^ 32)),
  h (tr ((a + 2) % 2 ^ 32)),
  h (tr ((a + 3) % 2 ^ 32)),
)

-- A string that was copied into memory.
pub record Stands (bytes r : ℕ → ℕ) (dest : ℕ) (s : List ℕ) : Type 0 where
  pub text : TextAt r direct dest s
  pub other : (a : ℕ) → (a < dest) ⊎ (dest + length s < a) → r a ≡ bytes a

pub strcpy_bytes-Stands :
    (s q : List ℕ) (bytes : ℕ → ℕ) (dest : ℕ)
    → NonNull s
    → dest + length s < 2 ^ 32
    → (r : ℕ → ℕ) × (strcpy_bytes bytes dest (s ++ (0 ∷ q)) ≡ some r) × Stands bytes r dest s
unfolding strcpy_bytes
strcpy_bytes-Stands [] q bytes dest h fits = (
  put_byte bytes dest 0,
  refl,
  record {
    text = put_byte_same bytes dest 0;
    other = λ a g.
        put_byte_other bytes dest 0 a
          (λ e. elim g [ inl l ↦ omega (arith, l, e) | inr l ↦ omega (arith, l, e) ]);
  },
)
strcpy_bytes-Stands (c ∷ s) q bytes dest h fits =
    let d : (dest + 1) % 2 ^ 32 ≡ dest + 1 = omega (arith, fits) in
    let (r, e, rest) =
      strcpy_bytes-Stands s q (put_byte bytes dest c) (dest + 1) h.1 (omega (arith, fits)) in
    (
      r,
      rw (ne→== c 0 h.0) (ap (λ x. strcpy_bytes (put_byte bytes dest c) x (s ++ (0 ∷ q))) d ∙ e),
      record {
        text = (h.0, rest.other dest (inl (omega arith)) ∙ put_byte_same bytes dest c, rest.text);
        other = λ a g. elim g [
          | inl l ↦
              rest.other a (inl (omega (arith, l)))
              ∙ put_byte_other bytes dest c a (λ f. omega (arith, l, f))
          | inr l ↦
              rest.other a (inr (omega (arith, l)))
              ∙ put_byte_other bytes dest c a (λ f. omega (arith, l, f))
        ];
      },
    )
