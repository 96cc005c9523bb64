-- ===== src/Heap/Blocks.antt =====
-- The abstract view of the entry table of src/memory/heap/heap.c: a row of free blocks and of
-- allocations, and the entries that stand for it (src/memory/heap/README.md).
use conifer_os.Common.{
  ℕ, zero, suc, ◌+◌, ◌-◌, ◌≤◌, ◌<◌, ◌≡◌, refl, ap, sym, ◌∙◌, List, [], ◌∷◌, ◌++◌, append_assoc,
  arith, bit_or, lt→ltb, false, length, length-append, drop, replicate,
}
use native.Mathlib.Decide.{dec_lt}
use conifer_os.Heap.{entry_free, entry_taken, has_next, first_entry, get_entry_type}
use conifer_os.Heap.Search.{is_free, free_prefix, run_at}

-- A free block, or an allocation of `suc n` blocks.
pub data Seg : Type 0 where
  gap : Seg
  used : ℕ → Seg

abbrev pub gaps : ℕ → List Seg
gaps n = replicate n gap

-- The entries of the `n` blocks behind the first one of an allocation.
unfoldable pub tail_entries : ℕ → List ℕ
tail_entries zero = []
tail_entries (suc zero) = entry_taken ∷ []
tail_entries (suc (suc n)) = bit_or entry_taken has_next ∷ tail_entries (suc n)

abbrev pub used_entries : ℕ → List ℕ
used_entries n = first_entry (suc n) ∷ tail_entries n

unfoldable pub encode : List Seg → List ℕ
encode [] = []
encode (gap ∷ ss) = entry_free ∷ encode ss
encode (used n ∷ ss) = used_entries n ++ encode ss

pub encode-append : (a b : List Seg) → encode (a ++ b) ≡ encode a ++ encode b
unfolding encode
encode-append [] b = refl
encode-append (gap ∷ a) b = ap (λ t. entry_free ∷ t) (encode-append a b)
encode-append (used n ∷ a) b =
    ap (λ t. used_entries n ++ t) (encode-append a b)
    ∙ sym (append_assoc (used_entries n) (encode a) (encode b))

pub encode-gaps : (n : ℕ) → encode (gaps n) ≡ replicate n entry_free
unfolding encode
encode-gaps zero = refl
encode-gaps (suc n) = ap (λ t. entry_free ∷ t) (encode-gaps n)

pub length-tail_entries : (n : ℕ) → length (tail_entries n) ≡ n
unfolding tail_entries
length-tail_entries zero = refl
length-tail_entries (suc zero) = refl
length-tail_entries (suc (suc n)) = ap suc (length-tail_entries (suc n))

first-many : (n : ℕ) → first_entry (suc (suc n)) ≡ 0xc1
unfolding first_entry
first-many n = rw (lt→ltb 1 (suc (suc n)) (omega arith))

first_taken : (n : ℕ) → is_free (first_entry (suc n)) ≡ false
unfolding first_entry get_entry_type
first_taken zero = refl
first_taken (suc n) = rw first-many

-- No run of free blocks starts inside an allocation.
run_at_tail : (n i : ℕ) (es : List ℕ) → i < n → run_at (tail_entries n ++ es) i ≡ 0
unfolding tail_entries free_prefix get_entry_type
run_at_tail zero i es h = absurd (omega arith)
run_at_tail (suc zero) zero es h = refl
run_at_tail (suc zero) (suc i) es h = absurd (omega arith)
run_at_tail (suc (suc n)) zero es h = refl
run_at_tail (suc (suc n)) (suc i) es h = run_at_tail (suc n) i es (omega arith)

run_at_used : (n i : ℕ) (es : List ℕ) → i < suc n → run_at (used_entries n ++ es) i ≡ 0
unfolding free_prefix
run_at_used n zero es h = rw (first_taken n)
run_at_used n (suc i) es h = run_at_tail n i es (omega arith)

pub drop-append {ℓ} :
    {A : Type ℓ} (xs ys : List A) (i m : ℕ) → i ≡ length xs + m → drop i (xs ++ ys) ≡ drop m ys
drop-append [] ys i m e = let e' : i ≡ m = omega arith in ap (λ k. drop k ys) e'
drop-append (x ∷ xs) ys zero m e = absurd (omega arith)
drop-append (x ∷ xs) ys (suc i) m e = drop-append xs ys i m (omega arith)

-- A run of `n` free blocks at the front is `n` gaps.
front_gaps :
    (ss : List Seg) (n : ℕ) → n ≤ free_prefix (encode ss) → (b : List Seg) × (ss ≡ gaps n ++ b)
unfolding encode free_prefix get_entry_type
front_gaps ss zero h = (ss, refl)
front_gaps [] (suc n) h = absurd (omega arith)
front_gaps (gap ∷ ss) (suc n) h =
    let (b, e) = front_gaps ss n (omega arith) in (b, ap (λ t. gap ∷ t) e)
front_gaps (used k ∷ ss) (suc n) h = absurd (omega (arith, rw (first_taken k) at h))

pub record GapsAt (ss : List Seg) (i n : ℕ) : Type 0 where
  pub before : List Seg
  pub after : List Seg
  pub split : ss ≡ before ++ (gaps n ++ after)
  pub at : length (encode before) ≡ i

abbrev size : Seg → ℕ
size gap = 1
size (used n) = suc n

length-encode-cons :
    (g : Seg) (ss : List Seg) → length (encode (g ∷ ss)) ≡ size g + length (encode ss)
unfolding encode
length-encode-cons gap ss = omega arith
length-encode-cons (used n) ss =
    omega (arith, length-append {0} (tail_entries n) (encode ss), length-tail_entries n)

locate_next :
    (g : Seg) (ss : List Seg) (i m n : ℕ) → i ≡ size g + m → GapsAt ss m n → GapsAt (g ∷ ss) i n
locate_next g ss i m n e l = record {
  before = g ∷ l.before;
  after = l.after;
  split = ap (λ t. g ∷ t) l.split;
  at = omega (arith, length-encode-cons g l.before, l.at);
}

-- A free run goes on behind an allocation.
skip_used :
    (k i n : ℕ) (ss : List Seg)
    → 0 < n
    → n ≤ run_at (encode (used k ∷ ss)) i
    → (k < i) × (n ≤ run_at (encode ss) (i - suc k))
unfolding encode
skip_used k i n ss pos h = elim (dec_lt i (suc k)) [
  | yes p ↦ absurd (omega (arith, run_at_used k i (encode ss) p))
  | no p ↦ (
    omega arith,
    rw
        (drop-append (used_entries k) (encode ss) i (i - suc k)
          (omega (arith, length-tail_entries k)))
        at h,
  )
]

-- A run of `n` free blocks from index `i` on is `n` gaps of the row.
pub locate : (ss : List Seg) (i n : ℕ) → 0 < n → n ≤ run_at (encode ss) i → GapsAt ss i n
unfolding encode free_prefix get_entry_type
locate ss zero n pos h =
    let (b, e) = front_gaps ss n h in record { before = []; after = b; split = e; at = refl }
locate [] (suc i) n pos h = absurd (omega arith)
locate (gap ∷ ss) (suc i) n pos h =
    locate_next gap ss (suc i) i n (omega arith) (locate ss i n pos h)
locate (used k ∷ ss) (suc i) n pos h =
    let (past, run) = skip_used k (suc i) n ss pos h in
    locate_next (used k) ss (suc i) (suc i - suc k) n (omega arith)
      (locate ss (suc i - suc k) n pos run)
