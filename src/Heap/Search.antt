-- ===== src/Heap/Search.antt =====
-- `heap_get_start_block_index` against the runs of free blocks of a table.
use conifer_os.Common.{
  ℕ, zero, suc, ◌+◌, ◌-◌, ◌≤◌, ◌<◌, ◌≡◌, refl, ap, ◌≢◌, ◌⊎◌, inl, inr, Bool, true, false, Option,
  none, some, List, [], ◌∷◌, arith, ◌==◌, ==_iff, if◌then◌else◌, length, drop, take, Bool-cases,
  Result, ok, err, enomem,
}
use native.Mathlib.Numerals.{add-one}
use native.Mathlib.Decide.{ℕ_discrete, dec_lt}
use conifer_os.Heap.{HeapDesc, entry_free, get_entry_type, scan_blocks, get_start_block_index}

-- `Search` tells entries apart by this test alone.
abbrev pub is_free : ℕ → Bool
is_free e = get_entry_type e == entry_free

-- The number of free entries at the front.
unfoldable pub free_prefix : List ℕ → ℕ
free_prefix [] = 0
free_prefix (e ∷ es) = if is_free e then suc (free_prefix es) else 0

-- The number of free entries from index `i` on, up to a taken one.
abbrev pub run_at : List ℕ → ℕ → ℕ
run_at es i = free_prefix (drop i es)

-- What the loop knows at index `i`, with `es` still to be read: the free run that it is in started
-- at `b`, and no run that started earlier is long enough.
record Scanning (all es : List ℕ) (i b bc n : ℕ) : Type 0 where
  counted : b + bc ≡ i
  short : bc < n
  left : drop i all ≡ es
  size : i + length es ≡ length all
  earlier : (j : ℕ) → j < b → (run_at all j < n) × (run_at all j + j < b)
  current : (j : ℕ) → b ≤ j → j < i → run_at all j ≡ i - j + free_prefix es

abbrev start : ℕ → ℕ → Option ℕ
start b zero = none
start b (suc bc) = some b

drop-suc : (i e : ℕ) (all es : List ℕ) → drop i all ≡ e ∷ es → drop (suc i) all ≡ es
drop-suc zero e [] es h = cc
drop-suc zero e (x ∷ all) es h = cc
drop-suc (suc i) e [] es h = cc
drop-suc (suc i) e (x ∷ all) es h = drop-suc i e all es h

module _ (all es : List ℕ) (e i b bc n : ℕ) (s : Scanning all (e ∷ es) i b bc n) where
  here : run_at all i ≡ free_prefix (e ∷ es)
  here = ap free_prefix s.left

  next_left : drop (i + 1) all ≡ es
  next_left = rw add-one (drop-suc i e all es s.left)

  -- Every run from `j ≤ i` on ends before the taken entry at `i`.
  skip_earlier :
      is_free e ≡ false → (j : ℕ) → j < i + 1 → (run_at all j < n) × (run_at all j + j < i + 1)
  unfolding free_prefix
  skip_earlier taken j h = elim (ℕ_discrete j i) [
    | yes p ↦ rw p (rw here (rw taken (omega (arith, s.short))))
    | no p ↦ elim (dec_lt j b) [
      | yes q ↦ omega (arith, s.earlier j q, s.counted)
      | no q ↦ ground (arith, s.current j, s.counted, s.short)
    ]
  ]

  skip-Scanning : is_free e ≡ false → Scanning all es (i + 1) (i + 1) 0 n
  skip-Scanning taken = record {
    counted = omega arith;
    short = omega (arith, s.short);
    left = next_left;
    size = omega (arith, s.size);
    earlier = skip_earlier taken;
    current = λ j h k. absurd (omega arith);
  }

  go_on_current :
      is_free e ≡ true → (j : ℕ) → b ≤ j → j < i + 1 → run_at all j ≡ i + 1 - j + free_prefix es
  unfolding free_prefix
  go_on_current free j h k = elim (ℕ_discrete j i) [
    | yes p ↦ rw p (rw here (rw free (omega arith)))
    | no p ↦ ground (arith, s.current j)
  ]

  go_on-Scanning : is_free e ≡ true → bc + 1 ≢ n → Scanning all es (i + 1) b (bc + 1) n
  go_on-Scanning free more = record {
    counted = omega (arith, s.counted);
    short = omega (arith, s.short);
    left = next_left;
    size = omega (arith, s.size);
    earlier = s.earlier;
    current = go_on_current free;
  }

-- The first run of at least `n` free blocks starts at `s`.
pub record FirstFit (all : List ℕ) (n s : ℕ) : Type 0 where
  pub fits : n ≤ run_at all s
  pub first : (j : ℕ) → j < s → run_at all j < n

-- No `n` free blocks lie side by side.
abbrev pub Exhausted : List ℕ → ℕ → Type 0
Exhausted all n = (j : ℕ) → run_at all j < n

-- What the search returns: the first fit, the first index of the run at the end of the table, or
-- nothing if no run reaches the end.
abbrev pub Outcome : List ℕ → ℕ → Option ℕ → Type 0
Outcome all n none = Exhausted all n × ((j : ℕ) → j < length all → run_at all j + j < length all)
Outcome all n (some s) =
    FirstFit all n s
    ⊎ Exhausted all n
      × (s < length all)
      × (s + run_at all s ≡ length all)
      × ((j : ℕ) → j < s → run_at all j + j < length all)

pub run_at_beyond : (all : List ℕ) (j : ℕ) → length all ≤ j → run_at all j ≡ 0
unfolding free_prefix
run_at_beyond [] zero h = refl
run_at_beyond [] (suc j) h = refl
run_at_beyond (x ∷ all) zero h = absurd (omega arith)
run_at_beyond (x ∷ all) (suc j) h = run_at_beyond all j (omega arith)

module _ (all : List ℕ) (i b bc n : ℕ) (s : Scanning all [] i b bc n) where
  end_Exhausted : Exhausted all n
  unfolding free_prefix
  end_Exhausted j = elim (dec_lt j b) [
    | yes p ↦ (s.earlier j p).0
    | no p ↦ elim (dec_lt j i) [
      | yes q ↦ omega (arith, s.current j (omega arith) q, s.counted, s.short)
      | no q ↦ omega (arith, run_at_beyond all j (omega (arith, s.size)), s.short)
    ]
  ]

end_Outcome : (all : List ℕ) (i b bc n : ℕ) → Scanning all [] i b bc n → Outcome all n (start b bc)
unfolding free_prefix
end_Outcome all i b zero n s = (
  end_Exhausted all i b zero n s,
  λ j h. omega (arith, s.earlier j (omega (arith, s.size, s.counted)), s.size, s.counted),
)
end_Outcome all i b (suc bc) n s = inr (
  end_Exhausted all i b (suc bc) n s,
  omega (arith, s.size, s.counted),
  omega (arith, s.size, s.counted, s.current b (omega arith) (omega (arith, s.counted))),
  λ j h. omega (arith, s.earlier j h, s.size, s.counted),
)

found-FirstFit :
    (all es : List ℕ) (e i b bc n : ℕ)
    → Scanning all (e ∷ es) i b bc n
    → is_free e ≡ true
    → bc + 1 ≡ n
    → FirstFit all n b
unfolding free_prefix
found-FirstFit all es e i b bc n s free done = record {
  fits = omega (
    arith,
    go_on_current all es e i b bc n s free b (omega arith) (omega (arith, s.counted)),
    s.counted,
  );
  first = λ j h. (s.earlier j h).0;
}

next_start :
    (bs : Option ℕ) (i b bc : ℕ)
    → bs ≡ start b bc
    → b + bc ≡ i
    → (elim bs [ none ↦ some i | some b' ↦ some b' ]) ≡ some b
next_start bs i b zero h e = rw h (let e' : i ≡ b = omega arith in ap some e')
next_start bs i b (suc bc) h e = rw h

start-suc : (b bc : ℕ) → some b ≡ start b (bc + 1)
start-suc b bc = rw add-one

scan_blocks-Outcome :
    (all es : List ℕ) (i b bc n : ℕ) (bs : Option ℕ)
    → bs ≡ start b bc
    → Scanning all es i b bc n
    → Outcome all n (scan_blocks es i bs bc n)
unfolding scan_blocks
scan_blocks-Outcome all [] i b bc n bs h s = rw h (end_Outcome all i b bc n s)
scan_blocks-Outcome all (e ∷ es) i b bc n bs h s = elim (Bool-cases (is_free e)) [
  | inr taken ↦ rw taken (
      scan_blocks-Outcome all es (i + 1) (i + 1) 0 n none refl
        (skip-Scanning all es e i b bc n s taken))
  | inl free ↦
      rw (free, next_start bs i b bc h s.counted)
        (elim (Bool-cases (bc + 1 == n)) [
          | inl done ↦
              rw done (inl (found-FirstFit all es e i b bc n s free ((==_iff (bc + 1) n).0 done)))
          | inr more ↦ rw more (
              scan_blocks-Outcome all es (i + 1) b (bc + 1) n (some b) (start-suc b bc)
                (go_on-Scanning all es e i b bc n s free (ground arith)))
        ])
]

-- A descriptor whose table is an array of as many entries as it says.
pub record IsValid (heap : HeapDesc) : Type 0 where
  pub sized : heap.table.total_entries ≡ length heap.table.entries

take-length : (es : List ℕ) → take (length es) es ≡ es
take-length [] = refl
take-length (e ∷ es) = ap (λ t. e ∷ t) (take-length es)

pub whole :
    (heap : HeapDesc)
    → IsValid heap
    → take heap.table.total_entries heap.table.entries ≡ heap.table.entries
whole heap v = rw v.sized (take-length heap.table.entries)

-- `Outcome` of a search that reports a failure as -ENOMEM.
abbrev pub Located : List ℕ → ℕ → Result ℕ → Type 0
Located all n (ok s) = Outcome all n (some s)
Located all n (err e) = (e ≡ enomem) × Outcome all n none

Located-Outcome :
    (all : List ℕ) (n : ℕ) (o : Option ℕ)
    → Outcome all n o
    → Located all n (elim o [ none ↦ err enomem | some bs ↦ ok bs ])
Located-Outcome all n none h = (refl, h)
Located-Outcome all n (some s) h = h

fresh-Scanning : (all : List ℕ) (n : ℕ) → 0 < n → Scanning all all 0 0 0 n
fresh-Scanning all n h = record {
  counted = omega arith;
  short = h;
  left = refl;
  size = omega arith;
  earlier = λ j k. absurd (omega arith);
  current = λ j h k. absurd (omega arith);
}

-- With a valid table and at least one block asked for, heap_get_start_block_index returns the
-- first run of that many free blocks; or, if there is none, the first index from which all blocks
-- up to the end of the table are free; or -ENOMEM if there is none and the table does not end in
-- a free block.
pub get_start_block_index-Located :
    (heap : HeapDesc) (n : ℕ)
    → IsValid heap
    → 0 < n
    → Located heap.table.entries n (get_start_block_index heap n)
unfolding get_start_block_index
get_start_block_index-Located heap n v h =
    rw (whole heap v, get_start_block_index)
      (Located-Outcome heap.table.entries n _ (
        scan_blocks-Outcome heap.table.entries heap.table.entries 0 0 0 n none refl
          (fresh-Scanning heap.table.entries n h)))
