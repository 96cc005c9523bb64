-- ===== src/Heap/Pages.antt =====
-- A heap whose taken blocks all stand in front, as long as nothing is freed.
use conifer_os.Common.{
  ℕ, zero, suc, ◌+◌, ◌*◌, ◌-◌, ◌^◌, ◌≤◌, ◌<◌, ◌≡◌, refl, ap, sym, ◌∙◌, some, List, [], ◌∷◌, ◌++◌,
  arith, length, length-append,
}
use mathlib.Core.Path.{subst, ap₂}
use conifer_os.Heap.{HeapDesc, heap_block_size, malloc, get_entry_type}
use conifer_os.Heap.Search.{run_at, free_prefix}
use conifer_os.Heap.Blocks.{
  Seg, gap, used, gaps, used_entries, encode, drop-append, length-tail_entries,
}
use conifer_os.Heap.Alloc.{Holds, blocks, before_alloc, after_alloc}
use conifer_os.Heap.Malloc.{allocated, malloc-Allocated}

-- Allocations, of one block more than each number says, and `m` free blocks.
abbrev rows : List ℕ → ℕ → List Seg
rows [] m = gaps m
rows (u ∷ us) m = used u ∷ rows us m

abbrev total : List ℕ → ℕ
total [] = 0
total (u ∷ us) = suc u + total us

-- The first `n` blocks are taken and the `m` behind them free.
pub record Front (heap : HeapDesc) (n m : ℕ) : Type 0 where
  pub sizes : List ℕ
  pub holds : Holds heap (rows sizes m)
  pub count : total sizes ≡ n

pub Front-cast :
    (heap : HeapDesc) (n n' m m' : ℕ) → n ≡ n' → m ≡ m' → Front heap n m → Front heap n' m'
Front-cast heap n n' m m' e f h = subst (λ x. Front heap x m') e (subst (λ x. Front heap n x) f h)

used_blocks : (u : ℕ) (a : List Seg) → blocks (used u ∷ a) ≡ suc u + blocks a
unfolding encode
used_blocks u a =
    omega (arith, length-append {0} (used_entries u) (encode a), length-tail_entries u)

blocks_pos : (g : Seg) (a : List Seg) → 0 < blocks (g ∷ a)
unfolding encode
blocks_pos gap a = omega arith
blocks_pos (used n) a = omega arith

blocks-rows : (us : List ℕ) (m : ℕ) → blocks (rows us m) ≡ total us + m
unfolding encode
blocks-rows [] zero = refl
blocks-rows [] (suc m) = omega (arith, blocks-rows [] m)
blocks-rows (u ∷ us) m = omega (arith, used_blocks u (rows us m), blocks-rows us m)

-- The blocks end at 2 ^ 32 or below.
pub Front-below :
    (heap : HeapDesc) (n m : ℕ)
    → Front heap n m
    → heap.start_addr + (n + m) * heap_block_size ≤ 2 ^ 32
Front-below heap n m h =
    let size = ap length h.holds.encoded ∙ blocks-rows h.sizes m in
    omega (arith, h.holds.below, size, h.count)

run_behind :
    (u j : ℕ) (ss : List Seg) → run_at (encode (used u ∷ ss)) (suc u + j) ≡ run_at (encode ss) j
unfolding encode
run_behind u j ss =
    ap free_prefix (
      drop-append (used_entries u) (encode ss) (suc u + j) j (omega (arith, length-tail_entries u)))

prefix_gaps : (c n : ℕ) → c ≤ n → c ≤ free_prefix (encode (gaps n))
unfolding encode free_prefix get_entry_type
prefix_gaps zero n h = omega arith
prefix_gaps (suc c) zero h = absurd (omega (arith, h))
prefix_gaps (suc c) (suc n) h = omega (arith, prefix_gaps c n (omega (arith, h)))

-- The free blocks behind the others.
run_at-rows : (us : List ℕ) (c n : ℕ) → c ≤ n → c ≤ run_at (encode (rows us n)) (total us)
run_at-rows [] c n h = prefix_gaps c n h
run_at-rows (u ∷ us) c n h =
    omega (arith, run_behind u (total us) (rows us n), run_at-rows us c n h)

-- Where a row of this kind is split at free blocks with too few free ones before them.
first : Seg → List Seg → Seg
first d [] = d
first d (g ∷ ss) = g

others : List Seg → List Seg
others [] = []
others (g ∷ ss) = ss

gaps_rest : (c n : ℕ) (b : List Seg) → gaps n ≡ gaps c ++ b → b ≡ gaps (n - c)
unfolding others
gaps_rest zero n b e = let z : n ≡ n - 0 = omega arith in sym e ∙ ap gaps z
gaps_rest (suc c) zero b e = cc
gaps_rest (suc c) (suc n) b e =
    let z : n - c ≡ suc n - suc c = omega arith in gaps_rest c n b (ap others e) ∙ ap gaps z

split_rows :
    (us : List ℕ) (c n : ℕ) (a b : List Seg)
    → suc c ≤ n
    → rows us n ≡ before_alloc a b c
    → ((j : ℕ) → j < blocks a → run_at (encode (rows us n)) j < suc c)
    → (blocks a ≡ total us) × (after_alloc a b c ≡ rows (us ++ (c ∷ [])) (n - suc c))
unfolding first others encode
split_rows [] c n [] b h e f = (refl, ap (λ ss. used c ∷ ss) (gaps_rest (suc c) n b e))
split_rows [] c n (g ∷ a) b h e f =
    absurd (omega (arith, h, f 0 (blocks_pos g a), prefix_gaps (suc c) n h))
split_rows (u ∷ us) c n [] b h e f = cc
split_rows (u ∷ us) c n (g ∷ a) b h e f =
    let head : used u ≡ g = ap (first gap) e in
    let size = used_blocks u a in
    let (k, rest) = split_rows us c n a b h (ap others e) (λ j l.
      let before : suc u + j < blocks (used u ∷ a) = omega (arith, l, size) in
      omega (
        arith,
        run_behind u j (rows us n),
        f (suc u + j) (subst (λ x. suc u + j < blocks (x ∷ a)) head before),
      )) in
    (
      subst (λ x. blocks (x ∷ a) ≡ suc u + total us) head (omega (arith, size, k)),
      ap₂ (λ x ss. x ∷ ss) (sym head) rest,
    )

total-append : (us : List ℕ) (c : ℕ) → total (us ++ (c ∷ [])) ≡ total us + suc c
total-append [] c = omega arith
total-append (u ∷ us) c = omega (arith, total-append us c)

-- An allocation takes the first free blocks.
pub malloc-Front :
    (heap : HeapDesc) (n m c size : ℕ)
    → Front heap n m
    → suc c ≤ m
    → c * heap_block_size < size
    → size ≤ suc c * heap_block_size
    → size ≤ 2 ^ 32 - heap_block_size
    → (heap' : HeapDesc) × (malloc heap size
        ≡ some (some (heap.start_addr + n * heap_block_size), heap'))
      × Front heap' (n + suc c) (m - suc c)
      × (heap'.start_addr ≡ heap.start_addr)
malloc-Front heap n m c size h room over enough small =
    let us = h.sizes in
    let a =
      malloc-Allocated heap (rows us m) size c (total us) h.holds small over enough
        (run_at-rows us (suc c) m room) in
    let (at, rest) = split_rows us c m a.before a.after room a.room a.earliest in
    let heap' = allocated heap a.before a.after c in
    (
      heap',
      a.result
          ∙ ap (λ k. some (some (heap.start_addr + k * heap_block_size), heap')) (at ∙ h.count),
      record {
        sizes = us ++ (c ∷ []);
        holds = subst (Holds heap') rest a.holds;
        count = omega (arith, total-append us c, h.count);
      },
      refl,
    )
