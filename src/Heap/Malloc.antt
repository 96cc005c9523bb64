-- ===== src/Heap/Malloc.antt =====
-- What `heap_malloc_blocks`, `heap_malloc` and `heap_free` promise their callers.
use conifer_os.Common.{
  ℕ, suc, ◌-◌, ◌*◌, ◌/◌, ◌%◌, ◌^◌, ◌≤◌, ◌<◌, ◌≡◌, ◌≢◌, refl, ap, sym, ◌∙◌, inl, inr, Option, some,
  List, arith, Result, ok, err, Bool-cases, ==_iff, ◌==◌,
}
use mathlib.Core.Path.{subst}
use conifer_os.Heap.{
  HeapDesc, heap_block_size, get_start_block_index, malloc_blocks, malloc,
  align_upper_block_boundary, free,
}
use conifer_os.Heap.Search
use conifer_os.Heap.Search.{IsValid, FirstFit, run_at, get_start_block_index-Located}
use conifer_os.Heap.Blocks.{Seg, encode, GapsAt, locate}
use conifer_os.Heap.Alloc.{
  Holds, blocks, address_behind, with_entries, before_alloc, after_alloc, after-Holds,
  malloc_blocks_found, free_used,
}

abbrev pub allocated : HeapDesc → List Seg → List Seg → ℕ → HeapDesc
allocated heap a b n = with_entries heap (encode (after_alloc a b n))

-- An allocation of `suc n` blocks in the row `ss`: it takes the first `suc n` neighbouring free
-- blocks, returns the address of the first, and leaves a heap that holds the row with them taken.
pub record Allocated (heap : HeapDesc) (ss : List Seg) (n : ℕ) (r : Option (Option ℕ × HeapDesc))
    : Type 0 where
  pub before : List Seg
  pub after : List Seg
  pub room : ss ≡ before_alloc before after n
  pub earliest : (j : ℕ) → j < blocks before → run_at (encode ss) j < suc n
  pub result : r ≡ some (some (address_behind heap before), allocated heap before after n)
  pub holds : Holds (allocated heap before after n) (after_alloc before after n)

first_fit :
    (es : List ℕ) (n i : ℕ) (r : Result ℕ)
    → n ≤ run_at es i
    → Search.Located es n r
    → (s : ℕ) × (r ≡ ok s) × FirstFit es n s
first_fit es n i (ok s) fits (inl f) = (s, refl, f)
first_fit es n i (ok s) fits (inr l) = absurd (omega (arith, l.0 i))
first_fit es n i (err e) fits l = absurd (omega (arith, l.1.0 i))

malloc_at :
    (heap : HeapDesc) (ss : List Seg) (n s : ℕ)
    → Holds heap ss
    → get_start_block_index heap (suc n) ≡ ok s
    → FirstFit (encode ss) (suc n) s
    → GapsAt ss s (suc n)
    → Allocated heap ss n (malloc_blocks heap (suc n))
malloc_at heap ss n s h e f g =
    let h' = subst (Holds heap) g.split h in
    record {
      before = g.before;
      after = g.after;
      room = g.split;
      earliest = λ j k. f.first j (omega (arith, g.at));
      result = malloc_blocks_found heap g.before g.after n h' (e ∙ ap ok (sym g.at));
      holds = after-Holds heap g.before g.after n h';
    }

-- On a heap that holds a row of blocks in which n + 1 free blocks lie side by side,
-- heap_malloc_blocks takes the first such, returns the address of the first of them, and leaves a
-- heap that holds the row with exactly these taken as one allocation.
pub malloc_blocks-Allocated :
    (heap : HeapDesc) (ss : List Seg) (n i : ℕ)
    → Holds heap ss
    → suc n ≤ run_at (encode ss) i
    → Allocated heap ss n (malloc_blocks heap (suc n))
malloc_blocks-Allocated heap ss n i h fits =
    let valid : IsValid heap = record { sized = h.sized } in
    let l = get_start_block_index-Located heap (suc n) valid (omega arith) in
    let l' =
      subst (λ es. Search.Located es (suc n) (get_start_block_index heap (suc n))) h.encoded l in
    let (s, e, f) = first_fit (encode ss) (suc n) i _ fits l' in
    malloc_at heap ss n s h e f (locate ss s (suc n) (omega arith) f.fits)

align_lem :
    (size n : ℕ)
    → size ≤ 2 ^ 32 - heap_block_size
    → n * heap_block_size < size
    → size ≤ suc n * heap_block_size
    → align_upper_block_boundary size / heap_block_size ≡ suc n
unfolding align_upper_block_boundary
align_lem size n small over enough = elim (Bool-cases (size % heap_block_size == 0)) [
  | inl exact ↦ rw exact (omega (arith, (==_iff _ _).0 exact))
  | inr rest ↦ rw rest (let r : size % heap_block_size ≢ 0 = ground arith in omega arith)
]

-- On a heap that holds a row of blocks, heap_malloc of a size that takes n blocks and part or all
-- of a further one, and is at most 2 ^ 32 - 4096, allocates n + 1 blocks as heap_malloc_blocks
-- does, if so many free blocks lie side by side.
pub malloc-Allocated :
    (heap : HeapDesc) (ss : List Seg) (size n i : ℕ)
    → Holds heap ss
    → size ≤ 2 ^ 32 - heap_block_size
    → n * heap_block_size < size
    → size ≤ suc n * heap_block_size
    → suc n ≤ run_at (encode ss) i
    → Allocated heap ss n (malloc heap size)
unfolding malloc
malloc-Allocated heap ss size n i h small over enough fits =
    rw (malloc, align_lem size n small over enough) (malloc_blocks-Allocated heap ss n i h fits)

restore :
    (heap : HeapDesc) (ss a b : List Seg) (n : ℕ)
    → Holds heap ss
    → ss ≡ before_alloc a b n
    → Holds (allocated heap a b n) (after_alloc a b n)
    → free (allocated heap a b n) (address_behind heap a) ≡ some heap
restore heap ss a b n h room h' =
    free_used (allocated heap a b n) a b n h'
    ∙ ap (λ es. some (with_entries heap es)) (sym (h.encoded ∙ ap encode room))

-- On a heap that holds a row of blocks in which n + 1 free blocks lie side by side, freeing the
-- address that heap_malloc_blocks returned restores the heap as it was.
pub free-malloc_blocks :
    (heap : HeapDesc) (ss : List Seg) (n i p : ℕ) (heap' : HeapDesc)
    → Holds heap ss
    → suc n ≤ run_at (encode ss) i
    → malloc_blocks heap (suc n) ≡ some (some p, heap')
    → free heap' p ≡ some heap
free-malloc_blocks heap ss n i p heap' h fits e =
    let a = malloc_blocks-Allocated heap ss n i h fits in
    let same : free heap' p
        ≡ free (allocated heap a.before a.after n) (address_behind heap a.before) =
      cc (e, a.result) in
    same ∙ restore heap ss a.before a.after n h a.room a.holds
