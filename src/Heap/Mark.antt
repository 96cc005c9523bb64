-- ===== src/Heap/Mark.antt =====
-- `heap_mark_blocks_taken` and `heap_mark_blocks_free` on the entries of a row of blocks.
use conifer_os.Common.{
  ℕ, zero, suc, ◌+◌, ◌<◌, ◌≡◌, refl, ap, sym, ◌∙◌, true, false, some, List, [], ◌∷◌, ◌++◌,
  append_assoc, arith, bit_and, bit_or, ◌==◌, eq→==, ne→==, lt→ltb, length, replicate, store-append,
  length-snoc, get_elem?-append,
}
use conifer_os.Heap.{
  entry_free, entry_taken, has_next, first_entry, next_entry, mark_taken_loop, mark_free_loop,
}
use conifer_os.Heap.Blocks.{tail_entries}

tail_entries-suc :
    (r i end : ℕ) → i + suc r ≡ end → tail_entries (suc r) ≡ next_entry i end ∷ tail_entries r
unfolding tail_entries next_entry
tail_entries-suc zero i end e = rw (eq→== (i + 1) end (omega arith))
tail_entries-suc (suc r) i end e = rw (ne→== (i + 1) end (omega arith))

mark_taken_step :
    (r end entry : ℕ) (pre : List ℕ) (x : ℕ) (ys : List ℕ)
    → mark_taken_loop (suc r) (length pre) end entry (pre ++ (x ∷ ys))
      ≡ mark_taken_loop r
          (length (pre ++ (entry ∷ [])))
          end
          (next_entry (length pre) end)
          ((pre ++ (entry ∷ [])) ++ ys)
unfolding mark_taken_loop
mark_taken_step r end entry pre x ys = rw (store-append pre x ys entry) (
    ap (λ k. mark_taken_loop r k end (next_entry (length pre) end) ((pre ++ (entry ∷ [])) ++ ys))
      (length-snoc pre entry))

-- The loop puts `entry` and then the tail of an allocation over the entries `old`.
pub mark_taken_loop-append :
    (r end entry : ℕ) (pre old post : List ℕ)
    → length old ≡ suc r
    → length pre + r ≡ end
    → mark_taken_loop (suc r) (length pre) end entry (pre ++ (old ++ post))
      ≡ some (pre ++ ((entry ∷ tail_entries r) ++ post))
unfolding tail_entries
mark_taken_loop-append r end entry pre [] post h e = absurd (omega arith)
mark_taken_loop-append zero end entry pre (x ∷ []) post h e =
    mark_taken_step zero end entry pre x post
    ∙ unfold mark_taken_loop in ap some (append_assoc pre (entry ∷ []) post)
mark_taken_loop-append zero end entry pre (x ∷ y ∷ old) post h e = absurd (omega arith)
mark_taken_loop-append (suc r) end entry pre (x ∷ old) post h e =
    mark_taken_step (suc r) end entry pre x (old ++ post)
    ∙ mark_taken_loop-append r end (next_entry (length pre) end) (pre ++ (entry ∷ [])) old post
        (omega arith) (omega (arith, length-snoc pre entry))
    ∙ ap some (
        append_assoc pre (entry ∷ []) (next_entry (length pre) end ∷ (tail_entries r ++ post))
        ∙ ap (λ t. pre ++ (entry ∷ (t ++ post))) (sym (tail_entries-suc r (length pre) end e)))

module _ (rounds entry : ℕ) (pre ys : List ℕ) where
  mark_free_last :
      (bit_and entry has_next == 0) ≡ true
      → mark_free_loop (suc rounds) (length pre) (pre ++ (entry ∷ ys))
        ≡ some (pre ++ (entry_free ∷ ys))
  unfolding mark_free_loop
  mark_free_last last =
      rw (get_elem?-append pre entry ys, store-append pre entry ys entry_free, last)
        (ap some (append_assoc pre (entry_free ∷ []) ys))

  mark_free_step :
      (bit_and entry has_next == 0) ≡ false
      → mark_free_loop (suc rounds) (length pre) (pre ++ (entry ∷ ys))
        ≡ mark_free_loop rounds
            (length (pre ++ (entry_free ∷ [])))
            ((pre ++ (entry_free ∷ [])) ++ ys)
  unfolding mark_free_loop
  mark_free_step more =
      rw (get_elem?-append pre entry ys, store-append pre entry ys entry_free, more)
        (ap (λ k. mark_free_loop rounds k ((pre ++ (entry_free ∷ [])) ++ ys))
          (length-snoc pre entry_free))

abbrev Continues : ℕ → ℕ → Type 0
Continues entry r = (bit_and entry has_next == 0) ≡ (r == 0)

-- The loop clears an allocation, and stops at its last block.
pub mark_free_loop-append :
    (r rounds entry : ℕ) (pre post : List ℕ)
    → Continues entry r
    → r < rounds
    → mark_free_loop rounds (length pre) (pre ++ ((entry ∷ tail_entries r) ++ post))
      ≡ some (pre ++ (replicate (suc r) entry_free ++ post))
unfolding tail_entries
mark_free_loop-append r zero entry pre post c h = absurd (omega arith)
mark_free_loop-append zero (suc rounds) entry pre post c h = mark_free_last rounds entry pre post c
mark_free_loop-append (suc zero) (suc rounds) entry pre post c h =
    mark_free_step rounds entry pre (entry_taken ∷ post) c
    ∙ mark_free_loop-append zero rounds entry_taken (pre ++ (entry_free ∷ [])) post refl
        (omega arith)
    ∙ ap some (append_assoc pre (entry_free ∷ []) (entry_free ∷ post))
mark_free_loop-append (suc (suc r)) (suc rounds) entry pre post c h =
    mark_free_step rounds entry pre (bit_or entry_taken has_next ∷ (tail_entries (suc r) ++ post))
      (c ∙ ne→== (suc (suc r)) 0 (omega arith))
    ∙ mark_free_loop-append (suc r) rounds (bit_or entry_taken has_next) (pre ++ (entry_free ∷ []))
        post (sym (ne→== (suc r) 0 (omega arith))) (omega arith)
    ∙ ap some (append_assoc pre (entry_free ∷ []) (replicate (suc (suc r)) entry_free ++ post))

-- The entry that `heap_mark_blocks_taken` writes first says whether more blocks follow.
pub first_entry-has_next : (r : ℕ) → Continues (first_entry (suc r)) r
unfolding first_entry
first_entry-has_next zero = refl
first_entry-has_next (suc r) =
    rw (lt→ltb 1 (suc (suc r)) (omega arith)) (sym (ne→== (suc r) 0 (omega arith)))
