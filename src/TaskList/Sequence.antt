-- ===== src/TaskList/Sequence.antt =====
-- src/task/task.c: the sequence of tasks that the list stands for.
use mathlib.Core.Path.{subst}
use conifer_os.Common.{
  ℕ, ◌≡◌, ◌≢◌, ◌∙◌, refl, sym, List, [], ◌∷◌, eq→==, ne→==, if◌then◌else◌, Bool, true, false,
}
use conifer_os.CString.Length.{All}
use conifer_os.TaskList.{TaskList, update}

-- From `p` the pointers `next` lead through the tasks to the null pointer.
abbrev pub Nexts : (ℕ → ℕ) → ℕ → List ℕ → Type 0
Nexts next p [] = p ≡ 0
Nexts next p (t ∷ ts) = (p ≡ t) × ((t ≢ 0) × Nexts next (next t) ts)

-- The pointers `prev` lead back from `tail` through the tasks to `q`.
abbrev pub Prevs : (ℕ → ℕ) → ℕ → List ℕ → ℕ → Type 0
Prevs prev q [] tail = tail ≡ q
Prevs prev q (t ∷ ts) tail = (prev t ≡ q) × Prevs prev t ts tail

-- No task stands in the sequence twice.
abbrev pub Distinct : List ℕ → Type 0
Distinct [] = Unit
Distinct (t ∷ ts) = All (λ u. t ≢ u) ts × Distinct ts

-- The list stands for the sequence.
abbrev pub IsSequence : TaskList → List ℕ → Type 0
IsSequence s ts =
    Nexts s.next s.task_list_head ts × (Prevs s.prev 0 ts s.task_list_tail × Distinct ts)

pub update-same : (field : ℕ → ℕ) (task v : ℕ) → update field task v task ≡ v
unfolding update
update-same field task v = rw (eq→== task task refl) refl

pub update-other : (field : ℕ → ℕ) (task v a : ℕ) → a ≢ task → update field task v a ≡ field a
unfolding update
update-other field task v a h = rw (ne→== a task h) refl

-- The tail is one of the tasks, if there are any.
pub tail-All :
    (P : ℕ → Type 0) (prev : ℕ → ℕ) (q tail : ℕ) (t : ℕ) (ts : List ℕ)
    → Prevs prev q (t ∷ ts) tail
    → All P (t ∷ ts)
    → P tail
tail-All P prev q tail t [] (e, f) (h, hs) = subst P (sym f) h
tail-All P prev q tail t (u ∷ ts) (e, f) (h, hs) = tail-All P prev t tail u ts f hs

-- A change of `next` at tasks outside the sequence.
pub Nexts-update :
    (next : ℕ → ℕ) (task v p : ℕ) (ts : List ℕ)
    → All (λ u. task ≢ u) ts
    → Nexts next p ts
    → Nexts (update next task v) p ts
Nexts-update next task v p [] h n = n
Nexts-update next task v p (t ∷ ts) (h, hs) (e, (z, n)) = (
  e,
  (
    z,
    subst (λ q. Nexts (update next task v) q ts) (sym (update-other next task v t (λ x. h (sym x))))
        (Nexts-update next task v (next t) ts hs n),
  ),
)

-- A change of `prev` at tasks outside the sequence.
pub Prevs-update :
    (prev : ℕ → ℕ) (task v q tail : ℕ) (ts : List ℕ)
    → All (λ u. task ≢ u) ts
    → Prevs prev q ts tail
    → Prevs (update prev task v) q ts tail
Prevs-update prev task v q tail [] h n = n
Prevs-update prev task v q tail (t ∷ ts) (h, hs) (e, n) =
    (update-other prev task v t (λ x. h (sym x)) ∙ e, Prevs-update prev task v t tail ts hs n)

-- The current task does not matter.
pub current-IsSequence :
    (b : Bool) (s : TaskList) (c : ℕ) (ts : List ℕ)
    → IsSequence s ts
    → IsSequence (if b then record s { current_task = c } else s) ts
current-IsSequence true s c ts h = h
current-IsSequence false s c ts h = h
