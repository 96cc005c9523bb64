-- ===== src/TaskList/Append.antt =====
-- src/task/task.c: a new task at the end of the list.
use mathlib.Core.Path.{subst}
use conifer_os.Common.{ℕ, ◌≡◌, ◌≢◌, ◌∙◌, refl, sym, List, [], ◌∷◌, ◌++◌, eq→==, ne→==}
use conifer_os.CString.Length.{All}
use conifer_os.TaskList.{TaskList, update, task_list_append}
use conifer_os.TaskList.Sequence.{
  Nexts, Prevs, Distinct, IsSequence, update-same, update-other, tail-All,
}

Prevs-snoc :
    (prev : ℕ → ℕ) (q tail task : ℕ) (ts : List ℕ)
    → All (λ u. task ≢ u) ts
    → Prevs prev q ts tail
    → Prevs (update prev task tail) q (ts ++ (task ∷ [])) task
Prevs-snoc prev q tail task [] h e = (update-same prev task tail ∙ e, refl)
Prevs-snoc prev q tail task (t ∷ ts) (h, hs) (e, n) =
    (update-other prev task tail t (λ x. h (sym x)) ∙ e, Prevs-snoc prev t tail task ts hs n)

Distinct-snoc :
    (task : ℕ) (ts : List ℕ) → All (λ u. task ≢ u) ts → Distinct ts → Distinct (ts ++ (task ∷ []))
Distinct-snoc task [] h d = (tt, tt)
Distinct-snoc task (t ∷ ts) (h, hs) (d, ds) =
    (apart t ts (λ x. h (sym x)) d, Distinct-snoc task ts hs ds)
  where
    apart :
        (t : ℕ) (ts : List ℕ)
        → t ≢ task
        → All (λ u. t ≢ u) ts
        → All (λ u. t ≢ u) (ts ++ (task ∷ []))
    apart t [] h d = (h, tt)
    apart t (u ∷ ts) h (d, ds) = (d, apart t ts h ds)

Nexts-snoc :
    (next prev : ℕ → ℕ) (p q tail task t : ℕ) (ts : List ℕ)
    → task ≢ 0
    → All (λ u. task ≢ u) (t ∷ ts)
    → Distinct (t ∷ ts)
    → Prevs prev q (t ∷ ts) tail
    → Nexts next p (t ∷ ts)
    → Nexts (update (update next tail task) task 0) p (t ∷ (ts ++ (task ∷ [])))
Nexts-snoc next prev p q tail task t [] z (h, hs) d (b, b') (e, (n, k)) = (
  e,
  (
    n,
    (
      update-other _ task 0 t (λ x. h (sym x))
          ∙ (subst (λ a. update next a task t ≡ task) (sym b') (update-same next t task)),
      (z, update-same _ task 0),
    ),
  ),
)
Nexts-snoc next prev p q tail task t (u ∷ ts) z (h, hs) (d, ds) (b, b') (e, (n, k)) =
    let apart : t ≢ tail = tail-All (λ a. t ≢ a) prev t tail u ts b' d in
    let same : update (update next tail task) task 0 t ≡ next t =
      update-other _ task 0 t (λ x. h (sym x)) ∙ update-other next tail task t apart in
    (
      e,
      (
        n,
        subst (λ a. Nexts (update (update next tail task) task 0) a (u ∷ (ts ++ (task ∷ []))))
            (sym same) (Nexts-snoc next prev (next t) t tail task u ts z hs ds b' k),
      ),
    )

first_task :
    (s : TaskList) (task : ℕ)
    → s.task_list_head ≡ 0
    → task_list_append s task
      ≡ record s { task_list_head = task; task_list_tail = task; current_task = task }
unfolding task_list_append
first_task s task h = rw (eq→== s.task_list_head 0 h) refl

next_task :
    (s : TaskList) (task : ℕ)
    → s.task_list_head ≢ 0
    → task_list_append s task ≡ record s {
      next = update (update s.next s.task_list_tail task) task 0;
      prev = update s.prev task s.task_list_tail;
      task_list_tail = task;
    }
unfolding task_list_append
next_task s task h = rw (ne→== s.task_list_head 0 h) refl

-- Where the list stands for a sequence of tasks, the last part of task_new for a zeroed task that
-- is not among them leaves a list that stands for the sequence with the task at its end.
pub task_list_append-IsSequence :
    (s : TaskList) (ts : List ℕ) (task : ℕ)
    → IsSequence s ts
    → task ≢ 0
    → s.next task ≡ 0
    → s.prev task ≡ 0
    → All (λ u. task ≢ u) ts
    → IsSequence (task_list_append s task) (ts ++ (task ∷ []))
task_list_append-IsSequence s [] task (n, (b, d)) z x y h =
    subst (λ r. IsSequence r (task ∷ [])) (sym (first_task s task n))
      ((refl, (z, x)), ((y, refl), (tt, tt)))
task_list_append-IsSequence s (t ∷ ts) task (n, (b, d)) z x y h =
    subst (λ r. IsSequence r (t ∷ (ts ++ (task ∷ []))))
      (sym (next_task s task (λ e. n.1.0 (sym n.0 ∙ e))))
      (
        Nexts-snoc s.next s.prev s.task_list_head 0 s.task_list_tail task t ts z h d b n,
        (Prevs-snoc s.prev 0 s.task_list_tail task (t ∷ ts) h b, Distinct-snoc task (t ∷ ts) h d),
      )
