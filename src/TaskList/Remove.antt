-- ===== src/TaskList/Remove.antt =====
-- src/task/task.c: removing a task from the list.
use mathlib.Core.Path.{subst}
use conifer_os.Common.{ℕ, ◌≡◌, ◌≢◌, ◌∙◌, refl, sym, List, [], ◌∷◌, ◌++◌, ◌==◌, eq→==, ne→==}
use conifer_os.CString.Length.{All}
use conifer_os.TaskList.{TaskList, update, unlink, task_get_next, task_list_remove}
use conifer_os.TaskList.Sequence.{
  Nexts, Prevs, Distinct, IsSequence, update-same, update-other, tail-All, Prevs-update,
  current-IsSequence,
}

remove-unlink :
    (s : TaskList) (task : ℕ) (ts : List ℕ)
    → IsSequence (unlink s task) ts
    → IsSequence (task_list_remove s task) ts
unfolding task_list_remove
remove-unlink s task ts h =
    current-IsSequence (task == (unlink s task).current_task) (unlink s task)
      (task_get_next (unlink s task)) ts h

unlink-only :
    (s : TaskList) (task : ℕ)
    → task ≡ s.task_list_head
    → task ≡ s.task_list_tail
    → unlink s task ≡ record s { task_list_head = 0; task_list_tail = 0; current_task = 0 }
unfolding unlink
unlink-only s task h k = rw (eq→== task s.task_list_head h, eq→== task s.task_list_tail k) refl

unlink-first :
    (s : TaskList) (task : ℕ)
    → task ≡ s.task_list_head
    → task ≢ s.task_list_tail
    → unlink s task
      ≡ record s { task_list_head = s.next task; prev = update s.prev (s.next task) 0 }
unfolding unlink
unlink-first s task h k = rw (eq→== task s.task_list_head h, ne→== task s.task_list_tail k) refl

pub unlink-last :
    (s : TaskList) (task : ℕ)
    → task ≢ s.task_list_head
    → task ≡ s.task_list_tail
    → unlink s task
      ≡ record s { task_list_tail = s.prev task; next = update s.next (s.prev task) 0 }
unfolding unlink
unlink-last s task h k = rw (ne→== task s.task_list_head h, eq→== task s.task_list_tail k) refl

pub unlink-middle :
    (s : TaskList) (task : ℕ)
    → task ≢ s.task_list_head
    → task ≢ s.task_list_tail
    → unlink s task ≡ record s { next = update s.next (s.prev task) (s.next task) }
unfolding unlink
unlink-middle s task h k = rw (ne→== task s.task_list_head h, ne→== task s.task_list_tail k) refl

-- Where the list stands for a sequence of tasks, task_list_remove of the first leaves a list that
-- stands for the others.
pub task_list_remove-first :
    (s : TaskList) (task : ℕ) (ts : List ℕ)
    → IsSequence s (task ∷ ts)
    → IsSequence (task_list_remove s task) ts
task_list_remove-first s task [] ((e, n), ((b, c), d)) =
    remove-unlink s task []
      (subst (λ r. IsSequence r []) (sym (unlink-only s task (sym e) (sym c))) (refl, (refl, tt)))
task_list_remove-first s task (u ∷ us) ((e, (z, (n, m))), ((b, (c, f)), ((d, ds), (w, ws)))) =
    remove-unlink s task (u ∷ us) (
      subst (λ r. IsSequence r (u ∷ us))
        (sym (
          unlink-first s task (sym e)
            (tail-All (λ a. task ≢ a) s.prev task s.task_list_tail u us (c, f) (d, ds))))
        (
          (n, m),
          (
            (
              subst (λ a. update s.prev a 0 u ≡ 0) (sym n) (update-same s.prev u 0),
              subst (λ a. Prevs (update s.prev a 0) u us s.task_list_tail) (sym n)
                  (Prevs-update s.prev u 0 u s.task_list_tail us w f),
            ),
            (w, ws),
          ),
        ))

pub All-mid :
    (P : ℕ → Type 0) (ts : List ℕ) (u : ℕ) (us : List ℕ) → All P (ts ++ (u ∷ us)) → P u × All P us
All-mid P [] u us (h, hs) = (h, hs)
All-mid P (t ∷ ts) u us (h, hs) = All-mid P ts u us hs

All-init :
    (P : ℕ → Type 0) (ts : List ℕ) (u : ℕ) (us : List ℕ)
    → All P (ts ++ (u ∷ us))
    → All P (ts ++ (u ∷ []))
All-init P [] u us (h, hs) = (h, tt)
All-init P (t ∷ ts) u us (h, hs) = (h, All-init P ts u us hs)

Distinct-init :
    (ts : List ℕ) (u : ℕ) (us : List ℕ) → Distinct (ts ++ (u ∷ us)) → Distinct (ts ++ (u ∷ []))
Distinct-init [] u us d = (tt, tt)
Distinct-init (t ∷ ts) u us (d, ds) = (All-init (λ v. t ≢ v) ts u us d, Distinct-init ts u us ds)

-- The last two tasks, seen from the end.
pub Prevs-end :
    (prev : ℕ → ℕ) (q tail u t : ℕ) (ts : List ℕ)
    → Prevs prev q (ts ++ (u ∷ t ∷ [])) tail
    → (tail ≡ t) × ((prev t ≡ u) × Prevs prev q (ts ++ (u ∷ [])) u)
Prevs-end prev q tail u t [] (b, (c, e)) = (e, (c, (b, refl)))
Prevs-end prev q tail u t (a ∷ ts) (b, r) =
    let (e, (c, p)) = Prevs-end prev a tail u t ts r in (e, (c, (b, p)))

Nexts-init :
    (next : ℕ → ℕ) (p u t : ℕ) (ts : List ℕ)
    → Distinct (ts ++ (u ∷ t ∷ []))
    → Nexts next p (ts ++ (u ∷ t ∷ []))
    → Nexts (update next u 0) p (ts ++ (u ∷ []))
Nexts-init next p u t [] d (e, (z, n)) = (e, (z, update-same next u 0))
Nexts-init next p u t (a ∷ ts) (d, ds) (e, (z, n)) = (
  e,
  (
    z,
    subst (λ q. Nexts (update next u 0) q (ts ++ (u ∷ [])))
        (sym (update-other next u 0 a (All-mid (λ v. a ≢ v) ts u (t ∷ []) d).0))
        (Nexts-init next (next a) u t ts ds n),
  ),
)

head-other :
    (next : ℕ → ℕ) (p u t : ℕ) (ts : List ℕ)
    → Distinct (ts ++ (u ∷ t ∷ []))
    → Nexts next p (ts ++ (u ∷ t ∷ []))
    → t ≢ p
head-other next p u t [] ((d, d'), ds) (e, n) = λ x. d (sym (x ∙ e))
head-other next p u t (a ∷ ts) (d, ds) (e, n) =
    λ x. (All-mid (λ v. a ≢ v) ts u (t ∷ []) d).1.0 (sym (x ∙ e))

-- Where the list stands for a sequence of two or more tasks, task_list_remove of the last leaves
-- a list that stands for the others.
task_list_remove-last :
    (s : TaskList) (ts : List ℕ) (u task : ℕ)
    → IsSequence s (ts ++ (u ∷ task ∷ []))
    → IsSequence (task_list_remove s task) (ts ++ (u ∷ []))
task_list_remove-last s ts u task (n, (b, d)) =
    let (e, (c, p)) = Prevs-end s.prev 0 s.task_list_tail u task ts b in
    remove-unlink s task (ts ++ (u ∷ [])) (
      subst (λ r. IsSequence r (ts ++ (u ∷ [])))
        (sym (unlink-last s task (head-other s.next s.task_list_head u task ts d n) (sym e)))
        (
          subst (λ v. Nexts (update s.next v 0) s.task_list_head (ts ++ (u ∷ []))) (sym c)
              (Nexts-init s.next s.task_list_head u task ts d n),
          (
            subst (λ v. Prevs s.prev 0 (ts ++ (u ∷ [])) v) (sym c) p,
            Distinct-init ts u (task ∷ []) d,
          ),
        ))
