-- ===== src/TaskList/Rotation.antt =====
-- src/task/task.c: which task runs next.
use mathlib.Core.Path.{subst}
use conifer_os.Common.{
  ℕ, zero, suc, ◌+◌, ◌≡◌, ◌≢◌, ◌∙◌, refl, ap, sym, arith, List, [], ◌∷◌, ◌++◌, eq→==, ne→==, length,
}
use conifer_os.TaskList.{TaskList, task_get_next, make_current}
use conifer_os.TaskList.Sequence.{Nexts, IsSequence}

-- After `k` switches of the timer.
unfoldable pub switches : ℕ → TaskList → TaskList
switches zero s = s
switches (suc k) s = switches k (make_current s (task_get_next s))

switches-add : (j k : ℕ) (s : TaskList) → switches (j + k) s ≡ switches k (switches j s)
unfolding switches
switches-add zero k s = let e : 0 + k ≡ k = omega arith in ap (λ n. switches n s) e
switches-add (suc j) k s =
    let e : suc j + k ≡ suc (j + k) = omega arith in
    ap (λ n. switches n s) e ∙ switches-add j k (make_current s (task_get_next s))

switches-head : (k : ℕ) (s : TaskList) → (switches k s).task_list_head ≡ s.task_list_head
unfolding switches make_current
switches-head zero s = refl
switches-head (suc k) s = switches-head k (make_current s (task_get_next s))

switches-next : (k : ℕ) (s : TaskList) → (switches k s).next ≡ s.next
unfolding switches make_current
switches-next zero s = refl
switches-next (suc k) s = switches-next k (make_current s (task_get_next s))

next-null : (s : TaskList) → s.next s.current_task ≡ 0 → task_get_next s ≡ s.task_list_head
unfolding task_get_next
next-null s h = rw (eq→== (s.next s.current_task) 0 h) refl

next-some : (s : TaskList) → s.next s.current_task ≢ 0 → task_get_next s ≡ s.next s.current_task
unfolding task_get_next
next-some s h = rw (ne→== (s.next s.current_task) 0 h) refl

-- From the current task on to a later one.
walk_to :
    (s : TaskList) (p : ℕ) (ts : List ℕ) (c : ℕ) (us : List ℕ)
    → s.current_task ≡ p
    → Nexts s.next p (ts ++ (c ∷ us))
    → (switches (length ts) s).current_task ≡ c
unfolding switches make_current
walk_to s p [] c us h (e, n) = h ∙ e
walk_to s p (a ∷ ts) c us h (e, (z, n)) =
    let here : s.next s.current_task ≡ s.next a = ap s.next (h ∙ e) in
    let g = next-some s (λ x. later s.next (s.next a) ts n (sym here ∙ x)) in
    walk_to (make_current s (task_get_next s)) (s.next a) ts c us (g ∙ here) n
  where
    later : (next : ℕ → ℕ) (q : ℕ) (ts : List ℕ) → Nexts next q (ts ++ (c ∷ us)) → q ≢ 0
    later next q [] (e, (z, n)) = λ x. z (sym e ∙ x)
    later next q (t ∷ ts) (e, (z, n)) = λ x. z (sym e ∙ x)

-- From the current task past the end, to the head.
wrap_around :
    (s : TaskList) (p a : ℕ) (ts : List ℕ)
    → s.current_task ≡ p
    → Nexts s.next p (a ∷ ts)
    → (switches (suc (length ts)) s).current_task ≡ s.task_list_head
unfolding switches make_current
wrap_around s p a [] h (e, (z, n)) = next-null s (ap s.next (h ∙ e) ∙ n)
wrap_around s p a (b ∷ ts) h (e, (z, (f, (y, n)))) =
    let here : s.next s.current_task ≡ s.next a = ap s.next (h ∙ e) in
    let g = next-some s (λ x. y (sym f ∙ sym here ∙ x)) in
    wrap_around (make_current s (task_get_next s)) (s.next a) b ts (g ∙ here) (f, (y, n))

-- What follows a task of the sequence.
Nexts-suffix :
    (next : ℕ → ℕ) (p : ℕ) (ts : List ℕ) (a : ℕ) (us : List ℕ)
    → Nexts next p (ts ++ (a ∷ us))
    → Nexts next a (a ∷ us)
Nexts-suffix next p [] a us (e, n) = (refl, n)
Nexts-suffix next p (t ∷ ts) a us (e, (z, n)) = Nexts-suffix next (next t) ts a us n

-- Where the list stands for a sequence of tasks one of which is the current task, executing the
-- result of task_get_next again and again makes every task of the sequence the current one, after
-- as many times as there are tasks behind the current one, one more, and those before the task.
pub switches-reach :
    (s : TaskList) (ts us xs ys : List ℕ) (a c : ℕ)
    → IsSequence s (ts ++ (a ∷ us))
    → ts ++ (a ∷ us) ≡ xs ++ (c ∷ ys)
    → s.current_task ≡ a
    → (switches (suc (length us) + length xs) s).current_task ≡ c
switches-reach s ts us xs ys a c (n, _) same h =
    let s1 = switches (suc (length us)) s in
    let at_head : s1.current_task ≡ s1.task_list_head =
      wrap_around s a a us h (Nexts-suffix s.next s.task_list_head ts a us n)
      ∙ sym (switches-head (suc (length us)) s) in
    let n1 : Nexts s1.next s1.task_list_head (xs ++ (c ∷ ys)) =
      subst (λ f. Nexts f s1.task_list_head (xs ++ (c ∷ ys)))
        (sym (switches-next (suc (length us)) s))
        (subst (λ q. Nexts s.next q (xs ++ (c ∷ ys))) (sym (switches-head (suc (length us)) s))
          (subst (λ l. Nexts s.next s.task_list_head l) same n)) in
    ap (λ (r : TaskList). r.current_task) (switches-add (suc (length us)) (length xs) s)
    ∙ walk_to s1 s1.task_list_head xs c ys at_head n1
