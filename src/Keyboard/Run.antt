-- ===== src/Keyboard/Run.antt =====
-- Any sequence of key presses and reads of src/keyboard/keyboard.c, against a queue.
use conifer_os.Common.{
  ℕ, ◌≡◌, ◌≢◌, refl, inl, inr, true, false, Option, none, some, List, [], ◌∷◌, ◌++◌, arith, ltb,
  ltb→lt, ◌==◌, Bool-cases, if◌then◌else◌, length, ◌>>=◌,
}
use conifer_os.Keyboard.{KeyboardBuffer, buffer_size, keyboard_push, keyboard_pop}
use conifer_os.Keyboard.Queue.{
  IsQueue, pushed, popped, keyboard_push-IsQueue, keyboard_pop-IsQueue, keyboard_pop-empty,
}

pub data Op : Type 0 where
  press : ℕ → Op
  read : Op

abbrev cons_result : ℕ → Option (List ℕ) → Option (List ℕ)
cons_result c none = none
cons_result c (some cs) = some (c ∷ cs)

-- The characters that the reads return.
unfoldable pub run : Option KeyboardBuffer → List Op → Option (List ℕ)
run k [] = some []
run k (press c ∷ ops) = keyboard_push k c >>= λ r. run r.1 ops
run k (read ∷ ops) = keyboard_pop k >>= λ r. cons_result r.0 (run r.1 ops)

-- What a queue returns: a press of 0 counts for nothing, a read of the empty queue returns 0. `none`
-- if more than 1024 characters wait at some point.
unfoldable pub run_queue : List ℕ → List Op → Option (List ℕ)
run_queue q [] = some []
run_queue q (press c ∷ ops) =
    let ignored = run_queue q ops in
    let kept = run_queue (q ++ (c ∷ [])) ops in
    if c == 0 then ignored else if ltb (length q) buffer_size then kept else none
run_queue [] (read ∷ ops) = cons_result 0 (run_queue [] ops)
run_queue (c ∷ q) (read ∷ ops) = cons_result c (run_queue q ops)

push_ignored :
    (k : KeyboardBuffer) (c : ℕ) → (c == 0) ≡ true → keyboard_push (some k) c ≡ some (false, some k)
unfolding keyboard_push
push_ignored k c z = rw z

none-ne-some : (out : List ℕ) → none ≢ some out
none-ne-some out e = cc

cons_refines :
    (c : ℕ) (a b : Option (List ℕ)) (out : List ℕ)
    → ((o : List ℕ) → a ≡ some o → b ≡ some o)
    → cons_result c a ≡ some out
    → cons_result c b ≡ some out
cons_refines c none b out f e = absurd (none-ne-some out e)
cons_refines c (some o) b out f e = rw (f o refl) e

-- For any sequence of presses and reads during which no more than 1024 characters wait, the reads
-- return what a queue returns and no access leaves the buffer.
pub run_refines :
    (ops : List Op) (k : KeyboardBuffer) (q out : List ℕ)
    → IsQueue k q
    → run_queue q ops ≡ some out
    → run (some k) ops ≡ some out
unfolding run run_queue
run_refines [] k q out h e = e
run_refines (press c ∷ ops) k q out h e = elim (Bool-cases (c == 0)) [
  | inl z ↦ rw (push_ignored k c z) (run_refines ops k q out h (rw z at e))
  | inr nz ↦ elim (Bool-cases (ltb (length q) buffer_size)) [
    | inl room ↦
        let (f, h') = keyboard_push-IsQueue k q c h (ground arith) (ltb→lt _ _ room) in
        rw f (run_refines ops (pushed k c) (q ++ (c ∷ [])) out h' (rw (nz, room) at e))
    | inr full ↦ absurd (none-ne-some out (rw (nz, full) at e))
  ]
]
run_refines (read ∷ ops) k [] out h e =
    rw (keyboard_pop-empty k h)
      (cons_refines 0 (run_queue [] ops) (run (some k) ops) out (λ o. run_refines ops k [] o h) e)
run_refines (read ∷ ops) k (c ∷ q) out h e =
    let (f, h') = keyboard_pop-IsQueue k q c h in
    rw f (
      cons_refines c (run_queue q ops) (run (some (popped k)) ops) out
        (λ o. run_refines ops (popped k) q o h') e)
