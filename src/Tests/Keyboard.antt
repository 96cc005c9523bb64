-- ===== src/Tests/Keyboard.antt =====
-- src/keyboard at an empty buffer.
use conifer_os.Common.{
  ℕ, zero, suc, ◌%◌, ◌+◌, ◌≡◌, refl, arith, some, List, [], ◌∷◌, length-replicate, replicate,
  get_or,
}
use conifer_os.Keyboard.{KeyboardBuffer, buffer_size}
use conifer_os.Keyboard.Queue.{IsQueue}
use conifer_os.Keyboard.Run.{Op, press, read, run, run_queue, run_refines}

abbrev empty : KeyboardBuffer
empty = record { buffer = replicate buffer_size 0; head = 0; tail = 0 }

abbrev no_keys : List ℕ
no_keys = []

-- `n` times 0.
abbrev zeros : ℕ → List ℕ
zeros n = replicate n 0

get_or-replicate : (n i : ℕ) → get_or (zeros n) i 0 ≡ get_or no_keys i 0
get_or-replicate zero i = refl
get_or-replicate (suc n) zero = refl
get_or-replicate (suc n) (suc i) = get_or-replicate n i

empty-IsQueue : IsQueue empty []
empty-IsQueue = record {
  sized = length-replicate {A = ℕ} buffer_size 0;
  head_in = omega arith;
  fits = omega arith;
  tail_at = refl;
  keys = tt;
  holds = λ i h. get_or-replicate buffer_size ((0 + i) % buffer_size);
}

abbrev ops : List Op
ops = press 65 ∷ read ∷ press 66 ∷ press 0 ∷ press 67 ∷ read ∷ read ∷ read ∷ []

queue_answer : run_queue [] ops ≡ some (65 ∷ 66 ∷ 67 ∷ 0 ∷ [])
unfolding run_queue
queue_answer = refl

run_refines_example : run (some empty) ops ≡ some (65 ∷ 66 ∷ 67 ∷ 0 ∷ [])
run_refines_example = run_refines ops empty [] (65 ∷ 66 ∷ 67 ∷ 0 ∷ []) empty-IsQueue queue_answer
