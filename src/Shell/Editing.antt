-- ===== src/Shell/Editing.antt =====
-- What `coniferos_terminal_readline` leaves of the keys, backspaces included.
use conifer_os.Common.{
  ℕ, zero, suc, ◌+◌, ◌-◌, ◌%◌, ◌^◌, ◌≤◌, ◌<◌, ◌≡◌, ◌≢◌, refl, ap, ◌∙◌, arith, Bool, true, false,
  ◌&&◌, some, List, [], ◌∷◌, ◌++◌, leb, ◌==◌, if◌then◌else◌, length, length-append, append_assoc,
  store-append, store, ne→==, eq→==, lt→ltb,
}
use mathlib.Core.Path.{subst}
use native.Mathlib.Decide.{ℕ_discrete}
use conifer_os.CString.Length.{All}
use conifer_os.Shell.{end_line, type_key, readline_loop, coniferos_terminal_readline}

-- A key on the characters before it, the last of which is the first of the list: a backspace takes one
-- away if there is one, and 0 is no key.
abbrev pub edit : List ℕ → ℕ → List ℕ
edit [] key = if key == 0 then [] else key % 2 ^ 8 ∷ []
edit (c ∷ l) key = if key == 0 then c ∷ l else if key % 2 ^ 8 == 8 then l else key % 2 ^ 8 ∷ c ∷ l

abbrev pub edit_all : List ℕ → List ℕ → List ℕ
edit_all l [] = l
edit_all l (key ∷ keys) = edit_all (edit l key) keys

-- From the first character to the last.
abbrev pub in_order : List ℕ → List ℕ
in_order [] = []
in_order (c ∷ l) = in_order l ++ (c ∷ [])

-- The line that is typed with the keys.
abbrev pub typed : List ℕ → List ℕ
typed keys = in_order (edit_all [] keys)

-- What appears on the screen.
abbrev pub shown : ℕ → List ℕ
shown key = if key == 0 then [] else key % 2 ^ 8 ∷ []

abbrev pub echoed : List ℕ → List ℕ
echoed [] = []
echoed (key ∷ keys) = shown key ++ echoed keys

-- No carriage return.
abbrev pub Unended : List ℕ → Type 0
Unended keys = All (λ key. key % 2 ^ 8 ≢ 13) keys

length-in_order : (l : List ℕ) → length (in_order l) ≡ length l
length-in_order [] = refl
length-in_order (c ∷ l) = omega (arith, length-append (in_order l) (c ∷ []), length-in_order l)

store-in_order :
    (l rest : List ℕ) (r v : ℕ)
    → store (in_order l ++ (r ∷ rest)) (length l) v ≡ some (in_order (v ∷ l) ++ rest)
store-in_order l rest r v =
    subst (λ n. store (in_order l ++ (r ∷ rest)) n v ≡ some (in_order (v ∷ l) ++ rest))
      (length-in_order l) (store-append (in_order l) r rest v)

and_false : (b : Bool) → (b && false) ≡ false
and_false true = refl
and_false false = refl

edit_short : (l : List ℕ) (key : ℕ) → length (edit l key) ≤ suc (length l)
edit_short [] key = ground arith
edit_short (c ∷ l) key = ground arith

-- The array begins with the line before the key, and then with the line behind it.
abbrev Pressed : List ℕ → List ℕ → ℕ → Type 0
Pressed l rest key =
    (rest' : List ℕ) × (type_key (in_order l ++ rest) (length l) key
      ≡ some (in_order (edit l key) ++ rest', (length (edit l key), shown key)))
    × (length rest' + length (edit l key) ≡ length rest + length l)

type_key-char :
    (l rest : List ℕ) (r key : ℕ)
    → key ≢ 0
    → ((key % 2 ^ 8 == 8) && leb 1 (length l)) ≡ false
    → edit l key ≡ key % 2 ^ 8 ∷ l
    → Pressed l (r ∷ rest) key
unfolding type_key
type_key-char l rest r key n b e =
    let next : length l + 1 ≡ suc (length l) = omega arith in
    rw (e, ne→== key 0 n, b, store-in_order l rest r (key % 2 ^ 8))
      (
        rest,
        ap (λ i. some (in_order (key % 2 ^ 8 ∷ l) ++ rest, (i, key % 2 ^ 8 ∷ []))) next,
        omega arith,
      )

type_key-backspace :
    (c : ℕ) (l rest : List ℕ) (key : ℕ) → key ≢ 0 → key % 2 ^ 8 ≡ 8 → Pressed (c ∷ l) rest key
unfolding type_key
type_key-backspace c l rest key n b =
    let full : leb 1 (suc (length l)) ≡ true = ground arith in
    let back : suc (length l) - 1 ≡ length l = omega arith in
    let kept : (in_order l ++ (c ∷ [])) ++ rest ≡ in_order l ++ (c ∷ rest) =
      append_assoc (in_order l) (c ∷ []) rest in
    let clear = store-in_order l rest c 0 ∙ ap some (append_assoc (in_order l) (0 ∷ []) rest) in
    rw (ne→== key 0 n, eq→== (key % 2 ^ 8) 8 b, full, back, kept, clear)
      (0 ∷ rest, refl, omega arith)

type_key-Pressed : (l rest : List ℕ) (r key : ℕ) → Pressed l (r ∷ rest) key
unfolding type_key
type_key-Pressed [] rest r zero = (r ∷ rest, refl, refl)
type_key-Pressed (c ∷ l) rest r zero = (r ∷ rest, refl, refl)
type_key-Pressed [] rest r (suc k) =
    let key : suc k ≢ 0 = λ e. omega (arith, e) in
    type_key-char [] rest r (suc k) key (and_false (suc k % 2 ^ 8 == 8))
      (rw (ne→== (suc k) 0 key) refl)
type_key-Pressed (c ∷ l) rest r (suc k) =
    let key : suc k ≢ 0 = λ e. omega (arith, e) in
    elim (ℕ_discrete (suc k % 2 ^ 8) 8) [
      | yes b ↦ type_key-backspace c l (r ∷ rest) (suc k) key b
      | no b ↦
          let other = ne→== (suc k % 2 ^ 8) 8 b in
          type_key-char (c ∷ l) rest r (suc k) key (ap (λ x. x && leb 1 (suc (length l))) other)
            (rw (ne→== (suc k) 0 key, other) refl)
    ]

-- The rest of the keys up to the carriage return.
Ended : List ℕ → List ℕ → List ℕ → ℕ → List ℕ → Type 0
Ended keys q l max out =
    (rest : List ℕ) × (readline_loop (keys ++ (13 ∷ q)) out (length l) max
      ≡ some (in_order (edit_all l keys) ++ (0 ∷ rest), (echoed keys, q)))

readline_loop-Ended :
    (keys q l rest : List ℕ) (max : ℕ)
    → Unended keys
    → length l + length keys < max
    → max ≤ length rest + length l
    → Ended keys q l max (in_order l ++ rest)
unfolding Ended readline_loop end_line
readline_loop-Ended keys q l [] max u fits room = absurd (omega arith)
readline_loop-Ended [] q l (r ∷ rest) max u fits room =
    rw
      (
        lt→ltb (length l) max (omega arith),
        store-in_order l rest r 0,
        append_assoc (in_order l) (0 ∷ []) rest,
      )
      (rest, refl)
readline_loop-Ended (key ∷ keys) q l (r ∷ rest) max u fits room =
    let (rest', step, size) = type_key-Pressed l rest r key in
    let small : length (edit l key) ≤ suc (length l) = edit_short l key in
    let (rest2, more) =
      readline_loop-Ended keys q (edit l key) rest' max u.1 (omega arith) (omega arith) in
    rw (lt→ltb (length l) max (omega arith), ne→== (key % 2 ^ 8) 13 u.0, step, more) (rest2, refl)

-- With an array of max characters or more, fewer keys than max, among them no carriage return, and then
-- a carriage return.
pub coniferos_terminal_readline-typed :
    (keys q out : List ℕ) (max : ℕ)
    → Unended keys
    → length keys < max
    → max ≤ length out
    → (rest : List ℕ) × (coniferos_terminal_readline (keys ++ (13 ∷ q)) out max
        ≡ some (typed keys ++ (0 ∷ rest), (echoed keys, q)))
unfolding coniferos_terminal_readline Ended
coniferos_terminal_readline-typed keys q out max u fits room =
    readline_loop-Ended keys q [] out max u (omega (arith, fits)) (omega (arith, room))
