-- ===== src/Loading/Arguments.antt =====
-- `load_arg_block` and `put_argv_argc_in_stack_mem` of src/task/process.c: what a program finds of its
-- arguments in its own address space.
use conifer_os.Common.{
  ℕ, suc, ◌+◌, ◌-◌, ◌*◌, ◌%◌, ◌^◌, ◌≤◌, ◌<◌, ◌≡◌, ◌⊎◌, inl, inr, refl, ap, ◌∙◌, some, List, [], ◌∷◌,
  ◌++◌, arith, length, le→ltb,
}
use conifer_os.CString.Length.{All, NonNull}
use conifer_os.UserMemory.{direct, load_word}
use conifer_os.UserMemory.Text.{TextAt, TextAt-agree}
use conifer_os.Loading.{
  store_word, load_args, load_arg_block, translate_arg_block_addr_to_userspace_addr,
  max_cmmd_arg_len, max_num_args, len_arg_block, command_line_arg_virtual_addr,
}
use conifer_os.Loading.Words.{
  Stands, store_word-other, load_word-store_word, load_word-agree, strcpy_bytes-Stands,
}

-- Arrays that hold the strings and what lies behind their terminators.
abbrev pub arrays : List (List ℕ × List ℕ) → List (List ℕ)
arrays [] = []
arrays ((s, q) ∷ argv) = (s ++ (0 ∷ q)) ∷ arrays argv

-- A string that has no null character and fits into its part of the block.
abbrev pub IsArgument : List ℕ × List ℕ → Type 0
IsArgument (s, q) = NonNull s × (length s < max_cmmd_arg_len)

-- From the address `user_argv` on stand the pointers to the strings, as the program has to see them,
-- from `arg_strings` on the strings.
abbrev pub ArgumentsAt : (ℕ → ℕ) → ℕ → ℕ → ℕ → List (List ℕ × List ℕ) → Type 0
ArgumentsAt bytes arg_block user_argv arg_strings [] = Unit
ArgumentsAt bytes arg_block user_argv arg_strings ((s, q) ∷ argv) =
    (load_word bytes direct user_argv ≡ command_line_arg_virtual_addr + (arg_strings - arg_block))
    × TextAt bytes direct arg_strings s
    × ArgumentsAt bytes arg_block (user_argv + 4) (arg_strings + max_cmmd_arg_len) argv

pub record Loaded (bytes r : ℕ → ℕ) (arg_block user_argv arg_strings : ℕ)
    (argv : List (List ℕ × List ℕ)) : Type 0 where
  pub arguments : ArgumentsAt r arg_block user_argv arg_strings argv
  pub other :
      (a : ℕ)
      → (a < user_argv) ⊎ (user_argv + 4 * length argv ≤ a)
      → (a < arg_strings) ⊎ (arg_strings + max_cmmd_arg_len * length argv ≤ a)
      → r a ≡ bytes a

-- The pointers end in front of the strings, and the strings within the address space.
pub record Room (arg_block user_argv arg_strings n : ℕ) : Type 0 where
  pub start : arg_block ≤ user_argv
  pub pointers : user_argv + 4 * n ≤ arg_strings
  pub strings : arg_strings + max_cmmd_arg_len * n < 2 ^ 32
  pub near : arg_strings + max_cmmd_arg_len * n ≤ arg_block + len_arg_block

translate_lem :
    (arg_block addr : ℕ)
    → arg_block ≤ addr
    → addr < arg_block + len_arg_block
    → translate_arg_block_addr_to_userspace_addr addr arg_block
      ≡ command_line_arg_virtual_addr + (addr - arg_block)
unfolding translate_arg_block_addr_to_userspace_addr
translate_lem arg_block addr h g = rw (le→ltb addr arg_block h) (omega (arith, g))

-- One argument in front of others that were loaded.
module _ (bytes r1 r : ℕ → ℕ) (arg_block u t : ℕ) (s q : List ℕ) (argv : List (List ℕ × List ℕ))
    (room : Room arg_block u t (suc (length argv))) (fits : length s < max_cmmd_arg_len)
    (first : Stands bytes r1 t s)
    (rest : Loaded
      (store_word r1 u (translate_arg_block_addr_to_userspace_addr t arg_block))
      r
      arg_block
      (u + 4)
      (t + max_cmmd_arg_len)
      argv) where
  abbrev value : ℕ
  value = translate_arg_block_addr_to_userspace_addr t arg_block

  end_of_pointer : u + 4 ≤ 2 ^ 32
  end_of_pointer = omega (arith, room.pointers, room.strings)

  pointer_lem : load_word r direct u ≡ command_line_arg_virtual_addr + (t - arg_block)
  pointer_lem =
      let v =
        translate_lem arg_block t (omega (arith, room.start, room.pointers))
          (omega (arith, room.near)) in
      load_word-agree (store_word r1 u value) r direct direct u u end_of_pointer end_of_pointer
        (λ i l. rest.other (u + i) (inl (omega (arith, l))) (inl (omega (arith, l, room.pointers))))
      ∙ load_word-store_word r1 u value end_of_pointer
          (omega (arith, v, room.near, room.start, room.pointers))
      ∙ v

  string_lem : TextAt r direct t s
  string_lem =
      TextAt-agree s r1 r direct direct t t
        (λ j l.
          rest.other (t + j) (inr (omega (arith, l, room.pointers))) (inl (omega (arith, l, fits)))
          ∙ store_word-other r1 u value (t + j) end_of_pointer (inr (omega (arith, room.pointers))))
        first.text

  other_lem :
      (a : ℕ)
      → (a < u) ⊎ (u + 4 * suc (length argv) ≤ a)
      → (a < t) ⊎ (t + max_cmmd_arg_len * suc (length argv) ≤ a)
      → r a ≡ bytes a
  other_lem a h g =
      rest.other a (elim h [ inl l ↦ inl (omega (arith, l)) | inr l ↦ inr (omega (arith, l)) ])
        (elim g [ inl l ↦ inl (omega (arith, l)) | inr l ↦ inr (omega (arith, l)) ])
      ∙ store_word-other r1 u value a end_of_pointer
          (elim h [ inl l ↦ inl l | inr l ↦ inr (omega (arith, l)) ])
      ∙ first.other a (elim g [ inl l ↦ inl l | inr l ↦ inr (omega (arith, l, fits)) ])

  Loaded-suc : Loaded bytes r arg_block u t ((s, q) ∷ argv)
  Loaded-suc = record { arguments = (pointer_lem, string_lem, rest.arguments); other = other_lem }

load_args-Loaded :
    (argv : List (List ℕ × List ℕ)) (bytes : ℕ → ℕ) (arg_block u t : ℕ)
    → All IsArgument argv
    → Room arg_block u t (length argv)
    → (r : ℕ → ℕ) × (load_args (length argv) bytes arg_block u t (arrays argv) ≡ some r)
      × Loaded bytes r arg_block u t argv
unfolding load_args
load_args-Loaded [] bytes arg_block u t h room =
    (bytes, refl, record { arguments = tt; other = λ a h g. refl })
load_args-Loaded ((s, q) ∷ argv) bytes arg_block u t h room =
    let (r1, e1, first) =
      strcpy_bytes-Stands s q bytes t h.0.0 (omega (arith, h.0.1, room.strings)) in
    let bytes' = store_word r1 u (translate_arg_block_addr_to_userspace_addr t arg_block) in
    let d : (u + 4) % 2 ^ 32 ≡ u + 4 = omega (arith, room.pointers, room.strings) in
    let g : (t + max_cmmd_arg_len) % 2 ^ 32 ≡ t + max_cmmd_arg_len = omega (arith, room.strings) in
    let room' : Room arg_block (u + 4) (t + max_cmmd_arg_len) (length argv) = record {
      start = omega (arith, room.start);
      pointers = omega (arith, room.pointers);
      strings = omega (arith, room.strings);
      near = omega (arith, room.near);
    } in
    let (r, e, rest) =
      load_args-Loaded argv bytes' arg_block (u + 4) (t + max_cmmd_arg_len) h.1 room' in
    let step =
      ap
        (λ x.
          load_args (length argv) bytes' arg_block x ((t + max_cmmd_arg_len) % 2 ^ 32)
            (arrays argv))
        d
      ∙ ap (λ x. load_args (length argv) bytes' arg_block (u + 4) x (arrays argv)) g in
    (r, rw e1 (step ∙ e), Loaded-suc bytes r1 r arg_block u t s q argv room h.0.1 first rest)

-- The start of the strings in a block.
abbrev pub strings_of : ℕ → ℕ
strings_of arg_block = arg_block + 4 * max_num_args

pub load_arg_block-Loaded :
    (argv : List (List ℕ × List ℕ)) (bytes : ℕ → ℕ) (arg_block : ℕ)
    → All IsArgument argv
    → length argv ≤ max_num_args
    → arg_block + len_arg_block < 2 ^ 32
    → (r : ℕ → ℕ) × (load_arg_block bytes arg_block (length argv) (arrays argv) ≡ some r)
      × Loaded bytes r arg_block arg_block (strings_of arg_block) argv
unfolding load_arg_block
load_arg_block-Loaded argv bytes arg_block h few fits =
    let d : (arg_block + 4 * max_num_args) % 2 ^ 32 ≡ strings_of arg_block = omega (arith, fits) in
    let (r, e, l) =
      load_args-Loaded argv bytes arg_block arg_block (strings_of arg_block) h (record {
        start = omega arith;
        pointers = omega (arith, few);
        strings = omega (arith, few, fits);
        near = omega (arith, few);
      }) in
    (r, ap (λ x. load_args (length argv) bytes arg_block arg_block x (arrays argv)) d ∙ e, l)
