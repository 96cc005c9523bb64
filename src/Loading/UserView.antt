-- ===== src/Loading/UserView.antt =====
-- What a program finds in its own address space of the arguments and the stack that
-- src/task/process.c made for it.
use conifer_os.Common.{
  ℕ, ◌+◌, ◌-◌, ◌*◌, ◌/◌, ◌%◌, ◌^◌, ◌≤◌, ◌<◌, ◌≡◌, ◌⊎◌, inl, inr, refl, ap, sym, ◌∙◌, some, List, [],
  ◌∷◌, arith, length, Result, ok,
}
use mathlib.Core.Path.{subst}
use conifer_os.CString.Length.{All}
use conifer_os.Paging.{Memory, page_size, create_mapping, align_address, get_physical_address}
use conifer_os.Paging.Tables.{Apart, IsPage}
use conifer_os.Paging.Range.{create_mapping-Mapped}
use conifer_os.Paging.Physical.{Mapped-physical}
use conifer_os.Paging.Align.{align_address_lem}
use conifer_os.Processes.{Kernel, user_writable}
use conifer_os.UserMemory.{Translation, direct, load_word, task_get_stack_item}
use conifer_os.UserMemory.Text.{TextAt, TextAt-agree}
use conifer_os.Loading.{
  load_arg_block, max_cmmd_arg_len, max_num_args, len_arg_block, command_line_arg_virtual_addr,
  map_arg_block, map_stack, task_stack_size, task_stack_virt_addr, task_stack_virt_addr_end,
  put_argv_argc_in_stack_mem, store_word,
}
use conifer_os.Loading.Words.{store_word-other, load_word-store_word, load_word-agree}
use conifer_os.Loading.Arguments.{
  arrays, IsArgument, ArgumentsAt, strings_of, Room, load_arg_block-Loaded,
}

-- A mapping of memory that begins at a page and takes `n` pages, the last of them in part.
module _ (m : Memory) (pgd v p size n : ℕ) (apart : Apart m pgd) (page : IsPage p)
    (virt : v % page_size ≡ 0) (over : n * page_size < size + page_size)
    (enough : size ≤ n * page_size) (fits : v + n * page_size ≤ 2 ^ 32)
    (frames : p + n * page_size < 2 ^ 32) where
  abbrev window : Result ℕ × Memory
  window = create_mapping m pgd v p (align_address ((p + size) % 2 ^ 32)) user_writable

  end_of_window : align_address ((p + size) % 2 ^ 32) ≡ p + n * page_size
  end_of_window =
      align_address_lem ((p + size) % 2 ^ 32) (omega arith) ∙ omega (arith, page.aligned)

  window_lem :
      (window.0 ≡ ok 0)
      × ((d : ℕ) → d < n * page_size → get_physical_address window.1 pgd (v + d) ≡ p + d)
  window_lem =
      let e = end_of_window in
      let made =
        create_mapping-Mapped m pgd v p (align_address ((p + size) % 2 ^ 32)) user_writable apart
          (record {
            virt_aligned = virt;
            phys_aligned = page.aligned;
            end_aligned = omega (arith, e, page.aligned);
            ordered = omega (arith, e);
          })
          (omega (arith, e)) (omega (arith, e)) in
      let pages : (align_address ((p + size) % 2 ^ 32) - p) / page_size ≡ n = omega (arith, e) in
      (
        made.0,
        λ d h.
            Mapped-physical ((align_address ((p + size) % 2 ^ 32) - p) / page_size) m window.1 pgd v
              p user_writable d made.1 virt page.aligned (omega (arith, e)) (omega arith)
              (omega (arith, pages, h)),
      )

-- `argv` of a program: pointers to its strings.
abbrev pub ArgvAt : (ℕ → ℕ) → Translation → ℕ → List (List ℕ × List ℕ) → Type 0
ArgvAt bytes tr argv [] = Unit
ArgvAt bytes tr argv ((s, q) ∷ strings) =
    TextAt bytes tr (load_word bytes tr argv) s × ArgvAt bytes tr (argv + 4) strings

ArgumentsAt-seen :
    (argv : List (List ℕ × List ℕ)) (r : ℕ → ℕ) (tr : Translation) (arg_block u t : ℕ)
    → ((d : ℕ) → d < page_size → tr (command_line_arg_virtual_addr + d) ≡ arg_block + d)
    → All IsArgument argv
    → Room arg_block u t (length argv)
    → ArgumentsAt r arg_block u t argv
    → ArgvAt r tr (command_line_arg_virtual_addr + (u - arg_block)) argv
ArgumentsAt-seen [] r tr arg_block u t seen h room a = tt
ArgumentsAt-seen ((s, q) ∷ argv) r tr arg_block u t seen h room a =
    let at : (x : ℕ)
        → arg_block ≤ x
        → x < arg_block + page_size
        → tr (command_line_arg_virtual_addr + (x - arg_block)) ≡ x =
      λ x l g. seen (x - arg_block) (omega (arith, l, g)) ∙ omega (arith, l) in
    let pointer : load_word r tr (command_line_arg_virtual_addr + (u - arg_block))
        ≡ command_line_arg_virtual_addr + (t - arg_block) =
      load_word-agree r r direct tr u (command_line_arg_virtual_addr + (u - arg_block))
        (omega (arith, room.pointers, room.strings))
        (omega (arith, room.pointers, room.near, room.start))
        (λ i l.
          ap (λ x. r (tr x)) (omega (arith, room.start))
          ∙ ap r
              (at (u + i) (omega (arith, room.start)) (omega (arith, l, room.pointers, room.near))))
      ∙ a.0 in
    let string : TextAt r tr (command_line_arg_virtual_addr + (t - arg_block)) s =
      TextAt-agree s r r direct tr t (command_line_arg_virtual_addr + (t - arg_block))
        (λ j l.
          ap (λ x. r (tr x)) (omega (arith, room.start, room.pointers))
          ∙ ap r (
              at (t + j) (omega (arith, room.start, room.pointers))
                (omega (arith, l, h.0.1, room.near))))
        a.1 in
    let room' : Room arg_block (u + 4) (t + max_cmmd_arg_len) (length argv) = record {
      start = omega (arith, room.start);
      pointers = omega (arith, room.pointers);
      strings = omega (arith, room.strings);
      near = omega (arith, room.near);
    } in
    let rest =
      ArgumentsAt-seen argv r tr arg_block (u + 4) (t + max_cmmd_arg_len) seen h.1 room' a.2 in
    (
      subst (λ x. TextAt r tr x s) (sym pointer) string,
      subst (λ x. ArgvAt r tr x argv) (omega (arith, room.start)) rest,
    )

-- The block is mapped, the program has its arguments there, and nothing has changed outside the block.
pub record Passed (m : Memory) (pgd arg_block : ℕ) (bytes : ℕ → ℕ) (argv : List (List ℕ × List ℕ))
    : Type 0 where
  pub after : ℕ → ℕ
  pub loaded : load_arg_block bytes arg_block (length argv) (arrays argv) ≡ some after
  pub mapped : (map_arg_block m pgd arg_block).0 ≡ ok 0
  pub seen :
      ArgvAt after
        (get_physical_address (map_arg_block m pgd arg_block).1 pgd)
        command_line_arg_virtual_addr
        argv
  pub other : (a : ℕ) → (a < arg_block) ⊎ (arg_block + len_arg_block ≤ a) → after a ≡ bytes a

-- Where the tables of the task lie apart and the arg block is a page that ends below 2 ^ 32, for
-- at most five arguments each of which is terminated and shorter than 32 characters,
-- load_arg_block reaches a result, its mapping succeeds, the program finds at 0x02000000 an array
-- of pointers to the arguments through its tables, and no byte outside of the arg block changes.
pub load_arg_block-Passed :
    (argv : List (List ℕ × List ℕ)) (m : Memory) (pgd arg_block : ℕ) (bytes : ℕ → ℕ)
    → Apart m pgd
    → IsPage arg_block
    → arg_block + page_size < 2 ^ 32
    → All IsArgument argv
    → length argv ≤ max_num_args
    → Passed m pgd arg_block bytes argv
unfolding map_arg_block
load_arg_block-Passed argv m pgd arg_block bytes apart page room h few =
    let (r, e, l) = load_arg_block-Loaded argv bytes arg_block h few (omega (arith, room)) in
    let w =
      window_lem m pgd command_line_arg_virtual_addr arg_block len_arg_block 1 apart page refl
        (omega arith) (omega arith) (omega arith) (omega (arith, room)) in
    let seen =
      ArgumentsAt-seen argv r (get_physical_address (map_arg_block m pgd arg_block).1 pgd) arg_block
        arg_block (strings_of arg_block) (λ d g. w.1 d (omega (arith, g))) h
        (record {
          start = omega arith;
          pointers = omega (arith, few);
          strings = omega (arith, few, room);
          near = omega (arith, few);
        })
        l.arguments in
    record {
      after = r;
      loaded = e;
      mapped = w.0;
      seen =
          subst (λ x. ArgvAt r (get_physical_address (map_arg_block m pgd arg_block).1 pgd) x argv)
            (omega arith) seen;
      other = λ a g.
          l.other a (elim g [ inl f ↦ inl f | inr f ↦ inr (omega (arith, f, few)) ])
            (elim g [ inl f ↦ inl (omega (arith, f)) | inr f ↦ inr (omega (arith, f, few)) ]);
    }

-- The kernel behind the setting up of a stack.
abbrev pub with_stack : Kernel → ℕ → ℕ → ℕ → ℕ → Kernel
with_stack k pgd stack_addr argc argv = record k {
  bytes = put_argv_argc_in_stack_mem k.bytes stack_addr argc argv;
  page_tables = (map_stack k.page_tables pgd stack_addr).1;
}

-- Where the tables of the task lie apart and the stack lies at a page and ends below 2 ^ 32,
-- after put_argv_argc_in_stack_mem and the mapping of the stack, which succeeds, word 0 of the
-- stack at the initial stack pointer is argv and word 1 is argc.
pub task_get_stack_item-put_argv_argc :
    (k : Kernel) (pgd stack_addr argc argv : ℕ)
    → Apart k.page_tables pgd
    → IsPage stack_addr
    → stack_addr + task_stack_size < 2 ^ 32
    → argc < 2 ^ 32
    → argv < 2 ^ 32
    → ((map_stack k.page_tables pgd stack_addr).0 ≡ ok 0)
      × (task_get_stack_item
            (with_stack k pgd stack_addr argc argv)
            pgd
            (task_stack_virt_addr - 8)
            0
          ≡ argv)
      × (task_get_stack_item
            (with_stack k pgd stack_addr argc argv)
            pgd
            (task_stack_virt_addr - 8)
            1
          ≡ argc)
unfolding map_stack task_get_stack_item put_argv_argc_in_stack_mem
task_get_stack_item-put_argv_argc k pgd stack_addr argc argv apart page room few small =
    let w =
      window_lem k.page_tables pgd task_stack_virt_addr_end stack_addr task_stack_size 4 apart page
        refl (omega arith) (omega arith) (omega arith) (omega (arith, room)) in
    let tr = get_physical_address (map_stack k.page_tables pgd stack_addr).1 pgd in
    let below = store_word k.bytes ((stack_addr + task_stack_size - 4) % 2 ^ 32) argc in
    let bytes = store_word below ((stack_addr + task_stack_size - 8) % 2 ^ 32) argv in
    let p4 : (stack_addr + task_stack_size - 4) % 2 ^ 32 ≡ stack_addr + 16380 =
      omega (arith, room) in
    let p8 : (stack_addr + task_stack_size - 8) % 2 ^ 32 ≡ stack_addr + 16376 =
      omega (arith, room) in
    let seen : (d : ℕ)
        → d + 4 ≤ task_stack_size
        → load_word bytes tr (task_stack_virt_addr_end + d)
          ≡ load_word bytes direct (stack_addr + d) =
      λ d h.
        load_word-agree bytes bytes direct tr (stack_addr + d) (task_stack_virt_addr_end + d)
          (omega (arith, h, room)) (omega (arith, h))
          (λ i l.
            ap (λ x. bytes (tr x)) (omega arith)
            ∙ ap bytes (w.1 (d + i) (omega (arith, l, h)) ∙ omega arith)) in
    (
      w.0,
      seen 16376 (omega arith)
          ∙ ap (λ x. load_word (store_word below x argv) direct (stack_addr + 16376)) p8
          ∙ load_word-store_word below (stack_addr + 16376) argv (omega (arith, room)) small,
      seen 16380 (omega arith)
          ∙ load_word-agree below bytes direct direct (stack_addr + 16380) (stack_addr + 16380)
              (omega (arith, room)) (omega (arith, room))
              (λ i l.
                store_word-other below ((stack_addr + task_stack_size - 8) % 2 ^ 32) argv
                  (stack_addr + 16380 + i) (omega (arith, p8, room)) (inr (omega (arith, p8))))
          ∙ ap (λ x. load_word (store_word k.bytes x argc) direct (stack_addr + 16380)) p4
          ∙ load_word-store_word k.bytes (stack_addr + 16380) argc (omega (arith, room)) few,
    )
