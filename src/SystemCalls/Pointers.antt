-- ===== src/SystemCalls/Pointers.antt =====
-- The copy of the pointers to the arguments of `execve` to an array on the stack of the kernel, which need
-- not begin at a page.
use conifer_os.Common.{
  ◌-◌, ℕ, zero, suc, ◌+◌, ◌*◌, ◌%◌, ◌^◌, ◌≤◌, ◌<◌, ◌≡◌, ◌≢◌, refl, sym, ap, ◌∙◌, ◌⊎◌, inl, inr,
  arith, false, err, eio, einvarg, ne→==,
}
use native.Mathlib.Decide.{dec_lt}
use conifer_os.Loading.{store_word, max_cmmd_arg_len}
use conifer_os.Loading.Words.{
  Bytes, store_word-Bytes, load_word-small, store_word-other, load_word-store_word, load_word-agree,
}
use conifer_os.Paging.{
  Memory, page_size, get_physical_address, get_pte, get_indexes, is_aligned, map_range, set_entry,
}
use conifer_os.Processes.{Kernel, user_writable}
use conifer_os.SystemCalls.{store_through, copy_pointers, copy_argv_pointers_from_user_task}
use conifer_os.UserMemory.{Translation, direct, load_word}
use conifer_os.UserMemory.Copy.{gt→leb}

-- The page tables lead from the array of the kernel to itself, and from that of the task elsewhere.
pub record Leads (tr : Translation) (kern usr n : ℕ) : Type 0 where
  pub kernel : (i : ℕ) → i < 4 * n → tr (kern + i) ≡ kern + i
  pub task : (i j : ℕ) → i < 4 * n → j < 4 * n → tr (usr + j) ≢ kern + i
  pub kern_bound : kern + 4 * n < 2 ^ 32
  pub usr_bound : usr + 4 * n < 2 ^ 32

pub record CopiedPointers (tr : Translation) (bytes r : ℕ → ℕ) (kern usr n : ℕ) : Type 0 where
  pub pointers :
      (i : ℕ) → i < n → load_word r direct (kern + 4 * i) ≡ load_word bytes tr (usr + 4 * i)
  pub other : (a : ℕ) → (a < kern) ⊎ (kern + 4 * n ≤ a) → r a ≡ bytes a

store_through_lem :
    (tr : Translation) (bytes : ℕ → ℕ) (kern usr n v : ℕ)
    → Leads tr kern usr (suc n)
    → store_through bytes tr kern v ≡ store_word bytes kern v
unfolding store_through store_word
store_through_lem tr bytes kern usr n v l =
    let wrap : (i : ℕ) → i < 4 → (kern + i) % 2 ^ 32 ≡ kern + i =
      λ i h. omega (arith, l.kern_bound, h) in
    let here : tr kern ≡ kern = ap tr (omega arith) ∙ l.kernel 0 (omega arith) ∙ omega arith in
    rw
      (
        wrap 1 (omega arith),
        wrap 2 (omega arith),
        wrap 3 (omega arith),
        here,
        l.kernel 1 (omega arith),
        l.kernel 2 (omega arith),
        l.kernel 3 (omega arith),
      )
      refl

away : (a kern : ℕ) → ((i : ℕ) → i < 4 → a ≢ kern + i) → (a < kern) ⊎ (kern + 4 ≤ a)
away a kern ne = elim (dec_lt a kern) [
  | yes l ↦ inl l
  | no g ↦ elim (dec_lt a (kern + 4)) [
    | yes l ↦ absurd (ne (a - kern) (omega (arith, g, l)) (omega (arith, g)))
    | no h ↦ inr (omega (arith, h))
  ]
]

Leads-next :
    (tr : Translation) (kern usr n : ℕ)
    → Leads tr kern usr (suc n)
    → Leads tr (kern + 4) (usr + 4) n
Leads-next tr kern usr n l = record {
  kernel = λ i h.
      let same : kern + 4 + i ≡ kern + (4 + i) = omega arith in
      ap tr same ∙ l.kernel (4 + i) (omega (arith, h)) ∙ sym same;
  task = λ i j h g e.
      let there : usr + (4 + j) ≡ usr + 4 + j = omega arith in
      l.task (4 + i) (4 + j) (omega (arith, h)) (omega (arith, g)) (ap tr there ∙ e ∙ omega arith);
  kern_bound = omega (arith, l.kern_bound);
  usr_bound = omega (arith, l.usr_bound);
}

each :
    (n : ℕ) (tr : Translation) (bytes stored : ℕ → ℕ) (kern usr : ℕ) (r : ℕ → ℕ)
    → Leads tr kern usr (suc n)
    → ((j : ℕ) → j < 4 * suc n → stored (tr (usr + j)) ≡ bytes (tr (usr + j)))
    → load_word r direct kern ≡ load_word bytes tr usr
    → ((i : ℕ)
        → i < n
        → load_word r direct (kern + 4 + 4 * i) ≡ load_word stored tr (usr + 4 + 4 * i))
    → (i : ℕ) → i < suc n
    → load_word r direct (kern + 4 * i) ≡ load_word bytes tr (usr + 4 * i)
each n tr bytes stored kern usr r l kept first others zero h =
    let k0 : kern + 4 * 0 ≡ kern = omega arith in
    let u0 : usr ≡ usr + 4 * 0 = omega arith in
    ap (load_word r direct) k0 ∙ first ∙ ap (load_word bytes tr) u0
each n tr bytes stored kern usr r l kept first others (suc i) h =
    let kern_next : kern + 4 * suc i ≡ kern + 4 + 4 * i = omega arith in
    let at_usr : usr + 4 + 4 * i ≡ usr + 4 * suc i = omega arith in
    let fits : usr + 4 * suc i + 4 ≤ 2 ^ 32 = omega (arith, l.usr_bound, h) in
    ap (load_word r direct) kern_next
    ∙ others i (omega (arith, h))
    ∙ ap (load_word stored tr) at_usr
    ∙ load_word-agree bytes stored tr tr (usr + 4 * suc i) (usr + 4 * suc i) fits fits (λ j g.
      let same : usr + 4 * suc i + j ≡ usr + (4 * suc i + j) = omega arith in
      ap (λ x. stored (tr x)) same
      ∙ kept (4 * suc i + j) (omega (arith, g, h))
      ∙ ap (λ x. bytes (tr x)) (sym same))

-- One pointer and the others.
next_pointers :
    (n : ℕ) (tr : Translation) (bytes : ℕ → ℕ) (kern usr : ℕ) (r : ℕ → ℕ)
    → Leads tr kern usr (suc n)
    → Bytes bytes
    → CopiedPointers tr (store_word bytes kern (load_word bytes tr usr)) r (kern + 4) (usr + 4) n
    → CopiedPointers tr bytes r kern usr (suc n)
next_pointers n tr bytes kern usr r l b rest =
    let v = load_word bytes tr usr in
    let stored = store_word bytes kern v in
    let fits : kern + 4 ≤ 2 ^ 32 = omega (arith, l.kern_bound) in
    let first : load_word r direct kern ≡ v =
      load_word-agree stored r direct direct kern kern fits fits
        (λ i h. rest.other (kern + i) (inl (omega (arith, h))))
      ∙ load_word-store_word bytes kern v fits (load_word-small bytes tr usr b) in
    let kept : (j : ℕ) → j < 4 * suc n → stored (tr (usr + j)) ≡ bytes (tr (usr + j)) = λ j g.
      store_word-other bytes kern v (tr (usr + j)) fits
        (away (tr (usr + j)) kern (λ i h. l.task i j (omega (arith, h)) g)) in
    record {
      pointers = each n tr bytes stored kern usr r l kept first rest.pointers;
      other = λ a h. elim h [
        | inl g ↦
            rest.other a (inl (omega (arith, g))) ∙ store_word-other bytes kern v a fits (inl g)
        | inr g ↦
            rest.other a (inr (omega (arith, g)))
            ∙ store_word-other bytes kern v a fits (inr (omega (arith, g)))
      ];
    }

copy_pointers-CopiedPointers :
    (n : ℕ) (tr : Translation) (bytes : ℕ → ℕ) (kern usr : ℕ)
    → Leads tr kern usr n
    → Bytes bytes
    → CopiedPointers tr bytes (copy_pointers n tr bytes kern usr) kern usr n
unfolding copy_pointers
copy_pointers-CopiedPointers zero tr bytes kern usr l b = record {
  pointers = λ i h. absurd (omega (arith, h));
  other = λ a h. refl;
}
copy_pointers-CopiedPointers (suc n) tr bytes kern usr l b =
    let v = load_word bytes tr usr in
    let stored = store_word bytes kern v in
    let kern_next : (kern + 4) % 2 ^ 32 ≡ kern + 4 = omega (arith, l.kern_bound) in
    let usr_next : (usr + 4) % 2 ^ 32 ≡ usr + 4 = omega (arith, l.usr_bound) in
    let rest =
      copy_pointers-CopiedPointers n tr stored (kern + 4) (usr + 4) (Leads-next tr kern usr n l)
        (store_word-Bytes bytes kern v b) in
    rw (store_through_lem tr bytes kern usr n v l, kern_next, usr_next)
      (next_pointers n tr bytes kern usr (copy_pointers n tr stored (kern + 4) (usr + 4)) l b rest)

unaligned : (a : ℕ) → a % page_size ≢ 0 → is_aligned a ≡ false
unfolding is_aligned
unaligned a h = ne→== (a % page_size) 0 h

map_range-unaligned :
    (m : Memory) (pgd a n prot : ℕ)
    → is_aligned a ≡ false
    → map_range m pgd a a n prot ≡ (err einvarg, m)
unfolding map_range
map_range-unaligned m pgd a n prot h = rw h refl

set_entry-unaligned :
    (m : Memory) (pgd a v : ℕ) → is_aligned a ≡ false → set_entry m pgd a v ≡ (err einvarg, m)
unfolding set_entry get_indexes
set_entry-unaligned m pgd a v h = rw (set_entry, h) refl

-- Where the array of the kernel does not begin at a page, fewer than 128 pointers are copied,
-- memory holds bytes, and the tables of the task lead from the array to itself and from the
-- pointers elsewhere, all below 2 ^ 32, copy_argv_pointers_from_user_task copies each pointer,
-- changes no other byte and no page table, and returns -EIO.
pub copy_argv_pointers_from_user_task-unaligned :
    (k : Kernel) (pgd usr kern argc : ℕ)
    → kern % page_size ≢ 0
    → argc * max_cmmd_arg_len < page_size
    → Leads (get_physical_address k.page_tables pgd) kern usr argc
    → Bytes k.bytes
    → (r : ℕ → ℕ) × (copy_argv_pointers_from_user_task k pgd usr kern argc
        ≡ (err eio, record k { bytes = r }))
      × CopiedPointers (get_physical_address k.page_tables pgd) k.bytes r kern usr argc
unfolding copy_argv_pointers_from_user_task
copy_argv_pointers_from_user_task-unaligned k pgd usr kern argc odd few l b =
    let m = k.page_tables in
    let tr = get_physical_address m pgd in
    let u = unaligned kern odd in
    (
      copy_pointers argc tr k.bytes kern usr,
      rw
          (
            gt→leb page_size (argc * max_cmmd_arg_len) few,
            map_range-unaligned m pgd kern 1 user_writable u,
            set_entry-unaligned m pgd kern (get_pte m pgd kern) u,
          )
          refl,
      copy_pointers-CopiedPointers argc tr k.bytes kern usr l b,
    )
