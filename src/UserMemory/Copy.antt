-- ===== src/UserMemory/Copy.antt =====
-- `copy_string_from_user_task` of src/task/task.c: a string of a task, read through its page tables.
use conifer_os.Common.{
  ℕ, ◌+◌, ◌-◌, ◌*◌, ◌/◌, ◌%◌, ◌^◌, ◌≤◌, ◌<◌, ◌≡◌, ◌≢◌, ◌⊎◌, inl, inr, refl, ap, sym, ◌∙◌, Option,
  some, List, arith, length, bit_and, Result, ok, leb, false,
}
use mathlib.Core.Path.{subst}
use native.Mathlib.Decide.{ℕ_discrete}
use conifer_os.Heap.{HeapDesc}
use conifer_os.KernelHeap.{kzalloc}
use conifer_os.Paging.{Memory, page_size, get_pte, map_range, set_entry, get_physical_address}
use conifer_os.Paging.Tables.{Apart, IsPage, set_entry_lem, get_pte-set_entry, get_pte-set_other}
use conifer_os.Paging.Range.{Mapped, map_range-Mapped}
use conifer_os.Paging.Physical.{get_physical_address-map_range}
use conifer_os.Paging.Align.{align_to_lower_page_lem}
use conifer_os.Processes.{Kernel, user_writable}
use conifer_os.UserMemory.{direct, strncpy_loop, copy_by, copy_string_from_user_task}
use conifer_os.UserMemory.Text.{TextAt, TextAt-agree, CopiedTo, Clear, strncpy_loop-CopiedTo}

-- The start of the page of an address.
abbrev pub page_of : ℕ → ℕ
page_of a = a / page_size * page_size

get_physical_address-agree :
    (m m' : Memory) (pgd a : ℕ)
    → get_pte m' pgd (page_of a) ≡ get_pte m pgd (page_of a)
    → get_physical_address m' pgd a ≡ get_physical_address m pgd a
unfolding get_physical_address
get_physical_address-agree m m' pgd a e =
    rw (align_to_lower_page_lem a) (ap (λ w. (bit_and w 0xfffff000 + (a - page_of a)) % 2 ^ 32) e)

-- Where a string of `n` characters lies in a task and where it is copied to: the buffer `tmp` takes
-- neither a page nor a frame of the string, and does not overlap the destination.
pub record Separated (m : Memory) (pgd virt kern tmp n : ℕ) : Type 0 where
  pub source_page : (j : ℕ) → j ≤ n → page_of (virt + j) ≢ tmp
  pub source_frame : (j : ℕ) → j ≤ n → page_of (get_physical_address m pgd (virt + j)) ≢ tmp
  pub source_bound : virt + n < 2 ^ 32
  pub kern_bound : kern + n < 2 ^ 32
  pub kern_apart : (kern + n < tmp) ⊎ (tmp + n < kern)

-- The string stands at `kern`, no byte has changed but there and in the buffer, the page tables map all
-- pages as before, and the heap is that of `k`.
pub record Delivered (k : Kernel) (pgd kern tmp : ℕ) (s : List ℕ) (r : Option (Result ℕ × Kernel))
    : Type 0 where
  pub bytes : ℕ → ℕ
  pub tables : Memory
  pub result : r ≡ some (ok 0, record k { bytes = bytes; page_tables = tables })
  pub text : TextAt bytes direct kern s
  pub other : (a : ℕ) → page_of a ≢ tmp → (a < kern) ⊎ (kern + length s < a) → bytes a ≡ k.bytes a
  pub pages : (u : ℕ) → IsPage u → get_pte tables pgd u ≡ get_pte k.page_tables pgd u

module _ (m : Memory) (pgd tmp : ℕ) (apart : Apart m pgd) (page : IsPage tmp) where
  abbrev mapped : Memory
  mapped = (map_range m pgd tmp tmp 1 user_writable).1

  fits : tmp + 1 * page_size ≤ 2 ^ 32
  fits = omega (arith, page.aligned, page.bound)

  mapped-Mapped : Mapped 1 m mapped pgd tmp tmp user_writable
  mapped-Mapped =
      (map_range-Mapped 1 m pgd tmp tmp user_writable apart page.aligned page.aligned fits fits).1

  inside : (i : ℕ) → i < page_size → get_physical_address mapped pgd (tmp + i) ≡ tmp + i
  inside i h =
      get_physical_address-map_range 1 m pgd tmp tmp user_writable i apart page.aligned page.aligned
        fits fits (omega arith) (omega (arith, h))

  outside_page : (u : ℕ) → IsPage u → u ≢ tmp → get_pte mapped pgd u ≡ get_pte m pgd u
  outside_page u q ne = mapped-Mapped.outside u q (λ i h e. ne (omega (arith, e, h)))

  outside :
      (a : ℕ)
      → a < 2 ^ 32
      → page_of a ≢ tmp
      → get_physical_address mapped pgd a ≡ get_physical_address m pgd a
  outside a h ne =
      get_physical_address-agree m mapped pgd a
        (outside_page (page_of a) (record { aligned = omega arith; bound = omega (arith, h) }) ne)

  -- The entry of the buffer is put back.
  restored-pages :
      (u : ℕ)
      → IsPage u
      → get_pte (set_entry mapped pgd tmp (get_pte m pgd tmp)).1 pgd u ≡ get_pte m pgd u
  restored-pages u q = elim (ℕ_discrete u tmp) [
    | yes e ↦
        subst
          (λ v. get_pte (set_entry mapped pgd tmp (get_pte m pgd tmp)).1 pgd v ≡ get_pte m pgd v)
          (sym e) (get_pte-set_entry mapped pgd tmp (get_pte m pgd tmp) mapped-Mapped.apart page)
    | no ne ↦
        get_pte-set_other mapped pgd tmp (get_pte m pgd tmp) mapped-Mapped.apart page u q ne
        ∙ outside_page u q ne
  ]

pub gt→leb : (a b : ℕ) → b < a → leb a b ≡ false
gt→leb a b h = ground arith

module _ (k : Kernel) (pgd virt kern max tmp : ℕ) (s : List ℕ) (apart : Apart k.page_tables pgd)
    (page : IsPage tmp) (small : max < page_size) (fit : length s ≤ max)
    (separated : Separated k.page_tables pgd virt kern tmp (length s))
    (text : TextAt k.bytes (get_physical_address k.page_tables pgd) virt s) where
  abbrev task : ℕ → ℕ
  task = get_physical_address (mapped k.page_tables pgd tmp apart page) pgd

  at_tmp : (i : ℕ) → i ≤ length s → task (tmp + i) ≡ tmp + i
  at_tmp i h = inside k.page_tables pgd tmp apart page i (omega (arith, h))

  at_source :
      (j : ℕ) → j ≤ length s → task (virt + j) ≡ get_physical_address k.page_tables pgd (virt + j)
  at_source j h =
      outside k.page_tables pgd tmp apart page (virt + j) (omega (arith, h, separated.source_bound))
        (separated.source_page j h)

  into_buffer-Clear : Clear task tmp virt (length s)
  into_buffer-Clear = record {
    apart = λ i j a b e.
        separated.source_frame j b
          (ap page_of (sym (at_source j b) ∙ e ∙ at_tmp i a) ∙ omega (arith, page.aligned, a));
    once = λ i j a b ne e. ne (omega (arith, e, at_tmp i a, at_tmp j b));
    dest_bound = omega (arith, page.aligned, page.bound);
    src_bound = separated.source_bound;
  }

  abbrev copied : ℕ → ℕ
  copied = strncpy_loop max task k.bytes tmp virt

  into_buffer-CopiedTo : CopiedTo s task k.bytes copied tmp
  into_buffer-CopiedTo = strncpy_loop-CopiedTo s max task k.bytes tmp virt fit into_buffer-Clear (
      TextAt-agree s k.bytes k.bytes (get_physical_address k.page_tables pgd) task virt virt
        (λ j h. ap k.bytes (at_source j h)) text)

  out_of_buffer-Clear : Clear direct kern tmp (length s)
  out_of_buffer-Clear = record {
    apart = λ i j a b e. elim separated.kern_apart [
      | inl h ↦ omega (arith, h, e, a, b)
      | inr h ↦ omega (arith, h, e, a, b)
    ];
    once = λ i j a b ne e. ne (omega (arith, e));
    dest_bound = separated.kern_bound;
    src_bound = omega (arith, page.aligned, page.bound);
  }

  abbrev delivered : ℕ → ℕ
  delivered = strncpy_loop max direct copied kern tmp

  out_of_buffer-CopiedTo : CopiedTo s direct copied delivered kern
  out_of_buffer-CopiedTo =
      strncpy_loop-CopiedTo s max direct copied kern tmp fit out_of_buffer-Clear (
        TextAt-agree s copied copied task direct tmp tmp (λ j h. ap copied (sym (at_tmp j h)))
          into_buffer-CopiedTo.text)

  delivered-other :
      (a : ℕ) → page_of a ≢ tmp → (a < kern) ⊎ (kern + length s < a) → delivered a ≡ k.bytes a
  delivered-other a ne h =
      out_of_buffer-CopiedTo.other a
        (λ i l e. elim h [ inl g ↦ omega (arith, g, e) | inr g ↦ omega (arith, g, e, l) ])
      ∙ into_buffer-CopiedTo.other a
          (λ i l e. ne (ap page_of (e ∙ at_tmp i l) ∙ omega (arith, page.aligned, l)))

  copy_by-Delivered : Delivered k pgd kern tmp s (copy_by k pgd virt kern max tmp)
  unfolding copy_by
  copy_by-Delivered =
      let m = mapped k.page_tables pgd tmp apart page in
      let old = get_pte k.page_tables pgd tmp in
      record {
        bytes = delivered;
        tables = (set_entry m pgd tmp old).1;
        result = rw (ap (λ r. r.0) (set_entry_lem m pgd tmp old page), copy_by) refl;
        text = out_of_buffer-CopiedTo.text;
        other = delivered-other;
        pages = restored-pages k.page_tables pgd tmp apart page;
      }

abbrev pub after_kzalloc : Kernel → HeapDesc → (ℕ → ℕ) → Kernel
after_kzalloc k heap bytes = record k { heap = heap; bytes = bytes }

-- Where the tables of the task lie apart, max is below 4096, the heap gives the page tmp, a
-- string of at most max characters stands at the address in the memory of the task after the
-- allocation, tmp takes neither a page nor a frame of it and does not overlap the destination,
-- and these ranges lie below 2 ^ 32, copy_string_from_user_task returns 0, puts the string at the
-- destination and changes no other byte outside of the page tmp; the tables map each page as
-- before, and the heap is the one after the allocation, so the buffer is not freed.
pub copy_string_from_user_task-Delivered :
    (k : Kernel) (pgd virt kern max tmp : ℕ) (s : List ℕ) (heap : HeapDesc) (bytes : ℕ → ℕ)
    → Apart k.page_tables pgd
    → kzalloc k.heap k.bytes max ≡ some (some tmp, heap, bytes)
    → IsPage tmp
    → max < page_size
    → length s ≤ max
    → Separated k.page_tables pgd virt kern tmp (length s)
    → TextAt bytes (get_physical_address k.page_tables pgd) virt s
    → Delivered
        (after_kzalloc k heap bytes)
        pgd
        kern
        tmp
        s
        (copy_string_from_user_task k pgd virt kern max)
unfolding copy_string_from_user_task
copy_string_from_user_task-Delivered k pgd virt kern max tmp s heap bytes apart alloc page small fit
      separated text =
    rw (gt→leb page_size max small, alloc)
      (copy_by-Delivered (after_kzalloc k heap bytes) pgd virt kern max tmp s apart page small fit
        separated text)
