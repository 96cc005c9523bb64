-- ===== src/Paging/Range.antt =====
-- `paging_map_range` and `paging_create_mapping` of src/memory/paging/paging.c.
use conifer_os.Common.{
  ℕ, zero, suc, ◌+◌, ◌-◌, ◌*◌, ◌/◌, ◌%◌, ◌^◌, ◌≤◌, ◌<◌, ◌≡◌, ◌≢◌, refl, ap, sym, ◌∙◌, inl, inr,
  arith, ◌==◌, eq→==, le→ltb, Bool-cases, ==_iff, ltb, bit_or, ok, err, einvarg,
}
use mathlib.Core.Path.{subst}
use conifer_os.Paging.{
  Memory, page_size, is_aligned, get_pte, set_entry, map_loop, map_range, create_mapping,
}
use conifer_os.Paging.Tables.{
  Apart, IsPage, after_set-Apart, set_entry_lem, get_pte-set_entry, get_pte-set_other,
}

-- What a mapping of `n` pages from `v` on to the frames from `p` on makes of the page tables of `m`:
-- each of the pages has its frame, with the flags `prot`, and no other page has changed.
pub record Mapped (n : ℕ) (m m' : Memory) (pgd v p prot : ℕ) : Type 0 where
  pub apart : Apart m' pgd
  pub inside :
      (i : ℕ) → i < n → get_pte m' pgd (v + i * page_size) ≡ bit_or (p + i * page_size) prot
  pub outside :
      (u : ℕ)
      → IsPage u
      → ((i : ℕ) → i < n → u ≢ v + i * page_size)
      → get_pte m' pgd u ≡ get_pte m pgd u

-- One more page in front of a mapping.
module _ (n : ℕ) (m m' : Memory) (pgd v p prot : ℕ) (apart : Apart m pgd) (page : IsPage v)
    (fits : v + suc n * page_size ≤ 2 ^ 32) (frames : p + suc n * page_size ≤ 2 ^ 32)
    (rest : Mapped n
      (set_entry m pgd v (bit_or p prot)).1
      m'
      pgd
      ((v + page_size) % 2 ^ 32)
      ((p + page_size) % 2 ^ 32)
      prot) where
  front_inside :
      (i : ℕ) → i < suc n → get_pte m' pgd (v + i * page_size) ≡ bit_or (p + i * page_size) prot
  front_inside zero h =
      let e : v + 0 * page_size ≡ v = omega arith in
      let f : p + 0 * page_size ≡ p = omega arith in
      rw (e, f)
        (rest.outside v page (λ i k. omega (arith, fits))
          ∙ get_pte-set_entry m pgd v (bit_or p prot) apart page)
  front_inside (suc i) h =
      let e : v + suc i * page_size ≡ (v + page_size) % 2 ^ 32 + i * page_size =
        omega (arith, fits) in
      let f : p + suc i * page_size ≡ (p + page_size) % 2 ^ 32 + i * page_size =
        omega (arith, frames) in
      rw (e, f) (rest.inside i (omega arith))

  front_outside :
      (u : ℕ)
      → IsPage u
      → ((i : ℕ) → i < suc n → u ≢ v + i * page_size)
      → get_pte m' pgd u ≡ get_pte m pgd u
  front_outside u q ne =
      let here : u ≢ v = λ e. ne 0 (omega arith) (omega (arith, e)) in
      rest.outside u q (λ i k e. ne (suc i) (omega arith) (omega (arith, e, fits)))
      ∙ get_pte-set_other m pgd v (bit_or p prot) apart page u q here

  front-Mapped : Mapped (suc n) m m' pgd v p prot
  front-Mapped = record { apart = rest.apart; inside = front_inside; outside = front_outside }

map_loop-Mapped :
    (n : ℕ) (m : Memory) (pgd v p prot : ℕ)
    → Apart m pgd
    → v % page_size ≡ 0
    → v + n * page_size ≤ 2 ^ 32
    → p + n * page_size ≤ 2 ^ 32
    → ((map_loop n m pgd v p prot).0 ≡ ok 0) × Mapped n m (map_loop n m pgd v p prot).1 pgd v p prot
unfolding map_loop
map_loop-Mapped zero m pgd v p prot apart aligned fits frames =
    (refl, record { apart = apart; inside = λ i h. absurd (omega arith); outside = λ u q ne. refl })
map_loop-Mapped (suc n) m pgd v p prot apart aligned fits frames =
    let page : IsPage v = record { aligned = aligned; bound = omega (arith, fits) } in
    let s = set_entry_lem m pgd v (bit_or p prot) page in
    let apart' =
      subst (λ r. Apart r.1 pgd) (sym s) (after_set-Apart m pgd v (bit_or p prot) apart page) in
    let (e, rest) =
      map_loop-Mapped n (set_entry m pgd v (bit_or p prot)).1 pgd ((v + page_size) % 2 ^ 32)
        ((p + page_size) % 2 ^ 32) prot apart' (omega (arith, aligned)) (omega (arith, fits))
        (omega (arith, frames)) in
    rw (ap (λ r. r.0) s, map_loop) (e, front-Mapped n m _ pgd v p prot apart page fits frames rest)

-- Where the tables of a directory lie apart, paging_map_range of pages and frames that lie below
-- 2 ^ 32 maps each page to its frame with the flags, and changes no other page.
pub map_range-Mapped :
    (n : ℕ) (m : Memory) (pgd v p prot : ℕ)
    → Apart m pgd
    → v % page_size ≡ 0
    → p % page_size ≡ 0
    → v + n * page_size ≤ 2 ^ 32
    → p + n * page_size ≤ 2 ^ 32
    → ((map_range m pgd v p n prot).0 ≡ ok 0)
      × Mapped n m (map_range m pgd v p n prot).1 pgd v p prot
unfolding map_range is_aligned
map_range-Mapped n m pgd v p prot apart a b fits frames =
    rw (eq→== _ _ a, eq→== _ _ b) (map_loop-Mapped n m pgd v p prot apart a fits frames)

-- The addresses that `paging_create_mapping` accepts.
pub record Accepts (v p e : ℕ) : Type 0 where
  pub virt_aligned : v % page_size ≡ 0
  pub phys_aligned : p % page_size ≡ 0
  pub end_aligned : e % page_size ≡ 0
  pub ordered : p ≤ e

-- Where the tables of a directory lie apart, paging_create_mapping of aligned addresses in order,
-- whose pages lie below 2 ^ 32, maps the pages from the virtual address on to the frames up to
-- the end address and changes no other page.
pub create_mapping-Mapped :
    (m : Memory) (pgd v p e prot : ℕ)
    → Apart m pgd
    → Accepts v p e
    → e < 2 ^ 32
    → v + (e - p) ≤ 2 ^ 32
    → ((create_mapping m pgd v p e prot).0 ≡ ok 0)
      × Mapped ((e - p) / page_size) m (create_mapping m pgd v p e prot).1 pgd v p prot
unfolding create_mapping is_aligned
create_mapping-Mapped m pgd v p e prot apart acc small fits =
    rw
      (
        eq→== _ _ acc.virt_aligned,
        eq→== _ _ acc.phys_aligned,
        eq→== _ _ acc.end_aligned,
        le→ltb e p acc.ordered,
      )
      (map_range-Mapped ((e - p) / page_size) m pgd v p prot apart acc.virt_aligned acc.phys_aligned
        (omega (arith, fits, acc.ordered)) (omega (arith, small, acc.ordered)))

-- paging_create_mapping refuses addresses that are not aligned or not in order with -EINVARG, and
-- changes nothing.
pub create_mapping_err :
    (m : Memory) (pgd v p e prot : ℕ)
    → (Accepts v p e → ⊥)
    → create_mapping m pgd v p e prot ≡ (err einvarg, m)
unfolding create_mapping is_aligned
create_mapping_err m pgd v p e prot other = elim (Bool-cases (v % page_size == 0)) [
  | inr a ↦ rw a
  | inl a ↦ elim (Bool-cases (p % page_size == 0)) [
    | inr b ↦ rw (a, b)
    | inl b ↦ elim (Bool-cases (e % page_size == 0)) [
      | inr c ↦ rw (a, b, c)
      | inl c ↦ elim (Bool-cases (ltb e p)) [
        | inl d ↦ rw (a, b, c, d)
        | inr d ↦ absurd (
            other (record {
              virt_aligned = (==_iff _ _).0 a;
              phys_aligned = (==_iff _ _).0 b;
              end_aligned = (==_iff _ _).0 c;
              ordered = ground arith;
            }))
      ]
    ]
  ]
]
