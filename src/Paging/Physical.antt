-- ===== src/Paging/Physical.antt =====
-- The translation of addresses by `paging_get_physical_address` of src/memory/paging/paging.c.
use conifer_os.Common.{ℕ, ◌+◌, ◌*◌, ◌/◌, ◌%◌, ◌^◌, ◌≤◌, ◌<◌, ◌≡◌, ap, ◌∙◌, arith, bit_and, bit_or}
use conifer_os.Paging.{Memory, page_size, get_pte, get_physical_address, map_range}
use conifer_os.Paging.Tables.{Apart}
use conifer_os.Paging.Range.{Mapped, map_range-Mapped}
use conifer_os.Paging.Align.{align_to_lower_page_lem}
use conifer_os.Paging.Masks.{frame_of_entry}

pub physical :
    (m : Memory) (pgd a frame flags : ℕ)
    → get_pte m pgd (a / page_size * page_size) ≡ bit_or frame flags
    → frame % page_size ≡ 0
    → frame + a % page_size < 2 ^ 32
    → flags < page_size
    → get_physical_address m pgd a ≡ frame + a % page_size
unfolding get_physical_address
physical m pgd a frame flags entry aligned bound small =
    let page = align_to_lower_page_lem a in
    let mask =
      ap (λ e. bit_and e 0xfffff000) entry
      ∙ frame_of_entry frame flags aligned (omega (arith, bound)) small in
    rw (page, mask) (omega (arith, bound))

-- Each address in mapped pages leads as far into the frames.
pub Mapped-physical :
    (n : ℕ) (m m' : Memory) (pgd v p prot d : ℕ)
    → Mapped n m m' pgd v p prot
    → v % page_size ≡ 0
    → p % page_size ≡ 0
    → p + n * page_size ≤ 2 ^ 32
    → prot < page_size
    → d < n * page_size
    → get_physical_address m' pgd (v + d) ≡ p + d
Mapped-physical n m m' pgd v p prot d mapped a b frames small within =
    let page : (v + d) / page_size * page_size ≡ v + d / page_size * page_size = omega (arith, a) in
    let entry = ap (get_pte m' pgd) page ∙ mapped.inside (d / page_size) (omega (arith, within)) in
    physical m' pgd (v + d) (p + d / page_size * page_size) prot entry (omega (arith, b))
      (omega (arith, a, b, within, frames)) small
    ∙ omega (arith, a)

-- Where the tables of a directory lie apart, after paging_map_range of pages and frames below 2 ^
-- 32 with flags below 4096, paging_get_physical_address takes each address in the pages to the
-- one as far into the frames.
pub get_physical_address-map_range :
    (n : ℕ) (m : Memory) (pgd v p prot d : ℕ)
    → Apart m pgd
    → v % page_size ≡ 0
    → p % page_size ≡ 0
    → v + n * page_size ≤ 2 ^ 32
    → p + n * page_size ≤ 2 ^ 32
    → prot < page_size
    → d < n * page_size
    → get_physical_address (map_range m pgd v p n prot).1 pgd (v + d) ≡ p + d
get_physical_address-map_range n m pgd v p prot d apart a b fits frames small within =
    Mapped-physical n m _ pgd v p prot d (map_range-Mapped n m pgd v p prot apart a b fits frames).1
      a b frames small within
