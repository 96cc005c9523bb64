-- ===== src/Paging/Align.antt =====
-- The rounding of addresses in src/memory/paging/paging.c.
use conifer_os.Common.{
  ℕ, ◌+◌, ◌*◌, ◌/◌, ◌%◌, ◌^◌, ◌<◌, ◌≡◌, inl, inr, arith, ◌==◌, ==_iff, Bool-cases,
}
use conifer_os.Paging.{page_size, is_aligned, align_address, align_to_lower_page}

-- Rounding down gives the start of the page of an address.
pub align_to_lower_page_lem : (a : ℕ) → align_to_lower_page a ≡ a / page_size * page_size
unfolding align_to_lower_page is_aligned
align_to_lower_page_lem a = elim (Bool-cases (a % page_size == 0)) [
  | inl y ↦ let e = (==_iff _ _).0 y in rw y (omega (arith, e))
  | inr n ↦ rw n (omega arith)
]

-- Rounding up gives the first page boundary at an address or behind it, or 0 if that is 2 ^ 32.
pub align_address_lem :
    (a : ℕ) → a < 2 ^ 32 → align_address a ≡ (a + 4095) / page_size * page_size % 2 ^ 32
unfolding align_address is_aligned
align_address_lem a h = elim (Bool-cases (a % page_size == 0)) [
  | inl y ↦ let e = (==_iff _ _).0 y in rw y (omega (arith, e))
  | inr n ↦ rw n (ground arith)
]
