-- ===== src/Gdt.antt =====
-- src/gdt/gdt.c: the descriptors of the global descriptor table and their eight bytes.
pub mod Decode
use conifer_os.Common.{
  ℕ, zero, suc, ◌+◌, ◌*◌, ◌/◌, ◌%◌, ◌^◌, Bool, not, ◌&&◌, Option, none, some, List, [], ◌∷◌,
  bit_and, bit_or, ltb, ◌==◌, if◌then◌else◌, ◌>>=◌,
}

-- MAX_20_BITS
abbrev pub max_20_bits : ℕ
max_20_bits = 1048575

-- `struct segment_descriptor`
pub record SegmentDescriptor : Type 0 where
  pub base : ℕ
  pub limit : ℕ
  pub type : ℕ

unfoldable pub are_first_12_bits_one : ℕ → Bool
are_first_12_bits_one val = bit_and val 0xfff == 0xfff

unfoldable pub convert_to_page_granularity : ℕ → ℕ
convert_to_page_granularity val = val / 2 ^ 12

-- The eight bytes, for a limit and the flags that byte 6 starts with.
unfoldable pub descriptor_bytes : SegmentDescriptor → ℕ → ℕ → List ℕ
descriptor_bytes source limit flags =
    bit_and limit 0xff
    ∷ bit_and (limit / 2 ^ 8) 0xff
    ∷ bit_and source.base 0xff
    ∷ bit_and (source.base / 2 ^ 8) 0xff
    ∷ bit_and (source.base / 2 ^ 16) 0xff
    ∷ source.type
    ∷ bit_or flags (bit_and (limit / 2 ^ 16) 0x0f)
    ∷ bit_and (source.base / 2 ^ 24) 0xff
    ∷ []

-- All eight bytes of the target are written. `none` is the panic.
unfoldable pub encode_segment_descriptor : SegmentDescriptor → Option (List ℕ)
unfolding are_first_12_bits_one convert_to_page_granularity descriptor_bytes
encode_segment_descriptor source =
    if ltb max_20_bits source.limit && not (are_first_12_bits_one source.limit)
    then none
    else if ltb max_20_bits source.limit
    then some (descriptor_bytes source (convert_to_page_granularity source.limit) 0xc0)
    else some (descriptor_bytes source source.limit 0x40)

unfoldable pub segment_descriptor_to_raw : List SegmentDescriptor → Option (List (List ℕ))
segment_descriptor_to_raw [] = some []
segment_descriptor_to_raw (d ∷ ds) = encode_segment_descriptor d >>= λ raw.
    segment_descriptor_to_raw ds >>= λ raws. some (raw ∷ raws)
