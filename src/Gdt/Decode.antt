-- ===== src/Gdt/Decode.antt =====
-- What the processor reads from the bytes that src/gdt/gdt.c writes.
use conifer_os.Common.{
  ℕ, ◌+◌, ◌*◌, ◌/◌, ◌%◌, ◌^◌, ◌≤◌, ◌<◌, ◌≡◌, refl, true, Option, none, some, List, [], ◌∷◌, bit_and,
  bit_or, bit_and-byte, bit_and-nibble, bit_and-ones, all_below, all_below_sound, arith, ltb,
  lt→ltb, le→ltb, ◌==◌, ==_iff, eq→==, ne→==, if◌then◌else◌,
}
use native.Mathlib.Decide.{dec_lt}
use conifer_os.Gdt.{SegmentDescriptor, max_20_bits, descriptor_bytes, encode_segment_descriptor}

-- The limit in pages of 4 KiB if the granularity bit is set.
unfoldable pub scale : ℕ → ℕ → ℕ
scale flags limit = if ltb flags 128 then limit else limit * 4096 + 4095

-- The fields of a descriptor as the processor puts them together.
unfoldable pub decode : List ℕ → Option SegmentDescriptor
unfolding scale
decode (l0 ∷ l1 ∷ b0 ∷ b1 ∷ b2 ∷ access ∷ flags ∷ b3 ∷ []) = some (record {
  base = b0 + b1 * 2 ^ 8 + b2 * 2 ^ 16 + b3 * 2 ^ 24;
  limit = scale flags (l0 + l1 * 2 ^ 8 + flags % 16 * 2 ^ 16);
  type = access;
})
decode _ = none

-- The limits that a descriptor can hold.
pub data Encodable (limit : ℕ) : Type 0 where
  bytes : limit ≤ max_20_bits → Encodable limit
  pages : limit < 2 ^ 32 → limit % 4096 ≡ 4095 → Encodable limit

of_pages : (l : ℕ) → max_20_bits < l → Encodable l → (l < 2 ^ 32) × (l % 4096 ≡ 4095)
of_pages l large (bytes small) = absurd (omega arith)
of_pages l large (pages h e) = (h, e)

twelve_ones : (v : ℕ) → bit_and v 0xfff ≡ v % 4096
twelve_ones v = omega (arith, bit_and-ones 12 v)

byte_flags_table : all_below 16 (λ x. bit_or 0x40 x == 0x40 + x) ≡ true
unfolding all_below
byte_flags_table = refl

page_flags_table : all_below 16 (λ x. bit_or 0xc0 x == 0xc0 + x) ≡ true
unfolding all_below
page_flags_table = refl

byte_flags : (x : ℕ) → x < 16 → bit_or 0x40 x ≡ 0x40 + x
byte_flags x h = (==_iff _ _).0 (all_below_sound 16 _ x byte_flags_table h)

page_flags : (x : ℕ) → x < 16 → bit_or 0xc0 x ≡ 0xc0 + x
page_flags x h = (==_iff _ _).0 (all_below_sound 16 _ x page_flags_table h)

base_lem :
    (b : ℕ)
    → b < 2 ^ 32
    → bit_and b 0xff
        + bit_and (b / 2 ^ 8) 0xff * 2 ^ 8
        + bit_and (b / 2 ^ 16) 0xff * 2 ^ 16
        + bit_and (b / 2 ^ 24) 0xff * 2 ^ 24
      ≡ b
base_lem b h = omega (
  arith,
  bit_and-byte b,
  bit_and-byte (b / 2 ^ 8),
  bit_and-byte (b / 2 ^ 16),
  bit_and-byte (b / 2 ^ 24),
)

-- The 20 bits of the limit, whatever the four flags above them.
limit_lem :
    (l high : ℕ)
    → l ≤ max_20_bits
    → high % 16 ≡ bit_and (l / 2 ^ 16) 0x0f
    → bit_and l 0xff + bit_and (l / 2 ^ 8) 0xff * 2 ^ 8 + high % 16 * 2 ^ 16 ≡ l
limit_lem l high h e =
    omega (arith, h, e, bit_and-byte l, bit_and-byte (l / 2 ^ 8), bit_and-nibble (l / 2 ^ 16))

decode_bytes :
    (d : SegmentDescriptor)
    → d.base < 2 ^ 32
    → d.limit ≤ max_20_bits
    → decode (descriptor_bytes d d.limit 0x40) ≡ some d
unfolding decode descriptor_bytes
decode_bytes d base h =
    let n = bit_and-nibble (d.limit / 2 ^ 16) in
    let flags = byte_flags (bit_and (d.limit / 2 ^ 16) 0x0f) (omega (arith, n)) in
    rw (
      base_lem d.base base,
      limit_lem d.limit (bit_or 0x40 (bit_and (d.limit / 2 ^ 16) 0x0f)) h (omega (arith, flags, n)),
      lt→ltb (bit_or 0x40 (bit_and (d.limit / 2 ^ 16) 0x0f)) 128 (omega (arith, flags, n)),
    )

decode_pages :
    (d : SegmentDescriptor)
    → d.base < 2 ^ 32
    → d.limit < 2 ^ 32
    → d.limit % 4096 ≡ 4095
    → decode (descriptor_bytes d (d.limit / 2 ^ 12) 0xc0) ≡ some d
unfolding decode descriptor_bytes
decode_pages d base h e =
    let l = d.limit / 2 ^ 12 in
    let n = bit_and-nibble (l / 2 ^ 16) in
    let flags = page_flags (bit_and (l / 2 ^ 16) 0x0f) (omega (arith, n)) in
    let scaled : l * 4096 + 4095 ≡ d.limit = omega (arith, e) in
    rw (
      base_lem d.base base,
      limit_lem l (bit_or 0xc0 (bit_and (l / 2 ^ 16) 0x0f)) (omega (arith, h))
          (omega (arith, flags, n)),
      le→ltb (bit_or 0xc0 (bit_and (l / 2 ^ 16) 0x0f)) 128 (omega (arith, flags, n)),
      scaled,
    )

-- Encoding a descriptor with a base of 32 bits and a limit of at most 20 bits, or of whole pages,
-- gives eight bytes that decode to the descriptor.
pub decode-encode_segment_descriptor :
    (d : SegmentDescriptor)
    → d.base < 2 ^ 32
    → Encodable d.limit
    → (raw : List ℕ) × (encode_segment_descriptor d ≡ some raw) × (decode raw ≡ some d)
unfolding encode_segment_descriptor
decode-encode_segment_descriptor d base enc = elim (dec_lt max_20_bits d.limit) [
  | no small ↦ (
    descriptor_bytes d d.limit 0x40,
    rw (le→ltb max_20_bits d.limit (omega (arith, small))),
    decode_bytes d base (omega (arith, small)),
  )
  | yes large ↦
      let (h, e) = of_pages d.limit large enc in
      (
        descriptor_bytes d (d.limit / 2 ^ 12) 0xc0,
        rw (lt→ltb max_20_bits d.limit large, twelve_ones d.limit, eq→== _ _ e),
        decode_pages d base h e,
      )
]

-- encodeSegmentDescriptor panics on every limit of 32 bits that is neither of at most 20 bits nor
-- of whole pages.
pub encode_segment_descriptor-panic :
    (d : SegmentDescriptor)
    → d.limit < 2 ^ 32
    → (Encodable d.limit → ⊥)
    → encode_segment_descriptor d ≡ none
unfolding encode_segment_descriptor
encode_segment_descriptor-panic d h other = elim (dec_lt max_20_bits d.limit) [
  | no small ↦ absurd (other (bytes (omega (arith, small))))
  | yes large ↦ rw (
    lt→ltb max_20_bits d.limit large,
    twelve_ones d.limit,
    ne→== (d.limit % 4096) 4095 (λ e. other (pages h e)),
  )
]
