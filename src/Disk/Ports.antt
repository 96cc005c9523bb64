-- ===== src/Disk/Ports.antt =====
-- The address registers that `disk_read_sector` of src/disk/disk.c writes.
use Prim.Native.Nat.{bit_or}
use conifer_os.Common.{
  ℕ, ◌+◌, ◌*◌, ◌/◌, ◌%◌, ◌^◌, ◌<◌, ◌≡◌, refl, true, List, ◌∷◌, arith, ◌==◌, ==_iff, bit_and-byte,
  all_below, all_below_sound,
}
use conifer_os.Disk.{select_sectors}

drive_bits_table : all_below 16 (λ x. bit_or x 0xe0 % 2 ^ 8 == 0xe0 + x) ≡ true
unfolding all_below
drive_bits_table = refl

drive_bits : (x : ℕ) → x < 16 → bit_or x 0xe0 % 2 ^ 8 ≡ 0xe0 + x
drive_bits x h = (==_iff _ _).0 (all_below_sound 16 _ x drive_bits_table h)

-- The block address that the drive reads back from its registers: the low four bits of the drive
-- register, then the high, middle and low address registers.
unfoldable decode_lba : List (ℕ × ℕ) → ℕ
decode_lba ((_, drive) ∷ _ ∷ (_, low) ∷ (_, mid) ∷ (_, high) ∷ _) =
    drive % 16 * 2 ^ 24 + high * 2 ^ 16 + mid * 2 ^ 8 + low
decode_lba _ = 0

-- For a block address of 28 bits, the registers that disk_read_sector writes hold that address.
decode_lba-select_sectors :
    (lba total : ℕ) → lba < 2 ^ 28 → decode_lba (select_sectors lba total) ≡ lba
unfolding decode_lba select_sectors
decode_lba-select_sectors lba total h =
    omega (arith, drive_bits (lba / 2 ^ 24) (omega arith), bit_and-byte lba)
