-- ===== src/Disk.antt =====
-- src/disk/disk.c and src/disk/disk_stream.c: reading sectors, and a byte stream over them. The drive
-- is not part of the program: `sector` is the parameter that gives the bytes it delivers for a
-- block address. A `struct disk *` is a number, 0 for the address of the one `disk`.
pub mod Ports
pub mod Stream
use Prim.Native.Nat.{bit_or, bit_and}
use conifer_os.Common.{
  ℕ, zero, suc, ◌+◌, ◌-◌, ◌*◌, ◌/◌, ◌%◌, ◌^◌, Option, none, some, List, [], ◌∷◌, ◌++◌, ltb, leb,
  ◌==◌, if◌then◌else◌, take, drop, Result, ok, err, eio,
}

abbrev pub disk_sector_size : ℕ
disk_sector_size = 512

-- The port writes that `disk_read_sector` makes before it reads: port and byte. `lba` is an `int`
-- that is not negative.
unfoldable pub select_sectors : ℕ → ℕ → List (ℕ × ℕ)
select_sectors lba total =
    (0x1f6, bit_or (lba / 2 ^ 24) 0xe0 % 2 ^ 8)
    ∷ (0x1f2, total % 2 ^ 8)
    ∷ (0x1f3, bit_and lba 0xff % 2 ^ 8)
    ∷ (0x1f4, lba / 2 ^ 8 % 2 ^ 8)
    ∷ (0x1f5, lba / 2 ^ 16 % 2 ^ 8)
    ∷ (0x1f7, 0x20)
    ∷ []

-- `disk_get`
unfoldable pub disk_get : ℕ → Option ℕ
disk_get index = if index == 0 then some 0 else none

pub record DiskStream : Type 0 where
  pub pos : ℕ
  pub disk : ℕ

unfoldable pub get_disk_stream : ℕ → Option DiskStream
unfolding disk_get
get_disk_stream disk_index = elim (disk_get disk_index) [
  | none ↦ none
  | some d ↦ some (record { pos = 0; disk = d })
]

unfoldable pub disk_stream_seek : DiskStream → ℕ → DiskStream
disk_stream_seek s pos = record s { pos = pos }

module _ (sector : ℕ → List ℕ) where
  -- `total` sectors from `lba` on, as the transfer loop puts them into the buffer.
  unfoldable pub disk_read_sector : ℕ → ℕ → List ℕ
  disk_read_sector lba zero = []
  disk_read_sector lba (suc total) = sector lba ++ disk_read_sector (lba + 1) total

  unfoldable pub disk_read_block : ℕ → ℕ → ℕ → Result (List ℕ)
  disk_read_block idisk lba total = if idisk == 0 then ok (disk_read_sector lba total) else err eio

  -- The bytes that are put out, and the stream. Each call in the recursion takes one unit of fuel.
  -- The position and `total` are an `int` by its 32 bits. At a position below 0 and where the position
  -- leaves the range of an `int` the result is `none`; for a `total` below 0 nothing is put out.
  unfoldable pub disk_stream_read : ℕ → DiskStream → ℕ → Option (Result (List ℕ) × DiskStream)
  disk_stream_read zero s total = none
  disk_stream_read (suc fuel) s total =
      let block = s.pos / disk_sector_size in
      let offset = s.pos % disk_sector_size in
      let left = disk_sector_size - offset in
      let rest = disk_stream_read fuel (record s { pos = s.pos + left }) (total - left) in
      if leb (2 ^ 31) s.pos then none else elim (disk_read_block s.disk block 1) [
        | err e ↦ some (err e, s)
        | ok buf ↦
            if leb (2 ^ 31) total
            then some (ok [], record s { pos = (s.pos + total) % 2 ^ 32 })
            else if leb (2 ^ 31) (s.pos + total)
            then none
            else if ltb disk_sector_size (offset + total)
            then elim rest [
              | none ↦ none
              | some (err e, s') ↦ some (err e, s')
              | some (ok bytes, s') ↦ some (ok (take left (drop offset buf) ++ bytes), s')
            ]
            else some (ok (take total (drop offset buf)), record s { pos = s.pos + total })
      ]
