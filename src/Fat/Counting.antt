-- ===== src/Fat/Counting.antt =====
-- src/fs/fat/fat16.c: how `fat16_get_total_items_for_directory` counts.
use conifer_os.Common.{
  ◌^◌, ℕ, zero, suc, ◌+◌, ◌*◌, ◌<◌, ◌≡◌, refl, ap, ◌∙◌, some, List, arith, ◌==◌, eq→==,
  if◌then◌else◌, ok, length, Bool-cases, true, false, inl, inr,
}
use conifer_os.Disk.{DiskStream, disk_sector_size, disk_stream_seek}
use conifer_os.Disk.Stream.{byte_at, bytes, disk_stream_read-bytes}
use conifer_os.Fat.{Fat, directory_entry_size, sector_to_absolute_pos}
use conifer_os.Fat.Directory.{items_loop, get_total_items_for_directory}
use conifer_os.Fat.Reads.{streams_at, Puts}

module _ (sector : ℕ → List ℕ) where
  -- Of the entries from position `p` on, `bound` at most, those before the first entry that begins
  -- with 0 which do not begin with 0xe5.
  unfoldable pub counted_entries : ℕ → ℕ → ℕ
  counted_entries zero p = 0
  counted_entries (suc bound) p =
      let rest = counted_entries bound (p + directory_entry_size) in
      if byte_at sector p == 0 then 0 else if byte_at sector p == 0xe5 then rest else 1 + rest

module _ (sector : ℕ → List ℕ) (full : (lba : ℕ) → length (sector lba) ≡ disk_sector_size) where
  items_loop-suc :
      (fuel p count : ℕ)
      → p + directory_entry_size < 2 ^ 31
      → let stream : DiskStream = record { pos = p + directory_entry_size; disk = 0 } in
        items_loop sector (suc fuel) (record { pos = p; disk = 0 }) count ≡ (
          if byte_at sector p == 0
          then some (ok count, stream)
          else items_loop sector fuel stream
              (if byte_at sector p == 0xe5 then count else count + 1))
  unfolding items_loop bytes
  items_loop-suc fuel p count low =
      rw
        (
          disk_stream_read-bytes sector full (suc directory_entry_size) p directory_entry_size
              (omega arith) low,
          items_loop,
        )
        refl

  items_loop-end :
      (fuel p count : ℕ)
      → (byte_at sector p == 0) ≡ true
      → p + directory_entry_size < 2 ^ 31
      → items_loop sector (suc fuel) (record { pos = p; disk = 0 }) count
        ≡ some (
          ok (count + counted_entries sector (suc fuel) p),
          record { pos = p + directory_entry_size; disk = 0 },
        )
  unfolding counted_entries
  items_loop-end fuel p count y low =
      let e : count + 0 ≡ count = omega arith in rw (items_loop-suc fuel p count low, y, e) refl

  count_entry :
      (fuel p count : ℕ)
      → (byte_at sector p == 0) ≡ false
      → (if byte_at sector p == 0xe5 then count else count + 1)
          + counted_entries sector fuel (p + directory_entry_size)
        ≡ count + counted_entries sector (suc fuel) p
  unfolding counted_entries
  count_entry fuel p count n = elim (Bool-cases (byte_at sector p == 0xe5)) [
    | inl free ↦ rw (n, free) refl
    | inr used ↦ rw (n, used) (omega arith)
  ]

  items_loop-used :
      (fuel p k count : ℕ)
      → k < fuel
      → byte_at sector (p + k * directory_entry_size) ≡ 0
      → p + suc k * directory_entry_size < 2 ^ 31
      → (q : ℕ) × (items_loop sector fuel (record { pos = p; disk = 0 }) count
          ≡ some (ok (count + counted_entries sector fuel p), record { pos = q; disk = 0 }))
  items_loop-used zero p k count h z low = absurd (omega arith)
  items_loop-used (suc fuel) p zero count h z low =
      let e : byte_at sector p ≡ 0 = ap (byte_at sector) (omega arith) ∙ z in
      (_, items_loop-end fuel p count (eq→== (byte_at sector p) 0 e) (omega arith))
  items_loop-used (suc fuel) p (suc k) count h z low =
      let next = if byte_at sector p == 0xe5 then count else count + 1 in
      let rest =
        items_loop-used fuel (p + directory_entry_size) k next (omega arith)
          (ap (byte_at sector) (omega arith) ∙ z) (omega (arith, low)) in
      elim (Bool-cases (byte_at sector p == 0)) [
        | inl y ↦ (_, items_loop-end fuel p count y (omega (arith, low)))
        | inr n ↦
            rw (items_loop-suc fuel p count (omega (arith, low)), n, ← count_entry fuel p count n)
              rest
      ]

  -- On a drive with full sectors, where one of the first max_entries entries from the start of a
  -- directory begins with 0 and ends below 2 ^ 31 on the disk,
  -- fat16_get_total_items_for_directory returns the number of entries before the first of these
  -- that do not begin with 0xe5.
  pub get_total_items_for_directory-Puts :
      (max_entries : ℕ) (s : Fat) (c f d start k : ℕ)
      → k < max_entries
      → byte_at sector (start * disk_sector_size + k * directory_entry_size) ≡ 0
      → start * disk_sector_size + suc k * directory_entry_size < 2 ^ 31
      → Puts s
          (get_total_items_for_directory sector max_entries (streams_at s c f d) start)
          (ok (counted_entries sector max_entries (start * disk_sector_size)))
  unfolding get_total_items_for_directory streams_at sector_to_absolute_pos disk_stream_seek
  get_total_items_for_directory-Puts max_entries s c f d start k h z low =
      let (q, e) = items_loop-used max_entries (start * disk_sector_size) k 0 h z low in
      let zero_add : 0 + counted_entries sector max_entries (start * disk_sector_size)
          ≡ counted_entries sector max_entries (start * disk_sector_size) =
        omega arith in
      (c, (f, (q, rw (e, zero_add) refl)))
