-- ===== src/Disk/Stream.antt =====
-- `disk_stream_read` of src/disk/disk_stream.c against the bytes of the disk.
use conifer_os.Common.{
  lt→leb, ℕ, zero, suc, ◌+◌, ◌-◌, ◌*◌, ◌/◌, ◌%◌, ◌^◌, ◌≤◌, ◌<◌, ◌≡◌, ◌≢◌, refl, ap, ap₂, sym, ◌∙◌,
  inl, inr, some, List, [], ◌∷◌, ◌++◌, append-nil, arith, ltb, ltb→lt, ne→==, Bool-cases, length,
  take, drop, get_or, ok, err, eio,
}
use native.Mathlib.Nat.{add-zero, zero-add}
use conifer_os.Disk.{
  DiskStream, disk_sector_size, disk_read_block, disk_read_sector, disk_stream_read,
}

module _ (sector : ℕ → List ℕ) where
  -- The byte at a position of the disk.
  unfoldable pub byte_at : ℕ → ℕ
  byte_at p = get_or (sector (p / disk_sector_size)) (p % disk_sector_size) 0

  -- The `n` bytes from position `p` on.
  unfoldable pub bytes : ℕ → ℕ → List ℕ
  bytes p zero = []
  bytes p (suc n) = byte_at p ∷ bytes (p + 1) n

slice-cons :
    (xs : List ℕ) (o n : ℕ)
    → o < length xs
    → take (suc n) (drop o xs) ≡ get_or xs o 0 ∷ take n (drop (suc o) xs)
slice-cons [] o n h = absurd (omega arith)
slice-cons (x ∷ xs) zero n h = refl
slice-cons (x ∷ xs) (suc o) n h = slice-cons xs o n (omega arith)

module _ (sector : ℕ → List ℕ) (full : (lba : ℕ) → length (sector lba) ≡ disk_sector_size) where
  byte_in_sector :
      (s o : ℕ)
      → o < disk_sector_size
      → byte_at sector (s * disk_sector_size + o) ≡ get_or (sector s) o 0
  unfolding byte_at
  byte_in_sector s o h =
      let d : (s * disk_sector_size + o) / disk_sector_size ≡ s = omega arith in
      let m : (s * disk_sector_size + o) % disk_sector_size ≡ o = omega arith in rw (d, m)

  slice_lem :
      (n s o p : ℕ)
      → o + n ≤ disk_sector_size
      → p ≡ s * disk_sector_size + o
      → take n (drop o (sector s)) ≡ bytes sector p n
  unfolding bytes
  slice_lem zero s o p h e = refl
  slice_lem (suc n) s o p h e =
      slice-cons (sector s) o n (omega (arith, full s))
      ∙ ap₂ ◌∷◌ (sym (byte_in_sector s o (omega arith)) ∙ ap (byte_at sector) (sym e))
          (slice_lem n s (suc o) (p + 1) (omega arith) (omega arith))

  pub bytes-append :
      (a b p : ℕ) → bytes sector p a ++ bytes sector (p + a) b ≡ bytes sector p (a + b)
  unfolding bytes
  bytes-append zero b p = rw (add-zero, zero-add)
  bytes-append (suc a) b p =
      let e : p + suc a ≡ p + 1 + a = omega arith in
      let f : suc a + b ≡ suc (a + b) = omega arith in
      rw (e, f) (ap (λ t. byte_at sector p ∷ t) (bytes-append a b (p + 1)))

  split_bytes :
      (pos total left : ℕ)
      → left ≤ total
      → bytes sector pos left ++ bytes sector (pos + left) (total - left) ≡ bytes sector pos total
  split_bytes pos total left h =
      bytes-append left (total - left) pos ∙ ap (bytes sector pos) (omega arith)

  block_lem : (s : ℕ) → disk_read_block sector 0 s 1 ≡ ok (sector s)
  unfolding disk_read_block disk_read_sector
  block_lem s = ap ok (append-nil (sector s))

  no_disk : (d s : ℕ) → d ≢ 0 → disk_read_block sector d s 1 ≡ err eio
  unfolding disk_read_block
  no_disk d s h = rw (ne→== d 0 h)

  -- On a drive with full sectors and with more fuel than bytes asked for, which end below 2 ^ 31,
  -- disk_stream_read on the disk puts out the bytes of the disk from the position of the stream
  -- on, across sectors, and moves the position behind them.
  pub disk_stream_read-bytes :
      (fuel pos total : ℕ)
      → total < fuel
      → pos + total < 2 ^ 31
      → disk_stream_read sector fuel (record { pos = pos; disk = 0 }) total
        ≡ some (ok (bytes sector pos total), record { pos = pos + total; disk = 0 })
  unfolding disk_stream_read
  disk_stream_read-bytes zero pos total h k = absurd (omega arith)
  disk_stream_read-bytes (suc fuel) pos total h k =
      let o = pos % disk_sector_size in
      let s = pos / disk_sector_size in
      let left = disk_sector_size - o in
      let at = lt→leb (2 ^ 31) pos (omega arith) in
      let count = lt→leb (2 ^ 31) total (omega arith) in
      let end = lt→leb (2 ^ 31) (pos + total) k in
      elim (Bool-cases (ltb disk_sector_size (o + total))) [
        | inl more ↦
            let t : left ≤ total = omega (arith, ltb→lt disk_sector_size (o + total) more) in
            let e : pos + left + (total - left) ≡ pos + total = omega arith in
            rw (
              at,
              block_lem s,
              disk_stream_read,
              count,
              end,
              more,
              disk_stream_read-bytes fuel (pos + left) (total - left) (omega arith) (omega arith),
              slice_lem left s o pos (omega arith) (omega arith),
              split_bytes pos total left t,
              e,
            )
        | inr fits ↦ rw (
          at,
          block_lem s,
          disk_stream_read,
          count,
          end,
          fits,
          slice_lem total s o pos (ground arith) (omega arith),
        )
      ]

  -- A stream on anything but the disk reads nothing: -EIO.
  disk_stream_read_eio :
      (fuel total : ℕ) (s : DiskStream)
      → s.disk ≢ 0
      → s.pos < 2 ^ 31
      → disk_stream_read sector (suc fuel) s total ≡ some (err eio, s)
  unfolding disk_stream_read
  disk_stream_read_eio fuel total s h k =
      rw (lt→leb (2 ^ 31) s.pos k, no_disk s.disk (s.pos / disk_sector_size) h, disk_stream_read)
