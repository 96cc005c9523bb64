-- ===== src/Fat/Reads.antt =====
-- src/fs/fat/fat16.c: what `fat16_read_internal` reads, against the bytes of the disk.
use conifer_os.Common.{
  lt→leb, ◌%◌, ◌^◌, ℕ, zero, suc, ◌+◌, ◌-◌, ◌*◌, ◌/◌, ◌≤◌, ◌<◌, ◌≡◌, refl, List, some, arith, ltb,
  leb, Bool-cases, ltb→lt, leb→le, inl, inr, Option, lt→ltb, le→ltb, ne→==, ◌∙◌, ◌&&◌,
  if◌then◌else◌, Result, ok, err, eio, length,
}
use conifer_os.Disk.{disk_sector_size}
use conifer_os.Disk.Stream.{bytes, disk_stream_read-bytes}
use conifer_os.Fat.{
  Fat, cluster_size_bytes, sectors_per_cluster_of, cluster_to_start_sector, get_first_fat_sector,
}
use conifer_os.Fat.Clusters.{
  seek_read, get_fat_entry, chain_loop, get_cluster_in_chain, append_read, read_calls,
  read_internal,
}
use native.Mathlib.Nat.{div-eq_of_lt, div-eq-sub-div, mod-eq_of_lt}

-- The driver with its three streams on the disk, at the positions `c`, `f` and `d`.
unfoldable pub streams_at : Fat → ℕ → ℕ → ℕ → Fat
streams_at s c f d = record s {
  private = record s.private {
    cluster_read_stream = record { pos = c; disk = 0 };
    fat_read_stream = record { pos = f; disk = 0 };
    directory_stream = record { pos = d; disk = 0 };
  };
}

-- The call puts out `v`, and leaves the driver as it was, but for the positions of the streams.
abbrev pub Puts : {A : Type 0} → Fat → Option (A × Fat) → A → Type 0
Puts s call v = (c : ℕ) × ((f : ℕ) × ((d : ℕ) × (call ≡ some (v, streams_at s c f d))))

module _ (sector : ℕ → List ℕ) where
  -- What a read of `n` bytes from `offset` on puts out, when the chain's first cluster begins at the
  -- sector `start`.
  unfoldable pub first_cluster_bytes : Fat → ℕ → ℕ → ℕ → Result (List ℕ)
  first_cluster_bytes s start offset n =
      if ltb offset (cluster_size_bytes s.private) && leb n (cluster_size_bytes s.private)
      then ok (bytes sector (start * disk_sector_size + offset) n)
      else err eio

-- The position of the entry of a cluster in the table.
abbrev pub fat_position : Fat → ℕ → ℕ
fat_position s cluster = get_first_fat_sector s.private * disk_sector_size + cluster * 2

-- Two clusters from the sector `start` on, and the entry of `cluster`, lie below 2 ^ 31, where the
-- positions of the disk are an `int`.
pub record InRange (s : Fat) (cluster start : ℕ) : Type 0 where
  pub clusters : start * disk_sector_size + 2 * cluster_size_bytes s.private < 2 ^ 31
  pub table : fat_position s cluster + 2 < 2 ^ 31

module _ (sector : ℕ → List ℕ) (full : (lba : ℕ) → length (sector lba) ≡ disk_sector_size) where
  pub seek_read-bytes :
      (p pos n : ℕ)
      → pos + n < 2 ^ 31
      → seek_read sector (record { pos = p; disk = 0 }) pos n
        ≡ some (ok (bytes sector pos n), record { pos = pos + n; disk = 0 })
  unfolding seek_read
  seek_read-bytes p pos n h = disk_stream_read-bytes sector full (suc n) pos n (omega arith) h

  get_fat_entry-zero :
      (s : Fat) (c f d cluster : ℕ)
      → fat_position s cluster + 2 < 2 ^ 31
      → get_fat_entry sector (streams_at s c f d) cluster
        ≡ some (0, streams_at s c (fat_position s cluster + 2) d)
  unfolding get_fat_entry streams_at
  get_fat_entry-zero s c f d cluster h =
      let e : fat_position s cluster % 2 ^ 32 ≡ fat_position s cluster = omega (arith, h) in
      rw (e, seek_read-bytes f (fat_position s cluster) 2 h, get_fat_entry) refl

  -- A chain ends behind its first cluster: the entry that is looked at is 0.
  chain_loop-eio :
      (k : ℕ) (s : Fat) (c f d cluster : ℕ)
      → fat_position s cluster + 2 < 2 ^ 31
      → chain_loop sector (suc k) (streams_at s c f d) cluster
        ≡ some (err eio, streams_at s c (fat_position s cluster + 2) d)
  unfolding chain_loop
  chain_loop-eio k s c f d cluster h = rw (get_fat_entry-zero s c f d cluster h, chain_loop) refl

  get_cluster_in_chain-first :
      (s : Fat) (c f d cluster offset : ℕ)
      → offset < cluster_size_bytes s.private
      → get_cluster_in_chain sector (streams_at s c f d) cluster offset
        ≡ some (ok cluster, streams_at s c f d)
  unfolding get_cluster_in_chain streams_at chain_loop cluster_size_bytes sectors_per_cluster_of
  get_cluster_in_chain-first s c f d cluster offset h =
      rw (ne→== (cluster_size_bytes s.private) 0 (λ e. omega (arith, e)), div-eq_of_lt h) refl

  get_cluster_in_chain-eio :
      (s : Fat) (c f d cluster offset : ℕ)
      → zero < cluster_size_bytes s.private
      → cluster_size_bytes s.private ≤ offset
      → fat_position s cluster + 2 < 2 ^ 31
      → get_cluster_in_chain sector (streams_at s c f d) cluster offset
        ≡ some (err eio, streams_at s c (fat_position s cluster + 2) d)
  unfolding get_cluster_in_chain streams_at cluster_size_bytes sectors_per_cluster_of
  get_cluster_in_chain-eio s c f d cluster offset p h low =
      let more : offset / cluster_size_bytes s.private
          ≡ suc ((offset - cluster_size_bytes s.private) / cluster_size_bytes s.private) =
        omega (arith, div-eq-sub-div p h) in
      rw
        (
          ne→== (cluster_size_bytes s.private) 0 (λ e. omega (arith, e)),
          more,
          chain_loop-eio ((offset - cluster_size_bytes s.private) / cluster_size_bytes s.private) s
              c f d cluster low,
        )
        refl

  read_calls-behind :
      (fuel : ℕ) (s : Fat) (c f d cluster offset n : ℕ)
      → zero < cluster_size_bytes s.private
      → cluster_size_bytes s.private ≤ offset
      → offset < 2 ^ 31
      → fat_position s cluster + 2 < 2 ^ 31
      → read_calls sector (suc fuel) (streams_at s c f d) cluster offset n
        ≡ some (err eio, streams_at s c (fat_position s cluster + 2) d)
  unfolding read_calls
  read_calls-behind fuel s c f d cluster offset n p h small low =
      rw
        (
          lt→leb (2 ^ 31) offset small,
          get_cluster_in_chain-eio s c f d cluster offset p h low,
          read_calls,
        )
        refl

  in_position :
      (n size start offset : ℕ)
      → offset < size
      → start * disk_sector_size + 2 * size < 2 ^ 31
      → start * disk_sector_size + offset + (if ltb size n then size else n) < 2 ^ 31
  in_position n size start offset h k = elim (Bool-cases (ltb size n)) [
    | inl more ↦ rw more (omega arith)
    | inr less ↦ rw less (ground arith)
  ]

  -- A call that starts in the first cluster.
  read_calls-first :
      (fuel : ℕ) (s : Fat) (c f d cluster start offset n : ℕ)
      → offset < cluster_size_bytes s.private
      → cluster_to_start_sector s.private cluster ≡ some start
      → InRange s cluster start
      → n < 2 ^ 31
      → let size = cluster_size_bytes s.private in
        let b = if ltb size n then size else n in
        let position = start * disk_sector_size + offset in
        read_calls sector (suc fuel) (streams_at s c f d) cluster offset n ≡ (
          if ltb 0 (n - b)
          then append_read (bytes sector position b) (
              read_calls sector fuel (streams_at s (position + b) f d) cluster (offset + b) (n - b))
          else some (ok (bytes sector position b), streams_at s (position + b) f d))
  unfolding read_calls streams_at cluster_to_start_sector cluster_size_bytes sectors_per_cluster_of
  read_calls-first fuel s c f d cluster start offset n h e range small =
      let size = cluster_size_bytes s.private in
      rw
        (
          lt→leb (2 ^ 31) offset (omega (arith, range.clusters, h)),
          get_cluster_in_chain-first s c f d cluster offset h,
          read_calls,
          e,
          mod-eq_of_lt h,
          lt→ltb n (2 ^ 31) small,
          seek_read-bytes c (start * disk_sector_size + offset) (if ltb size n then size else n)
              (in_position n size start offset h range.clusters),
          lt→ltb n (2 ^ 31) small,
        )
        refl

  read_calls-within :
      (fuel : ℕ) (s : Fat) (c f d cluster start offset n : ℕ)
      → offset < cluster_size_bytes s.private
      → n ≤ cluster_size_bytes s.private
      → cluster_to_start_sector s.private cluster ≡ some start
      → InRange s cluster start
      → n < 2 ^ 31
      → let position = start * disk_sector_size + offset in
        read_calls sector (suc fuel) (streams_at s c f d) cluster offset n
        ≡ some (ok (bytes sector position n), streams_at s (position + n) f d)
  read_calls-within fuel s c f d cluster start offset n h k e range small =
      let done : n - n ≡ 0 = omega arith in
      read_calls-first fuel s c f d cluster start offset n h e range small
      ∙ rw (le→ltb (cluster_size_bytes s.private) n k, done) refl

  read_calls-over :
      (fuel : ℕ) (s : Fat) (c f d cluster start offset n : ℕ)
      → offset < cluster_size_bytes s.private
      → cluster_size_bytes s.private < n
      → cluster_to_start_sector s.private cluster ≡ some start
      → InRange s cluster start
      → n < 2 ^ 31
      → let position = start * disk_sector_size + offset in
        read_calls sector (suc (suc fuel)) (streams_at s c f d) cluster offset n
        ≡ some (
          err eio,
          streams_at s (position + cluster_size_bytes s.private) (fat_position s cluster + 2) d,
        )
  unfolding append_read
  read_calls-over fuel s c f d cluster start offset n h k e range small =
      let size = cluster_size_bytes s.private in
      let position = start * disk_sector_size + offset in
      let left : 0 < n - size = omega arith in
      read_calls-first (suc fuel) s c f d cluster start offset n h e range small
      ∙ rw
          (
            lt→ltb size n k,
            lt→ltb 0 (n - size) left,
            read_calls-behind fuel s (position + size) f d cluster (offset + size) (n - size)
                (omega arith) (omega arith) (omega (arith, range.clusters, h)) range.table,
          )
          refl

  -- On a drive with full sectors, with a cluster size that is not 0 and a chain whose first
  -- cluster begins at a sector of the disk, where two clusters from that sector on and the entry
  -- of the first cluster in the table lie below 2 ^ 31, for an offset and a number of bytes that
  -- are not negative as an int: fat16_read_internal of at most a cluster from an offset in the
  -- first cluster puts out the bytes of the disk from there on; every other read fails with -EIO.
  -- Nothing of the driver changes but the positions of its streams.
  pub read_internal-Puts :
      (s : Fat) (c f d cluster start offset n : ℕ)
      → zero < cluster_size_bytes s.private
      → cluster_to_start_sector s.private cluster ≡ some start
      → InRange s cluster start
      → offset < 2 ^ 31
      → n < 2 ^ 31
      → Puts s
          (read_internal sector (streams_at s c f d) cluster offset n)
          (first_cluster_bytes sector s start offset n)
  unfolding read_internal first_cluster_bytes
  read_internal-Puts s c f d cluster start offset n p e range low small =
      let size = cluster_size_bytes s.private in
      elim (Bool-cases (ltb offset size)) [
        | inr far ↦ rw (far) (
          _,
          (_, (_, read_calls-behind n s c f d cluster offset n p (ground arith) low range.table)),
        )
        | inl near ↦
            let h = ltb→lt offset size near in
            elim (Bool-cases (leb n size)) [
              | inl fits ↦
                  rw (near, fits)
                    (
                      _,
                      (
                        _,
                        (
                          _,
                          read_calls-within n s c f d cluster start offset n h (leb→le n size fits)
                              e range small,
                        ),
                      ),
                    )
              | inr over ↦ rw (near, over) (_, (_, (_, over_lem n (ground arith) h small)))
            ]
      ]
    where
      over_lem :
          (k : ℕ)
          → cluster_size_bytes s.private < k
          → offset < cluster_size_bytes s.private
          → k < 2 ^ 31
          → read_calls sector (suc k) (streams_at s c f d) cluster offset k
            ≡ some (
              err eio,
              streams_at s
                  (start * disk_sector_size + offset + cluster_size_bytes s.private)
                  (fat_position s cluster + 2)
                  d,
            )
      over_lem zero o h small = absurd (omega arith)
      over_lem (suc k) o h small =
          read_calls-over k s c f d cluster start offset (suc k) h o e range small
