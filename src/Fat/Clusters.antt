-- ===== src/Fat/Clusters.antt =====
-- src/fs/fat/fat16.c: the file allocation table and the bytes of a cluster chain. `sector` gives the
-- bytes that the drive delivers.
use conifer_os.Common.{
  ℕ, zero, suc, ◌+◌, ◌-◌, ◌*◌, ◌/◌, ◌%◌, ◌^◌, ◌&&◌, Option, none, some, List, ◌++◌, ltb, leb, ◌==◌,
  if◌then◌else◌, ◌>>=◌, Result, ok, err, eio, errno,
}
use conifer_os.Disk.{DiskStream, disk_sector_size, disk_stream_seek, disk_stream_read}
use conifer_os.Fat.{Fat, cluster_size_bytes, cluster_to_start_sector, get_first_fat_sector}

-- What `disk_stream_read` returned, as `uint16_t`.
unfoldable pub return_code : {A : Type 0} → Result A → ℕ
return_code (ok bytes) = 0
return_code (err e) = 2 ^ 16 - errno e

-- The bytes of both reads, and the stream's state after the second.
unfoldable pub append_read :
    List ℕ → Option (Result (List ℕ) × Fat) → Option (Result (List ℕ) × Fat)
append_read bytes none = none
append_read bytes (some (err e, s)) = some (err e, s)
append_read bytes (some (ok more, s)) = some (ok (bytes ++ more), s)

module _ (sector : ℕ → List ℕ) where
  -- `n` bytes from position `pos` on. A call of `disk_stream_read` per byte is enough.
  unfoldable pub seek_read : DiskStream → ℕ → ℕ → Option (Result (List ℕ) × DiskStream)
  unfolding disk_stream_seek
  seek_read s pos n = disk_stream_read sector (suc n) (disk_stream_seek s pos) n

  -- The entry of the table is read into `entry`, which is then overwritten by the return code.
  unfoldable pub get_fat_entry : Fat → ℕ → Option (ℕ × Fat)
  unfolding seek_read return_code get_first_fat_sector
  get_fat_entry s cluster =
      seek_read s.private.fat_read_stream
        ((get_first_fat_sector s.private * disk_sector_size + cluster * 2) % 2 ^ 32) 2
      >>= λ (rc, stream).
          some
            (return_code rc, record s { private = record s.private { fat_read_stream = stream } })

  unfoldable pub chain_loop : ℕ → Fat → ℕ → Option (Result ℕ × Fat)
  unfolding get_fat_entry
  chain_loop zero s cluster = some (ok cluster, s)
  chain_loop (suc clusters_ahead) s cluster = get_fat_entry s cluster >>= λ (entry, s').
      let rest = chain_loop clusters_ahead s' entry in
      if leb 0xfff8 entry && leb entry 0xffff
      then some (err eio, s')
      else if entry == 0xfff7
      then some (err eio, s')
      else if leb 0xfff0 entry && leb entry 0xfff6
      then some (err eio, s')
      else if entry == 0
      then some (err eio, s')
      else rest

  -- A division by zero faults.
  unfoldable pub get_cluster_in_chain : Fat → ℕ → ℕ → Option (Result ℕ × Fat)
  unfolding chain_loop cluster_size_bytes
  get_cluster_in_chain s chain_start_cluster offset =
      if cluster_size_bytes s.private == 0
      then none
      else chain_loop (offset / cluster_size_bytes s.private) s chain_start_cluster

  -- Each call in the recursion takes one unit of fuel. `offset` and `n` are an `int` by its 32 bits; for
  -- an `offset` below 0 the result is `none`, and so it is where the start of the read leaves the range.
  unfoldable pub read_calls : ℕ → Fat → ℕ → ℕ → ℕ → Option (Result (List ℕ) × Fat)
  unfolding seek_read get_cluster_in_chain append_read cluster_size_bytes cluster_to_start_sector
  read_calls zero s chain_start_cluster offset n = none
  read_calls (suc fuel) s chain_start_cluster offset n =
      if leb (2 ^ 31) offset
      then none
      else (get_cluster_in_chain s chain_start_cluster offset >>= λ (found, s'). elim found [
        | err e ↦ some (err e, s')
        | ok start_cluster ↦ cluster_to_start_sector s.private start_cluster >>= λ start_sector.
            let size = cluster_size_bytes s.private in
            let bytes_to_read = if ltb n (2 ^ 31) && ltb size n then size else n in
            seek_read s'.private.cluster_read_stream
              (start_sector * disk_sector_size + offset % size) bytes_to_read
            >>= λ (rc, stream).
                let s'' = record s' {
                  private = record s'.private { cluster_read_stream = stream };
                } in
                elim rc [
                  | err e ↦ some (err e, s'')
                  | ok bytes ↦
                      let rest =
                        read_calls fuel s'' chain_start_cluster (offset + bytes_to_read)
                          (n - bytes_to_read) in
                      if ltb 0 (n - bytes_to_read)
                      then append_read bytes rest
                      else some (ok bytes, s'')
                ]
      ])

  -- One call for each byte is enough.
  unfoldable pub read_internal : Fat → ℕ → ℕ → ℕ → Option (Result (List ℕ) × Fat)
  unfolding read_calls
  read_internal s chain_start_cluster offset n = read_calls (suc n) s chain_start_cluster offset n
