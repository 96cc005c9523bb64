-- ===== src/Fat/Items.antt =====
-- src/fs/fat/fat16.c: the items that `fat16_fread` reads.
use conifer_os.Common.{
  ◌%◌, ◌^◌, ℕ, zero, suc, ◌+◌, ◌*◌, ◌≤◌, ◌<◌, ◌≡◌, ◌⊎◌, refl, ap, ap₂, ◌&&◌, ◌∙◌, some, List, [],
  ◌++◌, arith, ok, Result, Option, length, inl, inr, Bool-cases, ltb, leb, append_assoc, append-nil,
}
use conifer_os.Disk.{disk_sector_size}
use conifer_os.Disk.Stream.{bytes, bytes-append}
use conifer_os.Fat.{
  Fat, FatFileDescriptor, file, cluster_size_bytes, cluster_to_start_sector, get_first_cluster,
}
use conifer_os.Fat.Operations.{fread_loop, fat16_fread}
use conifer_os.Fat.Reads.{streams_at, Puts, first_cluster_bytes, InRange, read_internal-Puts}

-- Reading stops after `k` items: all are read, the next one begins behind the first cluster, or, at
-- once, an item is larger than a cluster.
abbrev pub Stops : Fat → ℕ → ℕ → ℕ → ℕ → Type 0
Stops s pos size nmemb k =
    (k ≡ nmemb)
    ⊎ ((cluster_size_bytes s.private ≤ pos + k * size)
        ⊎ (k ≡ 0) × (cluster_size_bytes s.private < size))

-- `k` of `nmemb` items were read from position `pos` of the first cluster on, which begins at the
-- sector `start`; `count` and `out` were there before.
abbrev pub ItemsRead :
    (ℕ → List ℕ) → Fat → ℕ → ℕ → ℕ → ℕ → ℕ → List ℕ → Option ((Result ℕ × List ℕ) × Fat) → Type 0
ItemsRead sector s start pos size nmemb count out call =
    (k : ℕ) × ((k ≤ nmemb)
      × (Stops s pos size nmemb k
          × Puts s call
              (ok (count + k), out ++ bytes sector (start * disk_sector_size + pos) (k * size))))

module _ (sector : ℕ → List ℕ) (full : (lba : ℕ) → length (sector lba) ≡ disk_sector_size) where
  no_items :
      (s : Fat) (start c f d pos size nmemb count : ℕ) (out : List ℕ)
      → Stops s pos size nmemb 0
      → ItemsRead sector s start pos size nmemb count out
          (some ((ok count, out), streams_at s c f d))
  unfolding bytes
  no_items s start c f d pos size nmemb count out stop =
      let e : count + 0 ≡ count = omega arith in
      let z : 0 * size ≡ 0 = omega arith in
      (0, (omega arith, (stop, (c, (f, (d, rw (e, z, append-nil out) refl))))))

  -- The items of a call after a first item.
  one_more :
      (s : Fat) (start pos size nmemb count : ℕ) (out : List ℕ)
      (call : Option ((Result ℕ × List ℕ) × Fat))
      → size ≤ cluster_size_bytes s.private
      → ItemsRead sector s start
          (pos + size)
          size
          nmemb
          (count + 1)
          (out ++ bytes sector (start * disk_sector_size + pos) size)
          call
      → ItemsRead sector s start pos size (suc nmemb) count out call
  one_more s start pos size nmemb count out call fits (k, (h, (stop, (c, (f, (d, e)))))) = (
    suc k,
    (
      omega arith,
      (
        later stop,
        (
          c,
          (
            f,
            (
              d,
              e
                  ∙ ap (λ (v : Result ℕ × List ℕ). some (v, streams_at s c f d))
                      (ap₂ (λ x y. (ok x, y)) (omega arith) joined),
            ),
          ),
        ),
      ),
    ),
  )
    where
      later : Stops s (pos + size) size nmemb k → Stops s pos size (suc nmemb) (suc k)
      later (inl x) = inl (omega arith)
      later (inr (inl x)) = inr (inl (omega arith))
      later (inr (inr (z, x))) = absurd (omega (arith, x, fits))

      joined :
          (out ++ bytes sector (start * disk_sector_size + pos) size)
            ++ bytes sector (start * disk_sector_size + (pos + size)) (k * size)
          ≡ out ++ bytes sector (start * disk_sector_size + pos) (suc k * size)
      joined =
          let p : start * disk_sector_size + (pos + size) ≡ start * disk_sector_size + pos + size =
            omega arith in
          let n : suc k * size ≡ size + k * size = omega arith in
          rw
            (
              append_assoc out (bytes sector (start * disk_sector_size + pos) size)
                  (bytes sector (start * disk_sector_size + (pos + size)) (k * size)),
              p,
              n,
              bytes-append sector full size (k * size) (start * disk_sector_size + pos),
            )
            refl

  fread_loop-ItemsRead :
      (s : Fat) (cluster start nmemb c f d pos size count : ℕ) (out : List ℕ)
      → 0 < cluster_size_bytes s.private
      → cluster_to_start_sector s.private cluster ≡ some start
      → InRange s cluster start
      → pos < 2 ^ 31
      → size < 2 ^ 31
      → ItemsRead sector s start pos size nmemb count out
          (fread_loop sector nmemb (streams_at s c f d) cluster pos size count out)
  unfolding fread_loop first_cluster_bytes
  fread_loop-ItemsRead s cluster start zero c f d pos size count out p e range low small =
      no_items s start c f d pos size 0 count out (inl refl)
  fread_loop-ItemsRead s cluster start (suc nmemb) c f d pos size count out p e range low small =
      let (c', (f', (d', r))) =
        read_internal-Puts sector full s c f d cluster start pos size p e range low small in
      elim (Bool-cases
        (ltb pos (cluster_size_bytes s.private) && leb size (cluster_size_bytes s.private))) [
          | inl y ↦
              let h : pos < cluster_size_bytes s.private = ground arith in
              let fits : size ≤ cluster_size_bytes s.private = ground arith in
              let next : pos + size < 2 ^ 31 = omega (arith, h, fits, range.clusters) in
              let number : (pos + size) % 2 ^ 32 ≡ pos + size = omega (arith, next) in
              rw (r, y, number)
                (one_more s start pos size nmemb count out _ fits (
                  fread_loop-ItemsRead s cluster start nmemb c' f' d' (pos + size) size (count + 1)
                    (out ++ bytes sector (start * disk_sector_size + pos) size) p e range next
                    small))
          | inr n ↦
              rw (r, n) (no_items s start c' f' d' pos size (suc nmemb) count out (ground arith))
        ]

  -- On a drive with full sectors, with a cluster size that is not 0 and a chain whose first
  -- cluster begins at a sector of the disk, where two clusters from that sector on and the entry
  -- of the first cluster in the table lie below 2 ^ 31, and for a position and a size of an item
  -- below 2 ^ 31, fat16_fread of an open file reads items one behind the other from its position
  -- on, puts out their bytes on the disk and returns their number; it stops when all are read,
  -- when the next begins behind the first cluster, or at once when an item is larger than a
  -- cluster.
  pub fat16_fread-ItemsRead :
      (s : Fat) (c f d : ℕ) (desc : FatFileDescriptor) (raw_entry : List ℕ)
      (cluster start size nmemb : ℕ)
      → desc.easy_directory_entry ≡ file (some raw_entry)
      → get_first_cluster raw_entry ≡ some cluster
      → 0 < cluster_size_bytes s.private
      → cluster_to_start_sector s.private cluster ≡ some start
      → InRange s cluster start
      → desc.pos < 2 ^ 31
      → size < 2 ^ 31
      → ItemsRead sector s start desc.pos size nmemb 0 []
          (fat16_fread sector (streams_at s c f d) desc size nmemb)
  unfolding fat16_fread
  fat16_fread-ItemsRead s c f d desc raw cluster start size nmemb e g p h range low small =
      rw (e, g)
        (fread_loop-ItemsRead s cluster start nmemb c f d desc.pos size 0 [] p h range low small)
