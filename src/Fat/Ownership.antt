-- ===== src/Fat/Ownership.antt =====
-- src/fs/fat/fat16.c: the heap allocations that a directory entry owns.
use conifer_os.Common.{
  ◌^◌, ℕ, zero, suc, ◌+◌, ◌-◌, ◌*◌, ◌%◌, ◌≡◌, refl, ◌∙◌, Bool, true, false, Option, some, none,
  List, [], ◌∷◌, arith, Result, ok, err, if◌then◌else◌, ltb, leb, replicate, ◌==◌, bit_and, ◌&&◌,
}
use conifer_os.Fat.Outcomes.{
  After, fails, returns, bind-After, from-After, if-After, branch-After, result-After,
}
use conifer_os.Fat.{
  Fat, FatDirectory, EasyDirectoryEntry, directory, file, Allocations, allocation, release,
  cluster_size_bytes, attribute, get_first_cluster, cluster_to_start_sector, directory_entry_size,
  fat_file_subdirectory,
}
use conifer_os.Memory.{memcpy}
use conifer_os.Disk.{disk_sector_size}
use conifer_os.Fat.Clusters.{
  seek_read, get_fat_entry, chain_loop, get_cluster_in_chain, append_read, read_calls,
  read_internal,
}
use conifer_os.Fat.Directory.{
  free_directory, get_total_items_for_directory, fill_fat_directory, load_fat_directory,
  clone_raw_dir_entry, get_easy_entry,
}

-- The number of live allocations is `l`.
abbrev Live : {A : Type 0} → ℕ → A → Fat → Type 0
Live l a s = s.heap.live ≡ l

-- The allocations behind a pointer to an entry.
abbrev pub blocks : EasyDirectoryEntry → ℕ
blocks (directory none) = 1
blocks (directory (some d)) = 3
blocks (file none) = 1
blocks (file (some entry)) = 2

-- What an allocation adds.
pub allocation-live :
    (h : Allocations) → (allocation h).1.live ≡ h.live + (if (allocation h).0 then 1 else 0)
unfolding allocation
allocation-live h =
    elim h.outcomes as (λ o. (allocate o).1.live ≡ h.live + (if (allocate o).0 then 1 else 0)) [
      | [] ↦ refl
      | true ∷ rest ↦ refl
      | false ∷ rest ↦ omega arith
    ]
  where
    allocate : List Bool → Bool × Allocations
    allocate [] = (true, record h { live = h.live + 1 })
    allocate (true ∷ rest) = (true, record { outcomes = rest; live = h.live + 1 })
    allocate (false ∷ rest) = (false, record h { outcomes = rest })

module _ (sector : ℕ → List ℕ) where
  get_fat_entry-Live :
      (s : Fat) (cluster l : ℕ) → s.heap.live ≡ l → After (Live l) (get_fat_entry sector s cluster)
  unfolding get_fat_entry
  get_fat_entry-Live s cluster l h = from-After _ _ (λ a. returns h)

  chain_loop-Live :
      (n : ℕ) (s : Fat) (cluster l : ℕ)
      → s.heap.live ≡ l
      → After (Live l) (chain_loop sector n s cluster)
  unfolding chain_loop
  chain_loop-Live zero s cluster l h = returns h
  chain_loop-Live (suc n) s cluster l h =
      bind-After (get_fat_entry sector s cluster) _ (get_fat_entry-Live s cluster l h)
        (λ entry s' g. if-After (leb 0xfff8 entry && leb entry 0xffff) _ _ (returns g) (
          if-After (entry == 0xfff7) _ _ (returns g) (
            if-After (leb 0xfff0 entry && leb entry 0xfff6) _ _ (returns g)
              (if-After (entry == 0) _ _ (returns g) (chain_loop-Live n s' entry l g)))))

append_read-Live :
    (bytes : List ℕ) (call : Option (Result (List ℕ) × Fat)) (l : ℕ)
    → After (Live l) call
    → After (Live l) (append_read bytes call)
unfolding append_read
append_read-Live bytes none l h = fails
append_read-Live bytes (some (err e, s)) l (returns h) = returns h
append_read-Live bytes (some (ok more, s)) l (returns h) = returns h

module _ (sector : ℕ → List ℕ) where
  read_calls-Live :
      (fuel : ℕ) (s : Fat) (cluster offset n l : ℕ)
      → s.heap.live ≡ l
      → After (Live l) (read_calls sector fuel s cluster offset n)
  unfolding read_calls get_cluster_in_chain
  read_calls-Live zero s cluster offset n l h = fails
  read_calls-Live (suc fuel) s cluster offset n l h =
      let size = cluster_size_bytes s.private in
      let b = if ltb n (2 ^ 31) && ltb size n then size else n in
      if-After (leb (2 ^ 31) offset) none _ fails (
        bind-After (get_cluster_in_chain sector s cluster offset) _
          (if-After (size == 0) _ _ fails (chain_loop-Live sector _ s cluster l h))
          (λ found s' g.
            result-After found _ _ (λ e. returns g)
              (λ start_cluster.
                from-After (cluster_to_start_sector s.private start_cluster) _ (λ start.
                  from-After
                    (seek_read sector s'.private.cluster_read_stream
                      (start * disk_sector_size + offset % size) b)
                    _
                    (λ (rc, stream).
                      result-After rc _ _ (λ e. returns g)
                        (λ bytes.
                          if-After (ltb 0 (n - b)) _ _
                            (append_read-Live bytes _ l
                              (read_calls-Live fuel _ cluster (offset + b) (n - b) l g))
                            (returns g)))))))

-- The allocations of a loaded directory.
abbrev directory_blocks : Option FatDirectory → ℕ
directory_blocks none = 0
directory_blocks (some d) = 2

-- `l` live allocations and those of the directory.
abbrev Loaded : ℕ → Option FatDirectory → Fat → Type 0
Loaded l d s = s.heap.live ≡ l + directory_blocks d

pub allocation-true :
    (h : Allocations) (l : ℕ) → h.live ≡ l → (allocation h).0 ≡ true → (allocation h).1.live ≡ l + 1
allocation-true h l e t = allocation-live h ∙ rw (t, e) refl

pub allocation-false :
    (h : Allocations) (l : ℕ) → h.live ≡ l → (allocation h).0 ≡ false → (allocation h).1.live ≡ l
allocation-false h l e t = allocation-live h ∙ rw (t, e) (omega arith)

-- `l` live allocations and the copy.
abbrev Cloned : ℕ → Option (List ℕ) → Allocations → Type 0
Cloned l none h = h.live ≡ l
Cloned l (some entry) h = h.live ≡ l + 1

clone-Cloned :
    (h : Allocations) (raw_entry : List ℕ) (l : ℕ)
    → h.live ≡ l
    → After (Cloned l) (clone_raw_dir_entry h raw_entry directory_entry_size)
unfolding clone_raw_dir_entry
clone-Cloned h raw l e =
    branch-After (allocation h).0 _ _
      (λ t.
        from-After (memcpy (replicate directory_entry_size 0) raw directory_entry_size) _
          (λ copy. returns (allocation-true h l e t)))
      (λ t. returns (allocation-false h l e t))

module _ (sector : ℕ → List ℕ) (max_entries : ℕ) where
  fill_fat_directory-Loaded :
      (s : Fat) (cluster : ℕ) (total : Result ℕ) (l : ℕ)
      → s.heap.live ≡ l + 1
      → After (Loaded l) (fill_fat_directory sector max_entries s cluster total)
  unfolding fill_fat_directory release free_directory read_internal
  fill_fat_directory-Loaded s cluster (err e) l h = fails
  fill_fat_directory-Loaded s cluster (ok total) l h =
      branch-After (allocation s.heap).0 _ _
        (λ t.
          bind-After
            (read_internal sector (record s { heap = (allocation s.heap).1 }) cluster 0
              (total * directory_entry_size % 2 ^ 32))
            _
            (read_calls-Live sector (suc (total * directory_entry_size % 2 ^ 32))
              (record s { heap = (allocation s.heap).1 }) cluster 0
              (total * directory_entry_size % 2 ^ 32) (l + 1 + 1)
              (allocation-true s.heap (l + 1) h t))
            (λ rc s' g.
              result-After rc _ _ (λ e. returns (omega (arith, g)))
                (λ bytes. returns (omega (arith, g)))))
        (λ t. returns (omega (arith, allocation-false s.heap (l + 1) h t)))

  get_total_items_for_directory-Live :
      (s : Fat) (start l : ℕ)
      → s.heap.live ≡ l
      → After (Live l) (get_total_items_for_directory sector max_entries s start)
  unfolding get_total_items_for_directory
  get_total_items_for_directory-Live s start l h = from-After _ _ (λ a. returns h)

  load_fat_directory-Loaded :
      (s : Fat) (raw_entry : List ℕ) (l : ℕ)
      → s.heap.live ≡ l
      → After (Loaded l) (load_fat_directory sector max_entries s raw_entry)
  unfolding load_fat_directory
  load_fat_directory-Loaded s raw l h = from-After (attribute raw) _ (λ flags.
      if-After (bit_and flags fat_file_subdirectory == 0) _ _ (returns (omega (arith, h))) (
        branch-After (allocation s.heap).0 _ _
          (λ t. from-After (get_first_cluster raw) _ (λ cluster.
            from-After (cluster_to_start_sector s.private cluster) _ (λ start.
              bind-After
                (get_total_items_for_directory sector max_entries
                  (record s { heap = (allocation s.heap).1 }) start)
                _
                (get_total_items_for_directory-Live (record s { heap = (allocation s.heap).1 })
                  start (l + 1) (allocation-true s.heap l h t))
                (λ total s' g. fill_fat_directory-Loaded s' cluster total l g))))
          (λ t. returns (omega (arith, allocation-false s.heap l h t)))))

-- `l` live allocations and those of the entry.
abbrev pub Holds : ℕ → Option EasyDirectoryEntry → Fat → Type 0
Holds l none s = s.heap.live ≡ l
Holds l (some e) s = s.heap.live ≡ l + blocks e

module _ (sector : ℕ → List ℕ) (max_entries : ℕ) where
  -- get_easy_entry
  pub get_easy_entry-Holds :
      (s : Fat) (raw_entry : List ℕ) (l : ℕ)
      → s.heap.live ≡ l
      → After (Holds l) (get_easy_entry sector max_entries s raw_entry)
  unfolding get_easy_entry clone_raw_dir_entry
  get_easy_entry-Holds s raw l h =
      branch-After (allocation s.heap).0 _ _
        (λ t.
          let one = allocation-true s.heap l h t in
          from-After (attribute raw) _ (λ flags.
            if-After (bit_and flags fat_file_subdirectory == 0) _ _
              (bind-After (clone_raw_dir_entry (allocation s.heap).1 raw directory_entry_size) _
                (clone-Cloned (allocation s.heap).1 raw (l + 1) one)
                (λ copy h' g. returns (copied copy h' g)))
              (bind-After
                (load_fat_directory sector max_entries (record s { heap = (allocation s.heap).1 })
                  raw)
                _
                (load_fat_directory-Loaded sector max_entries
                  (record s { heap = (allocation s.heap).1 }) raw (l + 1) one)
                (λ d s' g. returns (loaded d s' g)))))
        (λ t. returns (allocation-false s.heap l h t))
    where
      copied :
          (copy : Option (List ℕ)) (h' : Allocations)
          → Cloned (l + 1) copy h'
          → h'.live ≡ l + blocks (file copy)
      copied none h' g = omega (arith, g)
      copied (some e) h' g = omega (arith, g)

      loaded :
          (d : Option FatDirectory) (s' : Fat)
          → Loaded (l + 1) d s'
          → s'.heap.live ≡ l + blocks (directory d)
      loaded none s' g = omega (arith, g)
      loaded (some e) s' g = omega (arith, g)
