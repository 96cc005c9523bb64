-- ===== src/Tests/Disk.antt =====
-- src/disk at a drive whose sectors are filled with their own number.
use conifer_os.Common.{ℕ, ◌≡◌, arith, some, List, replicate, length-replicate, ok}
use conifer_os.Disk.{disk_sector_size, disk_stream_read}
use conifer_os.Disk.Stream.{bytes, disk_stream_read-bytes}

abbrev sector : ℕ → List ℕ
sector lba = replicate disk_sector_size lba

disk_stream_read-bytes_example :
    disk_stream_read sector 1101 (record { pos = 500; disk = 0 }) 1100
    ≡ some (ok (bytes sector 500 1100), record { pos = 1600; disk = 0 })
disk_stream_read-bytes_example =
    disk_stream_read-bytes sector (λ lba. length-replicate disk_sector_size lba) 1101 500 1100
      (omega arith) (omega arith)
