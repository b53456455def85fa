-- ===== src/Fs/File.antt =====
-- kernel/fs/file.c: reading and writing open files. Buffers are functions of the offset.
pub mod Read
pub mod Write
pub mod Paths
pub mod Copy
mod Tests
use miyar_os.Base.{
  ℕ, zero, suc, ◌+◌, ◌-◌, ◌*◌, ◌%◌, ◌^◌, Option, none, some, List, [], ◌∷◌, ◌&&◌, ltb, leb, ◌==◌,
  if◌then◌else◌,
}
use miyar_os.Fs.Disk.{Drive, Sector}
use miyar_os.Fs.Fat32.{Fat32}
use miyar_os.Fs.Directory.Entry.{Entry, directory_entry_cluster, file_size}

-- `file_t`; the disk is an argument of the operations, and `current_cluster_index`, which nothing
-- uses, is left out.
pub record File : Type 0 where
  pub first_cluster : ℕ
  pub current_cluster : ℕ
  pub size : ℕ
  pub position : ℕ
  pub parent_cluster : ℕ
  pub entry : Entry

-- What the functions return: a number of bytes, or the negative number with this absolute value.
pub data Count : Type 0 where
  bytes error : ℕ → Count

-- `(int)n` of a `uint32_t`.
unfoldable pub as_int : (n : ℕ) → Count
as_int n = if ltb n (2 ^ 31) then bytes n else error (2 ^ 32 - n)

unfoldable pub file_open : (disk : ℕ) → (parent_cluster : ℕ) → Entry → Option File
file_open disk parent_cluster e =
    if disk == 0
    then none
    else some (record {
      first_cluster = directory_entry_cluster e;
      current_cluster = directory_entry_cluster e;
      size = file_size e;
      position = 0;
      parent_cluster = parent_cluster;
      entry = e;
    })

-- `fs->bytes_per_sector * fs->sectors_per_cluster`
abbrev pub cluster_size : Fat32 → ℕ
cluster_size fs = fs.bytes_per_sector * fs.sectors_per_cluster % 2 ^ 32

-- The sectors of a cluster in a buffer, the sector `i` at `i * fs->bytes_per_sector`.
unfoldable pub place_sectors : (bytes_per_sector i : ℕ) → List Sector → (buffer : ℕ → ℕ) → ℕ → ℕ
place_sectors b i [] buffer = buffer
place_sectors b i (s ∷ ss) buffer =
    place_sectors b (i + 1) ss
      (λ j. if leb (i * b) j && ltb j (i * b + 512) then s (j - i * b) else buffer j)

-- `n` bytes of a buffer.
unfoldable pub slice : (n from : ℕ) → (ℕ → ℕ) → List ℕ
slice zero from b = []
slice (suc n) from b = b from ∷ slice n (from + 1) b
