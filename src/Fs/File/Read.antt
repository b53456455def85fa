-- ===== src/Fs/File/Read.antt =====
-- `file_read`.
pub mod Bytes
pub mod Rounds
pub mod Laws
use miyar_os.Base.{
  ℕ, zero, suc, ◌+◌, ◌-◌, ◌%◌, ◌^◌, min, Bool, not, ◌&&◌, ◌||◌, Option, none, some, List, [], ◌∷◌,
  ◌++◌, ◌==◌, ltb, leb, if◌then◌else◌,
}
use miyar_os.Fs.Disk.{Drive, Sector}
use miyar_os.Fs.Fat32.{Volume, read_cluster, next_cluster, invalid_cluster}
use miyar_os.Fs.File.{File, Count, bytes, error, as_int, cluster_size, place_sectors, slice}

-- What a call leaves: the result, the bytes in the caller's buffer, and the file.
pub record Reading : Type 0 where
  pub result : Count
  pub data_read : List ℕ
  pub file : File

module _ (D : Drive) (disk : ℕ) where
  -- A round that has read the cluster: how many bytes it copies, and the file after it.
  abbrev pub round_size : Volume D → File → (left : ℕ) → ℕ
  round_size v f left = min left (cluster_size v.fs - f.position % cluster_size v.fs)

  abbrev pub moved : File → ℕ → File
  moved f n = record f { position = (f.position + n) % 2 ^ 32 }

  -- The loop of `file_read`. A round copies a byte at least, so that the size is fuel enough.
  -- `buffer` is what the cluster buffer held before.
  unfoldable pub read_loop :
      (fuel : ℕ)
      → (buffer : ℕ → ℕ) → Volume D
      → File
      → (size bytes_read : ℕ) → (out : List ℕ) → Reading
  read_loop zero buffer v f size n out = record { result = as_int n; data_read = out; file = f }
  read_loop (suc fuel) buffer v f size n out = elim (read_cluster D disk v f.current_cluster) [
    | none ↦ record {
      result = if ltb n size then if ltb 0 n then as_int n else error 1 else as_int n;
      data_read = out;
      file = f;
    }
    | some sectors ↦
        let held = place_sectors v.fs.bytes_per_sector 0 sectors buffer in
        let k = round_size v f (size - n) in
        let g = moved f k in
        let out' = out ++ slice k (f.position % cluster_size v.fs) held in
        let next = next_cluster D disk v f.current_cluster in
        let on = read_loop fuel held v (record g { current_cluster = next }) size (n + k) out' in
        let same = read_loop fuel held v g size (n + k) out' in
        if not (ltb n size)
        then record { result = as_int n; data_read = out; file = f }
        else if (g.position % cluster_size v.fs == 0) && ltb (n + k) size
        then if leb invalid_cluster next
          then record { result = as_int (n + k); data_read = out'; file = g }
          else on
        else same
  ]

  -- The pointers are there.
  unfoldable pub file_read : (buffer : ℕ → ℕ) → Volume D → File → (size : ℕ) → Reading
  file_read buffer v f size =
      let wanted = min size (f.size - f.position) in
      if leb f.size f.position
      then record { result = bytes 0; data_read = []; file = f }
      else if (cluster_size v.fs == 0) || ltb 4096 (cluster_size v.fs)
      then record { result = error 1; data_read = []; file = f }
      else read_loop wanted buffer v f wanted 0 []
