-- ===== src/Fs/File/Write.antt =====
-- `file_write` and `file_append`. A result `none` stands for a loop that does not end. The size of
-- a cluster, by which the source divides, is not 0.
pub mod Laws
use miyar_os.Base.{
  ℕ, zero, suc, ◌+◌, ◌-◌, ◌*◌, ◌%◌, ◌^◌, min, Bool, true, false, not, ◌&&◌, Option, none, some,
  ◌==◌, ltb, leb, if◌then◌else◌,
}
use miyar_os.Fs.Disk.{Drive}
use miyar_os.Fs.Fat32.{
  Volume, read_cluster, next_cluster, invalid_cluster, write_sector, cluster_to_sector,
  allocate_cluster, append_cluster, last_cluster,
}
use miyar_os.Fs.Directory.Entry.{set_file_size, directory_set_entry_cluster}
use miyar_os.Fs.Directory.Slots.{directory_update_entry}
use miyar_os.Fs.File.{File, Count, as_int, error, cluster_size, place_sectors}

-- `memcpy(cluster_buffer + offset, source + from, n)`
unfoldable pub copy_in : (held : ℕ → ℕ) → (offset from n : ℕ) → (source : ℕ → ℕ) → ℕ → ℕ
copy_in held offset from n source j =
    if leb offset j && ltb j (offset + n) then source (from + (j - offset)) else held j

module _ (D : Drive) (disk : ℕ) where
  -- What a call leaves.
  pub record Writing : Type 0 where
    pub result : Count
    pub file : File
    pub volume : Volume D

  -- The loop of `file_write_cluster`.
  unfoldable pub write_sectors :
      (rounds i first : ℕ) → (buffer : ℕ → ℕ) → Volume D → Bool × Volume D
  write_sectors zero i first buffer v = (true, v)
  write_sectors (suc n) i first buffer v =
      let (ok, v') =
        write_sector D disk v ((first + i) % 2 ^ 32)
          (λ j. buffer (i * v.fs.bytes_per_sector + j)) in
      let rest = write_sectors n (i + 1) first buffer v' in if ok then rest else (false, v')

  unfoldable pub file_write_cluster : Volume D → (cluster : ℕ) → (buffer : ℕ → ℕ) → Bool × Volume D
  file_write_cluster v cluster buffer =
      if disk == 0
      then (false, v)
      else write_sectors v.fs.sectors_per_cluster 0 (cluster_to_sector v.fs cluster) buffer v

  unfoldable pub file_read_cluster : Volume D → (cluster : ℕ) → (buffer : ℕ → ℕ) → Option (ℕ → ℕ)
  file_read_cluster v cluster buffer =
      if disk == 0 then none else elim (read_cluster D disk v cluster) [
        | none ↦ none
        | some ss ↦ some (place_sectors v.fs.bytes_per_sector 0 ss buffer)
      ]

  -- The loop ends, or the function returns from it.
  pub data Loop : Type 0 where
    left : File → Volume D → (written : ℕ) → Loop
    returned : Writing → Loop

  abbrev stop : Count → File → Volume D → Loop
  stop c f v = returned (record { result = c; file = f; volume = v })

  -- The cluster to go on with: the next of the chain, or one more. The inner `none` is a failure.
  unfoldable pub advance : (fuel : ℕ) → Volume D → (current : ℕ) → Option (Option ℕ × Volume D)
  advance fuel v current =
      let next = next_cluster D disk v current in
      let (new, v1) = allocate_cluster D disk v in
      if not (next == invalid_cluster)
      then some (some next, v)
      else if new == 0
      then some (none, v1)
      else elim (append_cluster D disk fuel v1 current new) [
        | none ↦ none
        | some (ok, v2) ↦ some (if ok then some new else none, v2)
      ]

  -- The loop of `file_write_internal`. A round writes a byte at least, so that the size bounds the
  -- rounds; the walk along a chain takes fuel of its own. `buffer` is what the cluster buffer held.
  unfoldable pub write_loop :
      (rounds fuel : ℕ)
      → (buffer source : ℕ → ℕ) → Volume D
      → File
      → (size written : ℕ) → Option Loop
  write_loop zero fuel buffer source v f size n = if ltb n size then none else some (left f v n)
  write_loop (suc rounds) fuel buffer source v f size n =
      if not (ltb n size)
      then some (left f v n)
      else elim (file_read_cluster v f.current_cluster buffer) [
        | none ↦ some (stop (if ltb 0 n then as_int n else error 103) f v)
        | some held ↦
            let cs = cluster_size v.fs in
            let offset = f.position % cs in
            let k = min (size - n) (cs - offset) in
            let filled = copy_in held offset n k source in
            let (ok, v1) = file_write_cluster v f.current_cluster filled in
            let g = record f { position = (f.position + k) % 2 ^ 32 } in
            if not ok
            then some (stop (if ltb 0 n then as_int n else error 104) f v1)
            else if n + k == size
            then some (left g v1 (n + k))
            else elim (advance fuel v1 f.current_cluster) [
              | none ↦ none
              | some (none, v2) ↦ some (stop (as_int (n + k)) g v2)
              | some (some next, v2) ↦
                  write_loop rounds fuel filled source v2 (record g { current_cluster = next }) size
                    (n + k)
            ]
      ]

  -- The size, and the entry in the directory.
  unfoldable pub finish_write : (fuel : ℕ) → Volume D → File → (written : ℕ) → Option Writing
  finish_write fuel v f n =
      let size = if ltb f.size f.position then f.position else f.size in
      let g = record f { size = size; entry = set_file_size f.entry size } in
      elim (directory_update_entry D disk fuel v g.parent_cluster g.entry) [
        | none ↦ none
        | some (ok, v') ↦
            some (record { result = if ok then as_int n else error 105; file = g; volume = v' })
      ]

  -- The first cluster of a file that has none.
  unfoldable pub first_cluster_of : Volume D → File → Option File × Volume D
  first_cluster_of v f =
      let (new, v') = allocate_cluster D disk v in
      let e = directory_set_entry_cluster f.entry new in
      if not (f.first_cluster == 0)
      then (some f, v)
      else if new == 0
      then (none, v')
      else (some (record f { first_cluster = new; current_cluster = new; entry = e }), v')

  unfoldable pub file_write_internal :
      (fuel : ℕ) → (buffer source : ℕ → ℕ) → Volume D → File → (size : ℕ) → Option Writing
  file_write_internal fuel buffer source v f size =
      let (started, v1) = first_cluster_of v f in
      elim started [
        | none ↦ some (record { result = error 101; file = f; volume = v1 })
        | some g ↦
            if ltb 4096 (cluster_size v1.fs)
            then some (record { result = error 102; file = g; volume = v1 })
            else elim (write_loop size fuel buffer source v1 g size 0) [
              | none ↦ none
              | some (returned w) ↦ some w
              | some (left h v2 n) ↦ finish_write fuel v2 h n
            ]
      ]

  unfoldable pub file_write :
      (fuel : ℕ) → (buffer source : ℕ → ℕ) → Volume D → File → (size : ℕ) → Option Writing
  file_write fuel buffer source v f size =
      let g = record f {
        position = 0;
        size = 0;
        current_cluster = f.first_cluster;
        entry = set_file_size f.entry 0;
      } in
      elim (directory_update_entry D disk fuel v g.parent_cluster g.entry) [
        | none ↦ none
        | some (false, v') ↦ some (record { result = error 1; file = g; volume = v' })
        | some (true, v') ↦ file_write_internal fuel buffer source v' g size
      ]

  unfoldable pub file_append :
      (fuel : ℕ) → (buffer source : ℕ → ℕ) → Volume D → File → (size : ℕ) → Option Writing
  file_append fuel buffer source v f size = elim (last_cluster D disk fuel f.first_cluster v) [
    | none ↦ none
    | some last ↦
        file_write_internal fuel buffer source v
          (record f { position = f.size; current_cluster = last }) size
  ]
