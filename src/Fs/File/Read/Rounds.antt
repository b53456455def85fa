-- ===== src/Fs/File/Read/Rounds.antt =====
-- The rounds of the loop of `file_read`, and the chain of clusters that it reads.
use native.Mathlib.Nat.{mod-lt, mod-le, mod-add-mod, mod-eq_of_lt, mod_self}
use miyar_os.Base.{
  ℕ, zero, suc, ◌+◌, ◌-◌, ◌*◌, ◌%◌, ◌^◌, ◌<◌, ◌≤◌, ◌≡◌, ◌≢◌, min, refl, sym, ap, ◌∙◌, inl, inr,
  true, false, ◌&&◌, none, some, bound, List, [], ◌∷◌, ◌++◌, length, ◌==◌, ltb, leb, if◌then◌else◌,
  Option-cases, arith,
}
use mathlib.Core.Option.{some-injective}
use miyar_os.Fs.Disk.{Drive, Sector, disk_read}
use miyar_os.Fs.File.Read.Bytes.{slice-alike, place_sectors-alike}
use miyar_os.Fs.Fat32.{Volume, read_sectors, read_cluster, next_cluster, invalid_cluster}
use miyar_os.Fs.File.{File, as_int, cluster_size, place_sectors, slice}
use miyar_os.Fs.File.Read.{read_loop, round_size, moved}

-- A position moved to the next multiple of the size of a cluster.
pub position-boundary : (p m : ℕ) → 0 < m → (p + (m - p % m)) % m ≡ 0
position-boundary p m positive =
    let small = mod-lt p positive in
    let whole : p % m + (m - p % m) ≡ m = omega (arith, small) in
    sym (mod-add-mod p m (m - p % m)) ∙ ap (λ x. x % m) whole ∙ mod_self m

module _ {D : Drive} (disk : ℕ) (v : Volume D) (bps : v.fs.bytes_per_sector ≡ 512) where
  -- The clusters of a chain from one on, as far as a read goes, with their sectors.
  pub data Chain : ℕ → List (List Sector) → Type 0 where
    last : {c : ℕ} {ss : List Sector} → read_cluster D disk v c ≡ some ss → Chain c (ss ∷ [])
    more :
        {c : ℕ} {ss : List Sector} {rest : List (List Sector)}
        → read_cluster D disk v c ≡ some ss
        → leb invalid_cluster (next_cluster D disk v c) ≡ false
        → Chain (next_cluster D disk v c) rest
        → Chain c (ss ∷ rest)

  -- The bytes of the clusters, one after the other.
  unfoldable pub content : List (List Sector) → List ℕ
  content [] = []
  content (ss ∷ rest) =
      slice (cluster_size v.fs) 0 (place_sectors 512 0 ss (λ j. 0)) ++ content rest

  unfoldable pub capacity : List (List Sector) → ℕ
  capacity [] = 0
  capacity (ss ∷ rest) = cluster_size v.fs + capacity rest

  -- A round of the loop that has bytes to copy.
  read_loop-round :
      (fuel : ℕ) (buffer : ℕ → ℕ) (f : File) (size n : ℕ) (out : List ℕ) (ss : List Sector)
      → n < size
      → read_cluster D disk v f.current_cluster ≡ some ss
      → read_loop D disk (suc fuel) buffer v f size n out ≡ (
          let held = place_sectors v.fs.bytes_per_sector 0 ss buffer in
          let k = round_size D disk v f (size - n) in
          let g = moved D disk f k in
          let out' = out ++ slice k (f.position % cluster_size v.fs) held in
          let next = next_cluster D disk v f.current_cluster in
          if (g.position % cluster_size v.fs == 0) && ltb (n + k) size
          then if leb invalid_cluster next
            then record { result = as_int (n + k); data_read = out'; file = g }
            else read_loop D disk fuel held v
                (record g { current_cluster = next })
                size
                (n + k)
                out'
          else read_loop D disk fuel held v g size (n + k) out')
  unfolding read_loop
  read_loop-round fuel buffer f size n out ss lt got =
      let goes : ltb n size ≡ true = ground arith in rw (read_loop, got, goes)

  -- The loop that has copied all.
  read_loop-done :
      (fuel : ℕ) (buffer : ℕ → ℕ) (f : File) (size : ℕ) (out : List ℕ)
      → read_loop D disk fuel buffer v f size size out
        ≡ record { result = as_int size; data_read = out; file = f }
  unfolding read_loop
  read_loop-done zero buffer f size out = refl
  read_loop-done (suc fuel) buffer f size out =
      let stops : ltb size size ≡ false = ground arith in
      elim (Option-cases (read_cluster D disk v f.current_cluster)) [
        | inl failed ↦ rw (read_loop, failed, stops)
        | inr (ss, got) ↦ rw (read_loop, got, stops)
      ]

  -- A round that copies all that is left.
  pub read_loop-final :
      (fuel : ℕ) (buffer : ℕ → ℕ) (f : File) (size n left : ℕ) (out : List ℕ) (ss : List Sector)
      → left ≢ 0
      → n + left ≡ size
      → left ≤ cluster_size v.fs - f.position % cluster_size v.fs
      → read_cluster D disk v f.current_cluster ≡ some ss
      → read_loop D disk (suc fuel) buffer v f size n out ≡ record {
        result = as_int size;
        data_read =
            out
            ++ slice left
                (f.position % cluster_size v.fs)
                (place_sectors v.fs.bytes_per_sector 0 ss buffer);
        file = moved D disk f left;
      }
  read_loop-final fuel buffer f size n left out ss some_left sum fits got =
      let less : n < size = omega (arith, some_left, sum) in
      let rest : size - n ≡ left = omega (arith, sum) in
      let whole : min left (cluster_size v.fs - f.position % cluster_size v.fs) ≡ left =
        ground arith in
      let stops : ltb size size ≡ false = ground arith in
      let tested : ((moved D disk f left).position % cluster_size v.fs == 0) && ltb size size
          ≡ false =
        ground arith in
      let held = place_sectors v.fs.bytes_per_sector 0 ss buffer in
      let ended =
        read_loop-done fuel held (moved D disk f left) size
          (out ++ slice left (f.position % cluster_size v.fs) held) in
      read_loop-round fuel buffer f size n out ss less got ∙ rw (rest, whole, sum, tested, ended)

  -- A round that ends at the cluster's end, with more to read.
  pub read_loop-boundary :
      (fuel : ℕ) (buffer : ℕ → ℕ) (f : File) (size n left : ℕ) (out : List ℕ) (ss : List Sector)
      → n + left ≡ size
      → 0 < cluster_size v.fs
      → f.position + left < 2 ^ 32
      → cluster_size v.fs - f.position % cluster_size v.fs < left
      → read_cluster D disk v f.current_cluster ≡ some ss
      → leb invalid_cluster (next_cluster D disk v f.current_cluster) ≡ false
      → (let k = cluster_size v.fs - f.position % cluster_size v.fs in
          let held = place_sectors v.fs.bytes_per_sector 0 ss buffer in
          read_loop D disk (suc fuel) buffer v f size n out
          ≡ read_loop D disk fuel held v
              (record f {
                position = f.position + k;
                current_cluster = next_cluster D disk v f.current_cluster;
              })
              size
              (n + k)
              (out ++ slice k (f.position % cluster_size v.fs) held))
  read_loop-boundary fuel buffer f size n left out ss sum positive bound cut got valid =
      let less : n < size = omega (arith, sum, cut) in
      let rest : size - n ≡ left = omega (arith, sum) in
      let k = cluster_size v.fs - f.position % cluster_size v.fs in
      let part : min left k ≡ k = ground arith in
      let goes : ltb (n + k) size ≡ true = ground arith in
      let kept : (f.position + k) % 2 ^ 32 ≡ f.position + k =
        mod-eq_of_lt (omega (arith, bound, cut)) in
      let over : (f.position + k) % cluster_size v.fs ≡ 0 =
        position-boundary f.position (cluster_size v.fs) positive in
      let zeroed : (f.position + k) % cluster_size v.fs == 0 ≡ true = ground arith in
      read_loop-round fuel buffer f size n out ss less got
      ∙ rw (rest, part, kept, zeroed, goes, valid)

  read_sectors-length :
      (n lba : ℕ) (w : Volume D) (ss : List Sector)
      → read_sectors D disk n lba w ≡ some ss
      → length ss ≡ n
  unfolding read_sectors
  read_sectors-length zero lba w ss h = sym (ap length (some-injective _ _ h))
  read_sectors-length (suc n) lba w ss h =
      elim (Option-cases (disk_read D disk w.ata (lba % 2 ^ 32))) [
        | inl failed ↦
            let stuck : read_sectors D disk (suc n) lba w ≡ none = rw (read_sectors, failed) in
            absurd (ground arith)
        | inr (s, got) ↦ elim (Option-cases (read_sectors D disk n (lba + 1) w)) [
          | inl failed ↦
              let stuck : read_sectors D disk (suc n) lba w ≡ none =
                rw (read_sectors, got, failed) in
              absurd (ground arith)
          | inr (rest, read) ↦
              let both : read_sectors D disk (suc n) lba w ≡ some (s ∷ rest) =
                rw (read_sectors, got, read) in
              let len = read_sectors-length n (lba + 1) w rest read in
              ap length (some-injective _ _ (sym h ∙ both)) ∙ ap suc len
        ]
      ]

  -- What a round copies are bytes of the cluster.
  pub copied :
      (buffer : ℕ → ℕ) (c from k : ℕ) (ss : List Sector)
      → read_cluster D disk v c ≡ some ss
      → from + k ≤ cluster_size v.fs
      → slice k from (place_sectors v.fs.bytes_per_sector 0 ss buffer)
        ≡ slice k from (place_sectors 512 0 ss (λ j. 0))
  unfolding read_cluster
  copied buffer c from k ss got inside =
      let count : length ss ≡ v.fs.sectors_per_cluster = read_sectors-length _ _ v ss got in
      let whole : cluster_size v.fs ≤ length ss * 512 =
        let form : cluster_size v.fs ≡ 512 * v.fs.sectors_per_cluster % 2 ^ 32 =
          ap (λ b. b * v.fs.sectors_per_cluster % 2 ^ 32) bps in
        omega (arith, count, form, mod-le (512 * v.fs.sectors_per_cluster) (2 ^ 32)) in
      ap (λ b. slice k from (place_sectors b 0 ss buffer)) bps
      ∙ slice-alike k from _ _ (λ j lo hi.
        place_sectors-alike 0 ss buffer (λ j. 0) j
          (inr (omega arith, omega (arith, hi, inside, whole))))
