-- ===== src/Fs/File/Read/Laws.antt =====
-- A read gives the bytes of the file's chain of clusters.
use mathlib.Core.List.{append_assoc}
use native.Mathlib.Nat.{mod-lt, mod-eq_of_lt}
use miyar_os.Base.{
  ℕ, zero, suc, ◌+◌, ◌-◌, ◌%◌, ◌^◌, ◌<◌, ◌≤◌, ◌≡◌, ◌≢◌, min, refl, sym, ap, ◌∙◌, inl, inr, false,
  ◌||◌, some, List, [], ◌∷◌, ◌++◌, take, drop, ◌==◌, ltb, leb, if◌then◌else◌, Bool-cases, arith,
}
use miyar_os.Fs.Disk.{Drive, Sector}
use miyar_os.Fs.File.Read.Bytes.{take-slice, take-slice_past}
use miyar_os.Fs.Fat32.{Volume, read_cluster, next_cluster}
use miyar_os.Fs.File.{File, bytes, error, as_int, cluster_size, place_sectors, slice}
use miyar_os.Fs.File.Read.{Reading, read_loop, file_read}
use miyar_os.Fs.File.Read.Rounds.{
  Chain, last, more, content, capacity, position-boundary, read_loop-final, read_loop-boundary,
  copied,
}

module _ {D : Drive} (disk : ℕ) (v : Volume D) (bps : v.fs.bytes_per_sector ≡ 512) where
  -- What the loop gives: the number of bytes, the bytes, and the position.
  abbrev Gives : Reading → (size : ℕ) → (out : List ℕ) → (position : ℕ) → Type 0
  Gives r size out position =
      (r.result ≡ as_int size) × (r.data_read ≡ out) × (r.file.position ≡ position)

  gives :
      {r r' : Reading} (size : ℕ) {position position' : ℕ} {out out' : List ℕ}
      → r ≡ r'
      → Gives r' size out position
      → out ≡ out'
      → position ≡ position'
      → Gives r size out' position'
  gives size same (count, copy, place) copy' place' = (
    (λ i. (same i).result) ∙ count,
    (λ i. (same i).data_read) ∙ copy ∙ copy',
    (λ i. (same i).file.position) ∙ place ∙ place',
  )

  final-Gives :
      (fuel : ℕ) (buffer : ℕ → ℕ) (f : File) (size n left : ℕ) (out : List ℕ) (ss : List Sector)
      (tail : List (List Sector))
      → left ≢ 0
      → n + left ≡ size
      → f.position + left < 2 ^ 32
      → (f.position % cluster_size v.fs) + left ≤ cluster_size v.fs
      → read_cluster D disk v f.current_cluster ≡ some ss
      → Gives
          (read_loop D disk (suc fuel) buffer v f size n out)
          size
          (out
            ++ take left (drop (f.position % cluster_size v.fs) (content disk v bps (ss ∷ tail))))
          (f.position + left)
  unfolding content
  final-Gives fuel buffer f size n left out ss tail some_left sum bound_32 fits got =
      let r = f.position % cluster_size v.fs in
      let part = copied disk v bps buffer f.current_cluster r left ss got fits in
      let held = place_sectors 512 0 ss (λ j. 0) in
      let start : r ≡ 0 + r = omega arith in
      let taken = take-slice r left (cluster_size v.fs) 0 held (content disk v bps tail) fits in
      gives size
        (read_loop-final disk v bps fuel buffer f size n left out ss some_left sum
          (omega (arith, fits)) got)
        (refl, refl, refl)
        (ap (λ x. out ++ x) (part ∙ ap (λ x. slice left x held) start ∙ sym taken))
        (mod-eq_of_lt bound_32)

  read_loop-content :
      (fuel : ℕ) (buffer : ℕ → ℕ) (f : File) (size n left : ℕ) (out : List ℕ)
      {sss : List (List Sector)}
      → Chain disk v bps f.current_cluster sss
      → 0 < cluster_size v.fs
      → left ≢ 0
      → left ≤ fuel
      → n + left ≡ size
      → f.position + left < 2 ^ 32
      → (f.position % cluster_size v.fs) + left ≤ capacity disk v bps sss
      → Gives
          (read_loop D disk fuel buffer v f size n out)
          size
          (out ++ take left (drop (f.position % cluster_size v.fs) (content disk v bps sss)))
          (f.position + left)
  unfolding content capacity
  read_loop-content zero buffer f size n left out chain positive some_left enough sum bound_32
        fits =
      absurd (omega (arith, some_left, enough))
  read_loop-content (suc fuel) buffer f size n left out (last got) positive some_left enough sum
        bound_32 fits =
      final-Gives fuel buffer f size n left out _ [] some_left sum bound_32 (omega (arith, fits))
        got
  read_loop-content (suc fuel) buffer f size n left out (more {c} {ss} {rest} got valid chain)
        positive some_left enough sum bound_32 fits =
      let cs = cluster_size v.fs in
      let r = f.position % cs in
      let small = mod-lt f.position positive in
      elim (Bool-cases (leb (r + left) cs)) [
        | inl whole ↦
            final-Gives fuel buffer f size n left out ss rest some_left sum bound_32 (ground arith)
              got
        | inr past ↦
            let k = cs - r in
            let cut : k < left = ground arith in
            let m = left - k in
            let held = place_sectors v.fs.bytes_per_sector 0 ss buffer in
            let g = record f {
              position = f.position + k;
              current_cluster = next_cluster D disk v c;
            } in
            let zeroed : (f.position + k) % cs ≡ 0 = position-boundary f.position cs positive in
            let h =
              read_loop-content fuel held g size (n + k) m (out ++ slice k r held) chain positive
                (omega (arith, cut)) (omega (arith, enough, small, cut)) (omega (arith, sum, cut))
                (omega (arith, bound_32, cut)) (omega (arith, zeroed, fits, cut, small)) in
            let step =
              read_loop-boundary disk v bps fuel buffer f size n left out ss sum positive bound_32
                cut got valid in
            let placed = place_sectors 512 0 ss (λ j. 0) in
            let start : 0 + r ≡ r = omega arith in
            let parts : k + m ≡ left = omega (arith, cut) in
            let tail : take m (drop (g.position % cs) (content disk v bps rest))
                ≡ take m (content disk v bps rest) =
              ap (λ x. take m (drop x (content disk v bps rest))) zeroed in
            let here =
              copied disk v bps buffer c r k ss got (omega (arith, small))
              ∙ ap (λ x. slice k x placed) (sym start) in
            let past_end =
              take-slice_past r k cs m 0 placed (content disk v bps rest) (omega (arith, small)) in
            gives size step h
              (append_assoc out (slice k r held) _
                ∙ ap (λ x. out ++ x)
                    ((λ i. here i ++ tail i)
                      ∙ sym past_end
                      ∙ ap (λ x. take x (drop r (slice cs 0 placed ++ content disk v bps rest)))
                          parts))
              (omega (arith, cut))
      ]

  -- On sectors of 512 bytes, where a cluster has from 1 to 4096 bytes, the size of the file fits 32
  -- bits and `current_cluster` is the cluster of the position: a read of some bytes before the end
  -- of the file, with clusters of the chain that can be read and reach as far as it goes, gives the
  -- bytes of the chain's clusters from the position on, as many as asked for or left, and moves the
  -- position by as many. It returns that number if it is below 2 ^ 31, and from there on the
  -- negative number that is 2 ^ 32 less.
  pub file_read-content :
      (buffer : ℕ → ℕ) (f : File) (size : ℕ) {sss : List (List Sector)}
      → Chain disk v bps f.current_cluster sss
      → 0 < cluster_size v.fs
      → cluster_size v.fs ≤ 4096
      → 0 < size
      → f.position < f.size
      → f.size < 2 ^ 32
      → (f.position % cluster_size v.fs) + min size (f.size - f.position) ≤ capacity disk v bps sss
      → (let wanted = min size (f.size - f.position) in
          let r = file_read D disk buffer v f size in
          (r.result ≡ (if ltb wanted (2 ^ 31) then bytes wanted else error (2 ^ 32 - wanted)))
          × (r.data_read
              ≡ take wanted (drop (f.position % cluster_size v.fs) (content disk v bps sss)))
          × (r.file.position ≡ f.position + wanted))
  unfolding file_read as_int
  file_read-content buffer f size chain positive small some_bytes inside bound_32 fits =
      let wanted = min size (f.size - f.position) in
      let before : leb f.size f.position ≡ false = ground arith in
      let sound : (cluster_size v.fs == 0) || ltb 4096 (cluster_size v.fs) ≡ false = ground arith in
      let runs : file_read D disk buffer v f size ≡ read_loop D disk wanted buffer v f wanted 0 [] =
        rw (before, sound) in
      gives wanted runs
        (read_loop-content wanted buffer f wanted 0 wanted [] chain positive
          (omega (arith, some_bytes, inside)) (omega arith) (omega arith)
          (omega (arith, bound_32, inside)) (omega (arith, fits)))
        refl refl
