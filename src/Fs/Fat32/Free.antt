-- ===== src/Fs/Fat32/Free.antt =====
-- `fat32_free_cluster_chain` on a chain that ends.
use mathlib.Core.Path.{subst}
use miyar_os.Base.{
  ℕ, zero, suc, ◌≤◌, ◌≡◌, ◌≢◌, sym, ap, ◌∙◌, inl, inr, true, false, List, [], ◌∷◌, length, ◌==◌,
  leb, if◌then◌else◌, Bool-cases, arith,
}
use miyar_os.Fs.Disk.{Drive, IsReliable}
use miyar_os.Fs.Fat32.{
  Volume, in_table, read_fat_entry, write_fat_entry, free_loop, free_cluster_chain, invalid_cluster,
  cluster_last, cluster_free,
}
use miyar_os.Fs.Fat32.Geometry.{IsGeometry}
use miyar_os.Fs.Fat32.Entry.{write_fat_entry_lem}

-- A number that is not in a list.
abbrev pub Missing : ℕ → List ℕ → Type 0
Missing c [] = Unit
Missing c (d ∷ ds) = (c ≢ d) × Missing c ds

abbrev pub AllDiffer : List ℕ → Type 0
AllDiffer [] = Unit
AllDiffer (c ∷ cs) = Missing c cs × AllDiffer cs

module _ {D : Drive} (disk : ℕ) where
  -- The clusters of a chain in the table, from the first to the one that is marked as the last.
  pub data FatChain (v : Volume D) : ℕ → List ℕ → Type 0 where
    final :
        {c : ℕ}
        → in_table v.fs c ≡ true
        → read_fat_entry D disk v c == invalid_cluster ≡ false
        → leb cluster_last (read_fat_entry D disk v c) ≡ true
        → FatChain v c (c ∷ [])
    link :
        {c : ℕ} {cs : List ℕ}
        → in_table v.fs c ≡ true
        → read_fat_entry D disk v c == invalid_cluster ≡ false
        → leb cluster_last (read_fat_entry D disk v c) ≡ false
        → FatChain v (read_fat_entry D disk v c) cs
        → FatChain v c (c ∷ cs)

  -- Every entry of a list reads as free.
  abbrev pub AllFree : Volume D → List ℕ → Type 0
  AllFree v [] = Unit
  AllFree v (c ∷ cs) = (read_fat_entry D disk v c ≡ cluster_free) × AllFree v cs

  -- The volume after the clusters have been freed.
  pub record Freed (v v' : Volume D) (cs : List ℕ) : Type 0 where
    pub free : AllFree v' cs
    pub others : (e : ℕ) → Missing e cs → read_fat_entry D disk v' e ≡ read_fat_entry D disk v e
    pub fs : v'.fs ≡ v.fs

  FatChain-alike :
      {v w : Volume D} {c : ℕ} (a : ℕ) {cs : List ℕ}
      → w.fs ≡ v.fs
      → ((e : ℕ) → e ≢ a → read_fat_entry D disk w e ≡ read_fat_entry D disk v e)
      → Missing a cs
      → FatChain v c cs
      → FatChain w c cs
  FatChain-alike {v} {w} {c} a fs same out (final inside valid ends) =
      let here = same c (λ e. out.0 (sym e)) in final (rw fs inside) (rw here valid) (rw here ends)
  FatChain-alike {v} {w} {c} a fs same out (link {c = c'} {cs = rest} inside valid goes chain) =
      let here = same c (λ e. out.0 (sym e)) in
      link (rw fs inside) (rw here valid) (rw here goes)
        (subst (λ n. FatChain w n rest) (sym here) (FatChain-alike a fs same out.1 chain))

  -- A round that has freed its cluster.
  free_loop-goes :
      (left c : ℕ) (v v' : Volume D)
      → in_table v.fs c ≡ true
      → read_fat_entry D disk v c == invalid_cluster ≡ false
      → free_loop D disk (suc left) c v ≡ (true, v')
      → (w : Volume D) × (write_fat_entry D disk v c cluster_free ≡ (true, w))
        × ((if leb cluster_last (read_fat_entry D disk v c)
              then (true, w)
              else free_loop D disk left (read_fat_entry D disk v c) w)
            ≡ (true, v'))
  unfolding free_loop
  free_loop-goes left c v v' inside valid h =
      let r = write_fat_entry D disk v c cluster_free in
      elim (Bool-cases r.0) [
        | inr failed ↦
            let run : free_loop D disk (suc left) c v ≡ (false, r.1) =
              rw (free_loop, inside, valid, failed) in
            let no_end = ap (λ x. x.0) (sym run ∙ h) in absurd (ground arith)
        | inl ok ↦
            let run : free_loop D disk (suc left) c v ≡ (
                if leb cluster_last (read_fat_entry D disk v c)
                then (true, r.1)
                else free_loop D disk left (read_fat_entry D disk v c) r.1) =
              rw (free_loop, inside, valid, ok) in
            (r.1, (λ i. (ok i, r.1)), sym run ∙ h)
      ]

module _ {D : Drive} (reliable : IsReliable D) (disk : ℕ) where
  free_loop-Freed :
      (left : ℕ) {v v' : Volume D} {c : ℕ} {cs : List ℕ}
      → IsGeometry v.fs
      → FatChain disk v c cs
      → AllDiffer cs
      → length cs ≤ left
      → free_loop D disk left c v ≡ (true, v')
      → Freed disk v v' cs
  free_loop-Freed zero g (final inside valid ends) apart enough h = absurd (omega (arith, enough))
  free_loop-Freed zero g (link inside valid goes chain) apart enough h =
      absurd (omega (arith, enough))
  free_loop-Freed (suc left) {v} {v'} {c} g (final inside valid ends) apart enough h =
      let (w, wrote, rest) = free_loop-goes disk left c v v' inside valid h in
      let (marked, others, fs) = write_fat_entry_lem reliable disk v w c cluster_free g wrote in
      let same : w ≡ v' = ap (λ x. x.1) (rw ends at rest) in
      subst (λ u. Freed disk v u (c ∷ [])) same
        (record { free = (marked, tt); others = λ e out. others e out.0; fs = fs })
  free_loop-Freed (suc left) {v} {v'} {c} g (link {cs = cs} inside valid goes chain) apart enough
        h =
      let (w, wrote, rest) = free_loop-goes disk left c v v' inside valid h in
      let (marked, others, fs) = write_fat_entry_lem reliable disk v w c cluster_free g wrote in
      let f =
        free_loop-Freed left {v = w} {v' = v'} (subst IsGeometry (sym fs) g)
          (FatChain-alike disk c fs others apart.0 chain) apart.1 (omega (arith, enough))
          (rw goes at rest) in
      record {
        free = (f.others c apart.0 ∙ marked, f.free);
        others = λ e out. f.others e out.1 ∙ others e out.0;
        fs = f.fs ∙ fs;
      }

  -- On a reliable drive with the geometry in order, and a chain of different clusters of the table
  -- that ends, no longer than the table: when `fat32_free_cluster_chain` of its first cluster
  -- succeeds, the entries of all its clusters read as free, every other entry reads as before, and
  -- the fields of the file system are as they were.
  pub free_cluster_chain-Freed :
      {v v' : Volume D} {c : ℕ} {cs : List ℕ}
      → IsGeometry v.fs
      → FatChain disk v c cs
      → AllDiffer cs
      → length cs ≤ v.fs.total_clusters
      → free_cluster_chain D disk v c ≡ (true, v')
      → Freed disk v v' cs
  unfolding free_cluster_chain
  free_cluster_chain-Freed {v} g chain apart fits h =
      free_loop-Freed v.fs.total_clusters g chain apart fits h
