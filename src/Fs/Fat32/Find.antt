-- ===== src/Fs/Fat32/Find.antt =====
-- The search for a free cluster.
use miyar_os.Base.{
  ℕ, zero, suc, ◌+◌, ◌-◌, ◌^◌, ◌%◌, ◌<◌, ◌≤◌, ◌≡◌, ◌⊎◌, refl, sym, ap, ◌∙◌, inl, inr, false, ◌==◌,
  Bool-cases, arith,
}
use miyar_os.Fs.Disk.{Drive}
use miyar_os.Fs.Fat32.{Volume, read_fat_entry, find_free_from, find_free_cluster}

module _ {D : Drive} (disk : ℕ) (v : Volume D) where
  abbrev pub IsFree : ℕ → Type 0
  IsFree c = read_fat_entry D disk v c ≡ 0

  -- The result of a search of the clusters from `from` on, `rounds` of them.
  abbrev pub IsLowest : (rounds from result : ℕ) → Type 0
  IsLowest rounds from result =
      ((result ≡ 0) × ((c : ℕ) → from ≤ c → c < from + rounds → ¬ (IsFree c)))
      ⊎ ((from ≤ result)
          × (result < from + rounds)
          × (IsFree result)
          × ((c : ℕ) → from ≤ c → c < result → ¬ (IsFree c)))

  later :
      (n from result : ℕ)
      → ¬ (IsFree from)
      → IsLowest n (from + 1) result
      → IsLowest (suc n) from result
  later n from result ne (inl (none_found, rest)) = inl (
    none_found,
    λ c lo hi free. elim (Bool-cases (c == from)) [
      | inl here ↦
          let same : c ≡ from = ground arith in ne (ap (read_fat_entry D disk v) (sym same) ∙ free)
      | inr past ↦ rest c (ground arith) (omega (arith, hi)) free
    ],
  )
  later n from result ne (inr (lo, hi, free, rest)) = inr (
    omega (arith, lo),
    omega (arith, hi),
    free,
    λ c lo' hi' free'. elim (Bool-cases (c == from)) [
      | inl here ↦
          let same : c ≡ from = ground arith in ne (ap (read_fat_entry D disk v) (sym same) ∙ free')
      | inr past ↦ rest c (ground arith) hi' free'
    ],
  )

  find_free_from-IsLowest : (n from : ℕ) → IsLowest n from (find_free_from D disk n from v)
  unfolding find_free_from
  find_free_from-IsLowest zero from = inl (refl, λ c lo hi free. omega (arith, lo, hi))
  find_free_from-IsLowest (suc n) from = elim (Bool-cases (read_fat_entry D disk v from == 0)) [
    | inl free ↦
        rw free
          (inr (omega arith, omega arith, (ground arith), λ c lo hi free'. omega (arith, lo, hi)))
    | inr taken ↦ rw taken (
        later n from (find_free_from D disk n (from + 1) v) (λ free. ground arith)
          (find_free_from-IsLowest n (from + 1)))
  ]

  -- When the disk is there and its clusters fit in 28 bits, `find_free_cluster` gives 0 and no
  -- cluster of the table is free, or a cluster of the table that is free with every lower one
  -- taken.
  pub find_free_cluster-IsLowest :
      (disk == 0) ≡ false
      → v.fs.total_clusters + 2 ≤ 2 ^ 28
      → IsLowest v.fs.total_clusters 2 (find_free_cluster D disk v)
  unfolding find_free_cluster
  find_free_cluster-IsLowest given small =
      let n : (v.fs.total_clusters + 2) % 2 ^ 32 - 2 ≡ v.fs.total_clusters = omega (arith, small) in
      rw (given, n) (find_free_from-IsLowest v.fs.total_clusters 2)
