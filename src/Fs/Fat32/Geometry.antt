-- ===== src/Fs/Fat32/Geometry.antt =====
-- Where the entry of a cluster lies in the table.
use miyar_os.Base.{
  ℕ, ◌+◌, ◌*◌, ◌/◌, ◌%◌, ◌^◌, ◌<◌, ◌≤◌, ◌≡◌, ◌≢◌, ◌⊎◌, inl, inr, true, not, ◌||◌, ◌==◌, ltb, leb,
  Bool-cases, arith,
}
use miyar_os.Fs.Fat32.{Fat32, in_table, fat_sector, fat_offset}

-- Sectors of 512 bytes, a table that ends before the data, and no sector past 2^32.
pub record IsGeometry (fs : Fat32) : Type 0 where
  pub bytes : fs.bytes_per_sector ≡ 512
  pub clusters : fs.total_clusters + 2 ≤ 2 ^ 28
  pub table : fs.fat_start_sector + (fs.total_clusters + 2) / 128 < fs.first_data_sector
  pub size : 0 < fs.sectors_per_cluster
  pub sectors : fs.first_data_sector + fs.total_clusters * fs.sectors_per_cluster ≤ 2 ^ 32

module _ {fs : Fat32} (g : IsGeometry fs) where
  in_table-bounds : (c : ℕ) → in_table fs c ≡ true → (2 ≤ c) × (c < fs.total_clusters + 2)
  in_table-bounds c h =
      let whole : (fs.total_clusters + 2) % 2 ^ 32 ≡ fs.total_clusters + 2 =
        omega (arith, g.clusters) in
      let h' : not (ltb c 2 || leb (fs.total_clusters + 2) c) ≡ true = rw whole at h in ground arith

  -- 128 entries to a sector.
  pub place :
      (c : ℕ)
      → in_table fs c ≡ true
      → (fat_sector fs c ≡ fs.fat_start_sector + c / 128)
        × (fat_offset fs c ≡ 4 * (c % 128))
        × (fat_sector fs c < fs.first_data_sector)
  place c h =
      let (lo, hi) = in_table-bounds c h in
      let sector : fat_sector fs c ≡ fs.fat_start_sector + c / 128 =
        rw g.bytes (omega (arith, g.clusters, g.table, g.sectors)) in
      (sector, rw g.bytes (omega (arith, g.clusters)), omega (arith, sector, g.table))

  -- The entries of two clusters lie in different sectors, or apart in one.
  pub places-apart :
      (c e : ℕ)
      → in_table fs c ≡ true
      → in_table fs e ≡ true
      → c ≢ e
      → (fat_sector fs e ≢ fat_sector fs c)
        ⊎ ((fat_offset fs c + 4 ≤ fat_offset fs e) ⊎ (fat_offset fs e + 4 ≤ fat_offset fs c))
  places-apart c e hc he ne =
      let (sc, oc, _) = place c hc in
      let (se, oe, _) = place e he in
      elim (Bool-cases (c / 128 == e / 128)) [
        | inr far ↦ let other : c / 128 ≢ e / 128 = ground arith in inl (omega (arith, sc, se))
        | inl near ↦
            let one : c / 128 ≡ e / 128 = ground arith in
            elim (Bool-cases (ltb c e)) [
              | inl below ↦ let lt : c < e = ground arith in inr (inl (omega (arith, oc, oe)))
              | inr above ↦ let le : e ≤ c = ground arith in inr (inr (omega (arith, oc, oe)))
            ]
      ]
