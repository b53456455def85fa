-- ===== src/Fs/Directory/Listing.antt =====
-- A directory as the list of its sectors, and the scan of it as one search of a list.
use miyar_os.Base.{
  ℕ, zero, suc, ◌+◌, ◌%◌, ◌^◌, ◌≡◌, refl, sym, ap, ◌∙◌, inl, inr, true, false, Option, none, some,
  ◌>>=◌, or_else, or_else_assoc, bound, List, [], ◌∷◌, ◌++◌, ltb, if◌then◌else◌, Bool-cases, arith,
}
use mathlib.Core.Option.{some-injective}
use miyar_os.Fs.Disk.{Drive, Sector, disk_read}
use miyar_os.Fs.Fat32.{Volume, cluster_to_sector, next_cluster, cluster_last}
use miyar_os.Fs.Directory.Scan.{carry_on, scan_entries, scan_sectors, scan_clusters}

-- The first result of a search of a list.
unfoldable pub first_some {ℓ κ} : {A : Type ℓ} {B : Type κ} → (A → Option B) → List A → Option B
first_some f [] = none
first_some f (x ∷ xs) = or_else (f x) (first_some f xs)

pub first_some-append {ℓ κ} :
    {A : Type ℓ} {B : Type κ} (f : A → Option B) (xs ys : List A)
    → first_some f (xs ++ ys) ≡ or_else (first_some f xs) (first_some f ys)
unfolding first_some
first_some-append f [] ys = refl
first_some-append f (x ∷ xs) ys =
    ap (or_else (f x)) (first_some-append f xs ys)
    ∙ sym (or_else_assoc (f x) (first_some f xs) (first_some f ys))

-- A slot: an entry's sector, the sector's contents, and the index.
pub record Slot : Type 0 where
  pub lba : ℕ
  pub sector : Sector
  pub index : ℕ

unfoldable pub slots_from : (rounds index : ℕ) → (lba : ℕ) → Sector → List Slot
slots_from zero i lba s = []
slots_from (suc n) i lba s =
    record { lba = lba; sector = s; index = i } ∷ slots_from n (i + 1) lba s

-- The slots of some sectors that follow each other, `none` where one cannot be read.
module _ (D : Drive) (disk : ℕ) where
  unfoldable pub sector_slots : (rounds lba : ℕ) → Volume D → Option (List Slot)
  sector_slots zero lba v = some []
  sector_slots (suc n) lba v = disk_read D disk v.ata (lba % 2 ^ 32) >>= λ s.
      sector_slots n (lba + 1) v >>= λ rest. some (slots_from 16 0 (lba % 2 ^ 32) s ++ rest)

  -- The slots of a chain of clusters; `none` also where the chain is longer than the fuel.
  unfoldable pub listing : (fuel cluster : ℕ) → Volume D → Option (List Slot)
  listing zero cluster v = none
  listing (suc fuel) cluster v =
      if ltb cluster cluster_last
      then (sector_slots v.fs.sectors_per_cluster (cluster_to_sector v.fs cluster) v >>= λ here.
          listing fuel (next_cluster D disk v cluster) v >>= λ rest. some (here ++ rest))
      else some []

listing-step :
    (D : Drive) (disk fuel cluster : ℕ) (v : Volume D)
    → ltb cluster cluster_last ≡ true
    → listing D disk (suc fuel) cluster v ≡ (
        sector_slots D disk v.fs.sectors_per_cluster (cluster_to_sector v.fs cluster) v >>= λ here.
        listing D disk fuel (next_cluster D disk v cluster) v >>= λ rest. some (here ++ rest))
unfolding listing
listing-step D disk fuel cluster v inside = rw inside

carry_on-some {ℓ} : {A : Type ℓ} (a b : Option A) → carry_on a (some b) ≡ some (or_else a b)
carry_on-some none b = refl
carry_on-some (some r) b = refl

-- What the slot is visited with.
abbrev pub at_slot {ℓ} : {A : Type ℓ} → ((lba : ℕ) → Sector → (i : ℕ) → Option A) → Slot → Option A
at_slot visit x = visit x.lba x.sector x.index

scan_entries-first {ℓ} :
    {A : Type ℓ} (visit : (lba : ℕ) → Sector → (i : ℕ) → Option A) (n i lba : ℕ) (s : Sector)
    → scan_entries n i (visit lba s) ≡ first_some (at_slot visit) (slots_from n i lba s)
unfolding scan_entries first_some slots_from
scan_entries-first visit zero i lba s = refl
scan_entries-first visit (suc n) i lba s =
    ap (or_else (visit lba s i)) (scan_entries-first visit n (i + 1) lba s)

module _ {ℓ} {A : Type ℓ} {D : Drive} (disk : ℕ) (failed : A)
    (visit : (lba : ℕ) → Sector → (i : ℕ) → Option A) where
  scan_sectors-step :
      (n lba : ℕ) (v : Volume D) (s : Sector)
      → disk_read D disk v.ata (lba % 2 ^ 32) ≡ some s
      → scan_sectors D disk failed visit (suc n) lba v
        ≡ or_else
            (first_some (at_slot visit) (slots_from 16 0 (lba % 2 ^ 32) s))
            (scan_sectors D disk failed visit n (lba + 1) v)
  unfolding scan_sectors
  scan_sectors-step n lba v s got =
      (λ j. elim (got j) as (λ o. Option A) [
        | none ↦ some failed
        | some s' ↦
            or_else (scan_entries 16 0 (visit (lba % 2 ^ 32) s'))
              (scan_sectors D disk failed visit n (lba + 1) v)
      ])
      ∙ ap (λ o. or_else o (scan_sectors D disk failed visit n (lba + 1) v))
          (scan_entries-first visit 16 0 (lba % 2 ^ 32) s)

  scan_sectors-first :
      (n lba : ℕ) (v : Volume D) (l : List Slot)
      → sector_slots D disk n lba v ≡ some l
      → scan_sectors D disk failed visit n lba v ≡ first_some (at_slot visit) l
  unfolding scan_sectors sector_slots first_some
  scan_sectors-first zero lba v l h = ap (first_some (at_slot visit)) (some-injective _ _ h)
  scan_sectors-first (suc n) lba v l h =
      let (s, got, h') = bound (disk_read D disk v.ata (lba % 2 ^ 32)) _ h in
      let (rest, more, e) = bound (sector_slots D disk n (lba + 1) v) _ h' in
      scan_sectors-step n lba v s got
      ∙ ap (or_else (first_some (at_slot visit) (slots_from 16 0 (lba % 2 ^ 32) s)))
          (scan_sectors-first n (lba + 1) v rest more)
      ∙ sym (first_some-append (at_slot visit) (slots_from 16 0 (lba % 2 ^ 32) s) rest)
      ∙ ap (first_some (at_slot visit)) (some-injective _ _ e)

  scan_clusters-step :
      (fuel cluster : ℕ) (v : Volume D)
      → ltb cluster cluster_last ≡ true
      → scan_clusters D disk failed visit (suc fuel) cluster v
        ≡ carry_on
            (scan_sectors D disk failed visit v.fs.sectors_per_cluster
              (cluster_to_sector v.fs cluster)
              v)
            (scan_clusters D disk failed visit fuel (next_cluster D disk v cluster) v)
  unfolding scan_clusters
  scan_clusters-step fuel cluster v inside = rw inside

  scan_clusters-past :
      (fuel cluster : ℕ) (v : Volume D)
      → ltb cluster cluster_last ≡ false
      → scan_clusters D disk failed visit (suc fuel) cluster v ≡ some none
  unfolding scan_clusters
  scan_clusters-past fuel cluster v past = rw past

  -- The scan of a directory that can be read is the search of its listing.
  pub scan_clusters-listing :
      (fuel cluster : ℕ) (v : Volume D) (l : List Slot)
      → listing D disk fuel cluster v ≡ some l
      → scan_clusters D disk failed visit fuel cluster v ≡ some (first_some (at_slot visit) l)
  unfolding listing first_some
  scan_clusters-listing zero cluster v l h = absurd (ground arith)
  scan_clusters-listing (suc fuel) cluster v l h = elim (Bool-cases (ltb cluster cluster_last)) [
    | inr past ↦
        let ended : listing D disk (suc fuel) cluster v ≡ some [] = rw past in
        scan_clusters-past fuel cluster v past
        ∙ ap (λ x. some (first_some (at_slot visit) x)) (some-injective _ _ (sym ended ∙ h))
    | inl inside ↦
        let goes = listing-step D disk fuel cluster v inside in
        let (here, read, h') =
          bound (sector_slots D disk v.fs.sectors_per_cluster (cluster_to_sector v.fs cluster) v) _
            (sym goes ∙ h) in
        let (rest, more, e) = bound (listing D disk fuel (next_cluster D disk v cluster) v) _ h' in
        scan_clusters-step fuel cluster v inside
        ∙ ap
            (λ o.
              carry_on o (scan_clusters D disk failed visit fuel (next_cluster D disk v cluster) v))
            (scan_sectors-first v.fs.sectors_per_cluster (cluster_to_sector v.fs cluster) v here
              read)
        ∙ ap (carry_on (first_some (at_slot visit) here))
            (scan_clusters-listing fuel (next_cluster D disk v cluster) v rest more)
        ∙ carry_on-some (first_some (at_slot visit) here) (first_some (at_slot visit) rest)
        ∙ ap some (
            sym (first_some-append (at_slot visit) here rest)
            ∙ ap (first_some (at_slot visit)) (some-injective _ _ e))
  ]
