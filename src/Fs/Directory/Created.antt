-- ===== src/Fs/Directory/Created.antt =====
-- Where a new entry of a directory goes.
use mathlib.Core.Option.{some-injective}
use miyar_os.Base.{
  ℕ, ◌+◌, ◌-◌, ◌*◌, ◌<◌, ◌≤◌, ◌≡◌, ◌≢◌, refl, sym, ap, ◌∙◌, inl, inr, Bool, true, false, ◌&&◌, ◌||◌,
  Option, none, some, List, [], ◌∷◌, ◌==◌, ltb, leb, if◌then◌else◌, Bool-cases, arith,
}
use miyar_os.Fs.Disk.{Drive, Sector, sector_size, IsReliable, disk_read, disk_write}
use miyar_os.Fs.Disk.Laws.{disk_read-disk_write, disk_read-disk_write_other}
use miyar_os.Fs.Fat32.{Volume, write_sector}
use miyar_os.Fs.Directory.Entry.{Entry, put_entry, deleted_mark}
use miyar_os.Fs.Directory.Slots.{
  first_byte, visit_free, extend_directory, directory_create_entry_in_cluster,
}
use miyar_os.Fs.Directory.Listing.{Slot, listing, first_some, at_slot, scan_clusters-listing}

-- The first slot with the end mark or a deleted entry.
unfoldable pub free_slot : List Slot → Option Slot
free_slot [] = none
free_slot (x ∷ xs) =
    if (first_byte x.sector x.index == 0) || (first_byte x.sector x.index == deleted_mark)
    then some x
    else free_slot xs

module _ {D : Drive} (disk : ℕ) (given : disk == 0 ≡ false) where
  -- The entry in the slot, or in a cluster that the directory is extended by.
  abbrev stored_in :
      (fuel : ℕ) → Volume D → (cluster : ℕ) → Entry → Option Slot → Option (Bool × Volume D)
  stored_in fuel v cluster e none = extend_directory D disk fuel v cluster e
  stored_in fuel v cluster e (some x) =
      some (write_sector D disk v x.lba (put_entry x.sector x.index e))

  abbrev goes_on :
      (fuel : ℕ)
      → Volume D
      → (cluster : ℕ) → Entry
      → Option (Bool × Volume D)
      → Option (Bool × Volume D)
  goes_on fuel v cluster e found = elim found [
    | none ↦ extend_directory D disk fuel v cluster e
    | some r ↦ some r
  ]

  visit_free-slot :
      (fuel : ℕ) (v : Volume D) (cluster : ℕ) (e : Entry) (l : List Slot)
      → goes_on fuel v cluster e (first_some (at_slot (visit_free D disk v e)) l)
        ≡ stored_in fuel v cluster e (free_slot l)
  unfolding first_some free_slot visit_free
  visit_free-slot fuel v cluster e [] = refl
  visit_free-slot fuel v cluster e (x ∷ xs) =
      elim (Bool-cases
        ((first_byte x.sector x.index == 0) || (first_byte x.sector x.index == deleted_mark))) [
          | inl free ↦ rw free
          | inr taken ↦ rw taken (visit_free-slot fuel v cluster e xs)
        ]

  directory_create_entry_in_cluster-free_slot :
      (fuel cluster : ℕ) (v : Volume D) (l : List Slot) (e : Entry)
      → 2 ≤ cluster
      → listing D disk fuel cluster v ≡ some l
      → directory_create_entry_in_cluster D disk fuel v cluster e
        ≡ stored_in fuel v cluster e (free_slot l)
  unfolding directory_create_entry_in_cluster
  directory_create_entry_in_cluster-free_slot fuel cluster v l e valid h =
      let scanned =
        scan_clusters-listing disk (false, v) (visit_free D disk v e) fuel cluster v l h in
      let high : ltb cluster 2 ≡ false = ground arith in
      rw (directory_create_entry_in_cluster, given, high, scanned)
        (visit_free-slot fuel v cluster e l)

-- The volume after the entry has been put in a slot.
pub record Created {D : Drive} (disk : ℕ) (x : Slot) (e : Entry) (v v' : Volume D) : Type 0 where
  pub stored :
      (t : Sector) × (disk_read D disk v'.ata x.lba ≡ some t)
      × ((i : ℕ)
          → i < sector_size
          → t i ≡ (
              if leb (32 * x.index) i && ltb i (32 * x.index + 32)
              then e (i - 32 * x.index)
              else x.sector i))
  pub others : (lba : ℕ) → lba ≢ x.lba → disk_read D disk v'.ata lba ≡ disk_read D disk v.ata lba
  pub fs : v'.fs ≡ v.fs

sector-Created :
    {D : Drive}
    → IsReliable D
    → (disk : ℕ) (x : Slot) (e : Entry) (v v' : Volume D)
    → write_sector D disk v x.lba (put_entry x.sector x.index e) ≡ (true, v')
    → Created disk x e v v'
unfolding write_sector
sector-Created {D} reliable disk x e v v' h =
    let written : disk_write D disk v.ata x.lba (put_entry x.sector x.index e) ≡ (true, v'.ata) =
      λ i. ((h i).0, (h i).1.ata) in
    record {
      stored = disk_read-disk_write reliable disk v.ata v'.ata x.lba _ written;
      others =
          λ lba ne. disk_read-disk_write_other reliable disk v.ata v'.ata x.lba lba _ written ne;
      fs = sym (λ i. (h i).1.fs);
    }

-- On a reliable drive that is there, and a directory from cluster 2 on whose listing can be read
-- within the fuel and has a slot with the end mark or a deleted entry: a creation that succeeds has
-- put the 32 bytes of the entry in the first such slot. The other bytes of its sector are kept,
-- every other sector reads as before, and the fields of the file system are as they were.
pub directory_create_entry_in_cluster-Created :
    {D : Drive}
    → IsReliable D
    → (disk : ℕ) → disk == 0 ≡ false
    → (fuel cluster : ℕ) (v v' : Volume D) (l : List Slot) (x : Slot) (e : Entry) → 2 ≤ cluster
    → listing D disk fuel cluster v ≡ some l
    → free_slot l ≡ some x
    → directory_create_entry_in_cluster D disk fuel v cluster e ≡ some (true, v')
    → Created disk x e v v'
directory_create_entry_in_cluster-Created {D} reliable disk given fuel cluster v v' l x e valid h
      free done =
    let ran =
      directory_create_entry_in_cluster-free_slot disk given fuel cluster v l e valid h
      ∙ ap (stored_in disk given fuel v cluster e) free in
    sector-Created reliable disk x e v v' (some-injective _ _ (sym ran ∙ done))
