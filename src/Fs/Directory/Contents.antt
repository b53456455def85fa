-- ===== src/Fs/Directory/Contents.antt =====
-- What the searches of a directory come to on its listing.
use mathlib.Core.Option.{some-injective}
use miyar_os.Base.{
  ℕ, ◌*◌, ◌<◌, ◌≡◌, ◌≢◌, refl, sym, ap, ◌∙◌, inl, inr, Bool, true, false, not, ◌&&◌, ◌||◌, Option,
  none, some, List, [], ◌∷◌, ◌==◌, if◌then◌else◌, update, Bool-cases, Option-cases, arith,
}
use miyar_os.Fs.Disk.{Drive, Sector, sector_size, IsReliable, disk_read, disk_write}
use miyar_os.Fs.Disk.Laws.{disk_read-disk_write, disk_read-disk_write_other}
use miyar_os.Fs.Fat32.{Volume, write_sector}
use miyar_os.Fs.Path.{same_string}
use miyar_os.Fs.Path
use miyar_os.Fs.Directory.Entry.{Entry, entry_at, deleted_mark}
use miyar_os.Fs.Directory.Name.{directory_get_name}
use miyar_os.Fs.Directory.Scan.{settle}
use miyar_os.Fs.Directory.Slots.{
  has_name, is_skipped, first_byte, visit_used, visit_match, change_entry, directory_is_empty,
  directory_delete_in_cluster,
}
use miyar_os.Fs.Directory.Listing.{Slot, listing, first_some, at_slot, scan_clusters-listing}

abbrev pub entry_of : Slot → Entry
entry_of x = entry_at x.sector x.index

-- "." and "..".
abbrev pub is_link : Slot → Bool
is_link x =
    same_string (directory_get_name (entry_of x)) Path.dot
    || same_string (directory_get_name (entry_of x)) Path.dots

-- Before the end mark, nothing is in use but the links.
unfoldable pub holds_nothing : List Slot → Bool
holds_nothing [] = true
holds_nothing (x ∷ xs) =
    if first_byte x.sector x.index == 0
    then true
    else (is_skipped x.sector x.index || is_link x) && holds_nothing xs

-- The first slot before the end mark that is in use and passes a test.
unfoldable pub locate : (Entry → Bool) → List Slot → Option Slot
locate test [] = none
locate test (x ∷ xs) =
    if first_byte x.sector x.index == 0
    then none
    else if not (is_skipped x.sector x.index) && test (entry_of x)
    then some x
    else locate test xs

visit_used-nothing :
    (l : List Slot) → settle true (first_some (at_slot visit_used) l) ≡ holds_nothing l
unfolding first_some holds_nothing visit_used
visit_used-nothing [] = refl
visit_used-nothing (x ∷ xs) = elim (Bool-cases (first_byte x.sector x.index == 0)) [
  | inl ended ↦ rw ended
  | inr goes ↦ elim (Bool-cases (is_skipped x.sector x.index)) [
    | inl skipped ↦ rw (goes, skipped, visit_used-nothing xs)
    | inr used ↦ elim (Bool-cases (is_link x)) [
      | inl link ↦ rw (goes, used, link, visit_used-nothing xs)
      | inr found ↦ rw (goes, used, found)
    ]
  ]
]

module _ {D : Drive} (disk : ℕ) (given : (disk == 0) ≡ false) where
  -- On a disk that is there, and a directory whose listing can be read within the fuel, whether it
  -- is empty is decided by the listing: it is, where no slot before the end mark is in use but for
  -- the links "." and "..".
  pub directory_is_empty-listing :
      (fuel cluster : ℕ) (v : Volume D) (l : List Slot)
      → listing D disk fuel cluster v ≡ some l
      → directory_is_empty D disk fuel v cluster ≡ some (holds_nothing l)
  unfolding directory_is_empty
  directory_is_empty-listing fuel cluster v l h =
      let scanned = scan_clusters-listing disk false visit_used fuel cluster v l h in
      rw (given, scanned) (ap some (visit_used-nothing l))

  -- The sector of the slot that was found, written with a change.
  abbrev pub rewritten : Volume D → (Sector → ℕ → Sector) → Option Slot → Bool × Volume D
  rewritten v change none = (false, v)
  rewritten v change (some x) = write_sector D disk v x.lba (change x.sector x.index)

  visit_match-locate :
      (v : Volume D) (test : Entry → Bool) (change : Sector → ℕ → Sector) (l : List Slot)
      → settle (false, v) (first_some (at_slot (visit_match D disk v test change)) l)
        ≡ rewritten v change (locate test l)
  unfolding first_some locate visit_match
  visit_match-locate v test change [] = refl
  visit_match-locate v test change (x ∷ xs) = elim (Bool-cases (first_byte x.sector x.index == 0)) [
    | inl ended ↦ rw ended
    | inr goes ↦ elim (Bool-cases (is_skipped x.sector x.index)) [
      | inl skipped ↦ rw (goes, skipped) (visit_match-locate v test change xs)
      | inr used ↦ elim (Bool-cases (test (entry_of x))) [
        | inl found ↦ rw (goes, used, found)
        | inr other ↦ rw (goes, used, other) (visit_match-locate v test change xs)
      ]
    ]
  ]

  -- On a disk that is there, and a directory whose listing can be read within the fuel, an entry
  -- that is changed is the first one before the end mark that is in use and passes the test: its
  -- sector is written with the change. Where there is none, the result is false and nothing is
  -- written.
  pub change_entry-locate :
      (fuel cluster : ℕ) (v : Volume D) (l : List Slot) (test : Entry → Bool)
      (change : Sector → ℕ → Sector)
      → listing D disk fuel cluster v ≡ some l
      → change_entry D disk fuel v cluster test change ≡ some (rewritten v change (locate test l))
  unfolding change_entry
  change_entry-locate fuel cluster v l test change h =
      let scanned =
        scan_clusters-listing disk (false, v) (visit_match D disk v test change) fuel cluster v l
          h in
      rw (given, scanned) (ap some (visit_match-locate v test change l))

-- The volume after the entry of a slot has been marked as deleted.
pub record Deleted {D : Drive} (disk : ℕ) (x : Slot) (v v' : Volume D) : Type 0 where
  pub marked :
      (t : Sector) × (disk_read D disk v'.ata x.lba ≡ some t)
      × ((i : ℕ) → i < sector_size → t i ≡ (if 32 * x.index == i then deleted_mark else x.sector i))
  pub others : (lba : ℕ) → lba ≢ x.lba → disk_read D disk v'.ata lba ≡ disk_read D disk v.ata lba
  pub fs : v'.fs ≡ v.fs

sector-Deleted :
    {D : Drive}
    → IsReliable D
    → (disk : ℕ) (x : Slot) (v v' : Volume D)
    → write_sector D disk v x.lba (update x.sector (32 * x.index) deleted_mark) ≡ (true, v')
    → Deleted disk x v v'
unfolding write_sector
sector-Deleted {D} reliable disk x v v' e =
    let stored : disk_write D disk v.ata x.lba (update x.sector (32 * x.index) deleted_mark)
        ≡ (true, v'.ata) =
      λ i. ((e i).0, (e i).1.ata) in
    record {
      marked = disk_read-disk_write reliable disk v.ata v'.ata x.lba _ stored;
      others =
          λ lba ne. disk_read-disk_write_other reliable disk v.ata v'.ata x.lba lba _ stored ne;
      fs = sym (λ i. (e i).1.fs);
    }

-- On a reliable drive that is there, and a directory whose listing can be read within the fuel, a
-- deletion that succeeds has marked the first entry before the end mark that is in use and has the
-- name: one byte of its sector changes, every other sector reads as before, and the fields of the
-- file system are as they were.
pub directory_delete_in_cluster-Deleted :
    {D : Drive}
    → IsReliable D
    → (disk : ℕ) → (disk == 0) ≡ false
    → (fuel cluster : ℕ) (v v' : Volume D) (l : List Slot) (name : List ℕ)
    → listing D disk fuel cluster v ≡ some l
    → directory_delete_in_cluster D disk fuel v cluster name ≡ some (true, v')
    → (x : Slot) × (locate (has_name D disk name) l ≡ some x) × Deleted disk x v v'
unfolding directory_delete_in_cluster write_sector
directory_delete_in_cluster-Deleted {D} reliable disk given fuel cluster v v' l name h e =
    let test = has_name D disk name in
    let mark : Sector → ℕ → Sector = λ s i. update s (32 * i) deleted_mark in
    let ran = change_entry-locate disk given fuel cluster v l test mark h in
    let wrote : rewritten disk given v mark (locate test l) ≡ (true, v') =
      some-injective _ _ (sym ran ∙ e) in
    elim (Option-cases (locate test l)) [
      | inl missing ↦
          let none_there = ap (rewritten disk given v mark) (sym missing) ∙ wrote in
          absurd (ground arith)
      | inr (x, found) ↦ (
        x,
        found,
        sector-Deleted reliable disk x v v' (ap (rewritten disk given v mark) (sym found) ∙ wrote),
      )
    ]
