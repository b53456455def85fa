-- ===== src/Fs/Directory/Tests.antt =====
-- The directories' theorems on a volume whose root has the file "A".
use miyar_os.Base.{
  arith, ℕ, ◌*◌, ◌≤◌, ◌≡◌, refl, true, false, Option, none, some, List, [], ◌∷◌, map, update, ◌==◌,
  ltb, leb, ◌&&◌, if◌then◌else◌,
}
use miyar_os.Fs.Disk.{Sector, disk_read, disk_write, ata_read_sector, ata_write_sector}
use miyar_os.Fs.Disk.Memory.{memory, memory-IsReliable}
use miyar_os.Fs.Fat32.{Fat32, Volume, read_fat_entry, next_cluster, cluster_to_sector, write_sector}
use miyar_os.Fs.Path.{same_string}
use miyar_os.Fs.Directory.Entry.{Entry, put_entry, blank_entry, deleted_mark}
use miyar_os.Fs.Directory.Name.{
  directory_get_name, directory_set_name, name_loop, add_char, add_dot, fold_case, before_nul,
  copy_part,
}
use miyar_os.Fs.Directory.Name.Parts.{is_plain}
use miyar_os.Fs.Directory.Name.Laws.{directory_get_name-directory_set_name}
use miyar_os.Fs.Directory.Scan.{scan_entries, scan_sectors, scan_clusters}
use miyar_os.Fs.Directory.Slots.{
  directory_create_entry_in_cluster, is_skipped, visit_free, visit_match, change_entry, has_name,
  directory_delete_in_cluster,
}
use miyar_os.Fs.Directory.Created.{free_slot, Created, directory_create_entry_in_cluster-Created}
use miyar_os.Fs.Directory.Listing.{Slot, listing, sector_slots, slots_from}
use miyar_os.Fs.Directory.Contents.{
  holds_nothing, locate, rewritten, Deleted, change_entry-locate,
  directory_delete_in_cluster-Deleted,
}

abbrev geometry : Fat32
geometry = record {
  bytes_per_sector = 512;
  sectors_per_cluster = 1;
  reserved_sector_count = 1;
  fat_count = 1;
  fat_size = 2;
  root_cluster = 2;
  first_data_sector = 3;
  fat_start_sector = 1;
  total_clusters = 4;
}

-- The chain of cluster 2 ends in it.
abbrev table : Sector
table i = if leb 8 i && ltb i 11 then 255 else if i == 11 then 15 else 0

abbrev root : Sector
root i = if i == 0 then 65 else if leb 1 i && ltb i 12 then 32 else 0

abbrev sectors : ℕ → Sector
sectors lba i = if lba == 1 then table i else if lba == 3 then root i else 0

abbrev volume : Volume memory
volume = record {
  ata = record { present = true; sector_count = 100; device = sectors };
  fs = geometry;
  heap = record { header = λ i. record { size = 0; free = false }; offset = 0 };
}

abbrev slots : List Slot
slots = slots_from 16 0 3 (sectors 3)

volume-listing : listing memory 1 2 2 volume ≡ some slots
unfolding listing sector_slots slots_from next_cluster read_fat_entry disk_read ata_read_sector
    cluster_to_sector
volume-listing = refl

holds_a_file : holds_nothing slots ≡ false
unfolding holds_nothing slots_from is_skipped directory_get_name same_string before_nul copy_part
holds_a_file = refl

abbrev a : List ℕ
a = 65 ∷ []

change_entry-locate_example :
    change_entry memory 1 2 volume 2 (has_name memory 1 a) (λ s i. update s (32 * i) deleted_mark)
    ≡ some (
        rewritten 1 refl volume
          (λ s i. update s (32 * i) deleted_mark)
          (locate (has_name memory 1 a) slots))
change_entry-locate_example =
    change_entry-locate 1 refl 2 2 volume slots (has_name memory 1 a)
      (λ s i. update s (32 * i) deleted_mark) volume-listing

abbrev deleted : Volume memory
deleted = record volume {
  ata = record volume.ata { device = update sectors 3 (update (sectors 3) 0 deleted_mark) };
}

deletion : directory_delete_in_cluster memory 1 2 volume 2 a ≡ some (true, deleted)
unfolding directory_delete_in_cluster change_entry scan_clusters scan_sectors scan_entries
    visit_match is_skipped directory_get_name same_string write_sector disk_read disk_write
    ata_read_sector ata_write_sector cluster_to_sector next_cluster read_fat_entry before_nul
    copy_part
deletion = refl

directory_delete_in_cluster-Deleted_example :
    (x : Slot) × (locate (has_name memory 1 a) slots ≡ some x) × Deleted 1 x volume deleted
directory_delete_in_cluster-Deleted_example =
    directory_delete_in_cluster-Deleted memory-IsReliable 1 refl 2 2 volume deleted slots a
      volume-listing deletion

-- "a.b"
abbrev name : List ℕ
name = 97 ∷ 46 ∷ 98 ∷ []

abbrev named : Option Entry
named = directory_set_name blank_entry name

abbrev after : Option Entry → Entry
after none = blank_entry
after (some e) = e

named-some : named ≡ some (after named)
unfolding directory_set_name name_loop add_char add_dot fold_case
named-some = refl

is_plain-name : is_plain name ≡ true
unfolding is_plain
is_plain-name = refl

directory_get_name-directory_set_name_example :
    (directory_get_name (after named) ≡ map fold_case name)
    × ((k : ℕ) → 11 ≤ k → after named k ≡ blank_entry k)
directory_get_name-directory_set_name_example =
    directory_get_name-directory_set_name blank_entry (after named) name is_plain-name named-some

-- The second slot of the root, which has the end mark.
abbrev end_slot : Slot
end_slot = record { lba = 3; sector = sectors 3; index = 1 }

end_slot-free : free_slot slots ≡ some end_slot
unfolding free_slot slots_from
end_slot-free = refl

abbrev created : Volume memory
created = record volume {
  ata = record volume.ata { device = update sectors 3 (put_entry (sectors 3) 1 (after named)) };
}

creation :
    directory_create_entry_in_cluster memory 1 2 volume 2 (after named) ≡ some (true, created)
unfolding directory_create_entry_in_cluster scan_clusters scan_sectors scan_entries visit_free
    write_sector disk_read disk_write ata_read_sector ata_write_sector cluster_to_sector
    next_cluster read_fat_entry
creation = refl

directory_create_entry_in_cluster-Created_example : Created 1 end_slot (after named) volume created
directory_create_entry_in_cluster-Created_example =
    directory_create_entry_in_cluster-Created memory-IsReliable 1 refl 2 2 volume created slots
      end_slot (after named) (omega arith) volume-listing end_slot-free creation
