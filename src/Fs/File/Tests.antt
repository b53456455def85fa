-- ===== src/Fs/File/Tests.antt =====
-- The theorems on files and moves, on a volume with a file of two clusters and a directory "D".
use miyar_os.Base.{
  ℕ, ◌+◌, ◌<◌, ◌*◌, ◌%◌, ◌^◌, ◌≤◌, ◌≡◌, refl, true, false, some, List, [], ◌∷◌, take, drop, update,
  arith, ◌==◌, ltb, leb, ◌&&◌, ◌||◌, if◌then◌else◌,
}
use miyar_os.Fs.Disk.{Sector, disk_read, disk_write, ata_read_sector, ata_write_sector}
use miyar_os.Fs.Disk.Memory.{memory, memory-IsReliable}
use miyar_os.Fs.Fat32.{
  write_sector, Fat32, Volume, read_fat_entry, next_cluster, cluster_to_sector, read_sectors,
  read_cluster,
}
use miyar_os.Fs.Mount.{FileSystem, fat32}
use miyar_os.Fs.Path.{
  SplitPath, path_split, path_normalize, normalize_loop, normalize_step, move_component, split_loop,
  skip_slash, component, same_string,
}
use miyar_os.Fs.Path.Split.{is_name}
use miyar_os.Fs.Directory.Entry.{entry_at, blank_entry}
use miyar_os.Fs.Directory.Name.{directory_get_name, before_nul, copy_part}
use miyar_os.Fs.Directory.Iterate.{
  directory_find_in_cluster, directory_open, directory_next, find_loop, visit_next,
}
use miyar_os.Fs.Directory.Scan.{scan_entries}
use miyar_os.Fs.File.{File, bytes}
use miyar_os.Fs.File.Read.{file_read}
use miyar_os.Fs.File.Write.{file_write_cluster, file_read_cluster, write_sectors}
use miyar_os.Fs.File.Write.Laws.{file_read_cluster-file_write_cluster}
use miyar_os.Fs.File.Read.Rounds.{Chain, last, more, content, capacity}
use miyar_os.Fs.File.Read.Laws.{file_read-content}
use miyar_os.Fs.File.Paths.{file_resolve_destination}
use miyar_os.Fs.File.Paths.Destination.{IsPlainName, file_resolve_destination-parent}

abbrev geometry : Fat32
geometry = record {
  bytes_per_sector = 512;
  sectors_per_cluster = 1;
  reserved_sector_count = 1;
  fat_count = 1;
  fat_size = 2;
  root_cluster = 2;
  first_data_sector = 3;
  fat_start_sector = 1;
  total_clusters = 8;
}

-- The chains of the clusters 2 and 4 end in them, and 3 is followed by 4.
abbrev table : Sector
table i =
    if i == 12
    then 4
    else if (i == 11) || (i == 19)
    then 15
    else if (leb 8 i && ltb i 11) || (leb 16 i && ltb i 19)
    then 255
    else 0

-- "D" in cluster 5.
abbrev root : Sector
root i =
    if i == 0
    then 68
    else if i == 11
    then 16
    else if i == 26
    then 5
    else if leb 1 i && ltb i 11
    then 32
    else 0

abbrev sectors : ℕ → Sector
sectors lba i = if lba == 1 then table i else if lba == 3 then root i else lba

abbrev volume : Volume memory
volume = record {
  ata = record { present = true; sector_count = 100; device = sectors };
  fs = geometry;
  heap = record { header = λ i. record { size = 0; free = false }; offset = 0 };
}

abbrev file : File
file = record {
  first_cluster = 3;
  current_cluster = 3;
  size = 600;
  position = 510;
  parent_cluster = 2;
  entry = blank_entry;
}

-- What the two clusters hold.
abbrev clusters : List (List Sector)
clusters = (sectors 4 ∷ []) ∷ (sectors 5 ∷ []) ∷ []

first_cluster-sectors : read_cluster memory 1 volume 3 ≡ some (sectors 4 ∷ [])
unfolding read_cluster read_sectors cluster_to_sector disk_read ata_read_sector
first_cluster-sectors = refl

second_cluster-sectors : read_cluster memory 1 volume 4 ≡ some (sectors 5 ∷ [])
unfolding read_cluster read_sectors cluster_to_sector disk_read ata_read_sector
second_cluster-sectors = refl

linked : next_cluster memory 1 volume 3 ≡ 4
unfolding next_cluster read_fat_entry disk_read ata_read_sector
linked = refl

file-Chain : Chain 1 volume refl 3 clusters
unfolding next_cluster read_fat_entry disk_read ata_read_sector
file-Chain = more first_cluster-sectors refl (last second_cluster-sectors)

file-capacity : 510 + 4 ≤ capacity 1 volume refl clusters
unfolding capacity
file-capacity = omega arith

file_read-content_example :
    ((file_read memory 1 (λ j. 0) volume file 4).result ≡ bytes 4)
    × ((file_read memory 1 (λ j. 0) volume file 4).data_read
        ≡ take 4 (drop 510 (content 1 volume refl clusters)))
    × ((file_read memory 1 (λ j. 0) volume file 4).file.position ≡ 514)
file_read-content_example =
    file_read-content 1 volume refl (λ j. 0) file 4 file-Chain (omega arith) (omega arith)
      (omega arith) (omega arith) (omega arith) file-capacity

abbrev system : FileSystem memory
system = record {
  volume = volume;
  disk = 1;
  type = fat32;
  current_directory_cluster = 2;
  current_path = 47 ∷ [];
  mounted = true;
}

-- "D/Y"
abbrev destination : List ℕ
destination = 68 ∷ 47 ∷ 89 ∷ []

abbrev no_names : ℕ → List ℕ
no_names i = []

abbrev parts : SplitPath
parts = record {
  components = update (update no_names 0 (68 ∷ [])) 1 (89 ∷ []);
  count = 2;
  absolute = false;
}

destination-parts : path_split no_names (some destination) ≡ some parts
unfolding path_split split_loop skip_slash component
destination-parts = refl

parent-IsPlainName : IsPlainName ((path_normalize parts).components 0)
unfolding path_normalize normalize_loop normalize_step move_component is_name same_string
parent-IsPlainName = record {
  fits = refl;
  filled = λ e. absurd (ground arith);
  no_dot = refl;
  no_dots = refl;
}

two_parts : (path_normalize parts).count ≡ 2
unfolding path_normalize normalize_loop normalize_step move_component same_string
two_parts = refl

relative_parts : (path_normalize parts).absolute ≡ false
unfolding path_normalize normalize_loop normalize_step move_component same_string
relative_parts = refl

found :
    directory_find_in_cluster memory 1 1 volume 2 ((path_normalize parts).components 0)
    ≡ some (some (entry_at root 0))
unfolding directory_find_in_cluster directory_open directory_next find_loop visit_next scan_entries
    directory_get_name before_nul copy_part same_string path_normalize normalize_loop normalize_step
    move_component disk_read ata_read_sector cluster_to_sector
found = refl

file_resolve_destination-parent_example :
    file_resolve_destination memory 1 no_names 1 system destination 9
    ≡ some (some (2, (path_normalize parts).components 1))
file_resolve_destination-parent_example =
    file_resolve_destination-parent memory 1 no_names refl 1 system destination parts
      (entry_at root 0) 9 destination-parts two_parts relative_parts parent-IsPlainName found

abbrev pattern_bytes : ℕ → ℕ
pattern_bytes j = j % 256

abbrev overwritten : Volume memory
overwritten = (file_write_cluster memory 1 volume 4 pattern_bytes).1

overwriting : file_write_cluster memory 1 volume 4 pattern_bytes ≡ (true, overwritten)
unfolding file_write_cluster write_sectors write_sector cluster_to_sector disk_write
    ata_write_sector
overwriting = refl

sector_numbers : cluster_to_sector geometry 4 + 1 ≤ 2 ^ 32
unfolding cluster_to_sector
sector_numbers = omega arith

file_read_cluster-file_write_cluster_example :
    (held : ℕ → ℕ) × (file_read_cluster memory 1 overwritten 4 (λ j. 0) ≡ some held)
    × ((j : ℕ) → j < 1 * 512 → held j ≡ pattern_bytes j)
file_read_cluster-file_write_cluster_example =
    file_read_cluster-file_write_cluster memory-IsReliable 1 volume overwritten 4 pattern_bytes
      (λ j. 0) refl sector_numbers overwriting
