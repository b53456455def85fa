-- ===== src/Shell/Sample.antt =====
-- A shell on a small volume with an empty root, and an editor at its prompt.
use miyar_os.Base.{ℕ, true, false, List, [], ◌∷◌, ◌&&◌, ◌==◌, ltb, leb, if◌then◌else◌}
use miyar_os.Drivers.Terminal.{Terminal}
use miyar_os.Fs.Disk.{Sector}
use miyar_os.Fs.Disk.Memory.{memory}
use miyar_os.Fs.Fat32.{Fat32}
use miyar_os.Fs.Mount.{FileSystem, fat32}
use miyar_os.Shell.{Shell}
use miyar_os.Shell.Line.{Editor}

abbrev geometry : Fat32
geometry = record {
  bytes_per_sector = 512;
  sectors_per_cluster = 1;
  reserved_sector_count = 1;
  fat_count = 1;
  fat_size = 2;
  root_cluster = 2;
  first_data_sector = 3;
  fat_start_sector = 1;
  total_clusters = 4;
}

-- The chain of cluster 2 ends in it.
abbrev table : Sector
table i = if leb 8 i && ltb i 11 then 255 else if i == 11 then 15 else 0

abbrev pub system : FileSystem memory
system = record {
  volume = record {
    ata = record {
      present = true;
      sector_count = 100;
      device = λ lba i. if lba == 1 then table i else 0;
    };
    fs = geometry;
    heap = record { header = λ i. record { size = 0; free = false }; offset = 0 };
  };
  disk = 1;
  type = fat32;
  current_directory_cluster = 2;
  current_path = b'/' ∷ [];
  mounted = true;
}

abbrev pub terminal : Terminal
terminal = record { screen = record { buffer = λ i. 0; color = 15; row = 0; col = 0 }; serial = [] }

abbrev pub shell : Shell memory
shell = record { fs = system; terminal = terminal; ticks = 4200 }

abbrev pub editor : Editor memory
editor = record { input = λ i. 0; index = 0; shell = shell }

abbrev pub no_names : ℕ → List ℕ
no_names i = []

abbrev pub blank : ℕ → ℕ
blank i = 0
