-- ===== src/Fs/Mount.antt =====
-- kernel/fs/fs.c: the mounted file system, with the volume it stands on.
use miyar_os.Base.{ℕ, Bool, true, false, List, [], ◌∷◌, ◌==◌, if◌then◌else◌}
use miyar_os.Fs.Disk.{Drive}
use miyar_os.Fs.Fat32.{Volume, detect}
use miyar_os.Fs.Path.{slash}

pub data FsType : Type 0 where
  unknown fat32 : FsType

module _ (D : Drive) where
  -- `filesystem_t`, and the volume. `disk` is the pointer.
  pub record FileSystem : Type 0 where
    pub volume : Volume D
    pub disk : ℕ
    pub type : FsType
    pub current_directory_cluster : ℕ
    pub current_path : List ℕ
    pub mounted : Bool

  pub fs_init : FileSystem → FileSystem
  fs_init f = record f {
    disk = 0;
    type = unknown;
    current_directory_cluster = 0;
    current_path = slash ∷ [];
    mounted = false;
  }

  -- The path is there.
  unfoldable pub fs_set_current_directory : FileSystem → (cluster : ℕ) → List ℕ → FileSystem
  fs_set_current_directory f cluster path = record f {
    current_directory_cluster = cluster;
    current_path = path;
  }

  pub fs_mount : FileSystem → (disk : ℕ) → Bool × FileSystem
  fs_mount f disk =
      let (detected, v) = detect D disk f.volume in
      if disk == 0
      then (false, f)
      else if detected
      then (
        true,
        record f {
          volume = v;
          disk = disk;
          type = fat32;
          mounted = true;
          current_directory_cluster = v.fs.root_cluster;
          current_path = slash ∷ [];
        },
      )
      else (false, record f { volume = v; disk = 0; type = unknown; mounted = false })
