-- ===== src/Fs/Directory/Entry.antt =====
-- An entry of a directory: `fat32_directory_entry_t` as its 32 bytes, by offset.
use miyar_os.Base.{ℕ, ◌+◌, ◌-◌, ◌*◌, ◌/◌, ◌%◌, ◌^◌, Bool, ◌&&◌, ltb, leb, if◌then◌else◌, update}
use miyar_os.Base.Bits.{bit_test}
use miyar_os.Fs.Disk.{Sector}
use miyar_os.Fs.Disk.Sector.{get16, get32, put32, byte_of}

abbrev pub Entry : Type 0
Entry = ℕ → ℕ

abbrev pub entry_size : ℕ
entry_size = 32

-- DIRECTORY_ENTRIES_PER_SECTOR
abbrev pub entries_per_sector : ℕ
entries_per_sector = 16

abbrev pub deleted_mark : ℕ
deleted_mark = 0xE5

abbrev pub attr_directory : ℕ
attr_directory = 0x10

abbrev pub attr_lfn : ℕ
attr_lfn = 0x0F

abbrev pub attr_archive : ℕ
attr_archive = 0x20

abbrev pub attributes : Entry → ℕ
attributes e = e 11

abbrev pub file_size : Entry → ℕ
file_size e = get32 e 28

-- `entry.attributes & FAT32_ATTR_DIRECTORY` and `& FAT32_ATTR_VOLUME_ID`
abbrev pub is_directory : Entry → Bool
is_directory e = bit_test (attributes e) 4

abbrev pub is_volume_id : Entry → Bool
is_volume_id e = bit_test (attributes e) 3

-- `entries[i]`
abbrev pub entry_at : Sector → ℕ → Entry
entry_at s i k = s (32 * i + k)

-- `entries[i] = *entry`
abbrev pub put_entry : Sector → ℕ → Entry → Sector
put_entry s i e j = if leb (32 * i) j && ltb j (32 * i + 32) then e (j - 32 * i) else s j

abbrev pub put16 : (ℕ → ℕ) → ℕ → ℕ → ℕ → ℕ
put16 s o w = update (update s o (byte_of w 0)) (o + 1) (byte_of w 1)

unfoldable pub directory_entry_cluster : Entry → ℕ
directory_entry_cluster e = get16 e 20 * 2 ^ 16 + get16 e 26

unfoldable pub directory_set_entry_cluster : Entry → (cluster : ℕ) → Entry
directory_set_entry_cluster e cluster =
    put16 (put16 e 26 (cluster % 2 ^ 16)) 20 (cluster / 2 ^ 16 % 2 ^ 16)

-- `memset(&entry, 0, sizeof(entry))`
abbrev pub blank_entry : Entry
blank_entry k = 0

abbrev pub set_attributes : Entry → ℕ → Entry
set_attributes e a = update e 11 a

abbrev pub set_file_size : Entry → ℕ → Entry
set_file_size e n = put32 e 28 n
