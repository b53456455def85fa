-- ===== src/Fs/Disk/Memory.antt =====
-- A drive that is an array of sectors, on which the tests run.
use miyar_os.Base.{ℕ, ◌≡◌, ◌≢◌, refl, sym, ap, ◌∙◌, true, false, some, ◌==◌, update, arith}
use miyar_os.Fs.Disk.{Drive, Sector, IsReliable}

abbrev pub memory : Drive
memory = record {
  Device = ℕ → Sector;
  read = λ d lba. some (d lba);
  write = λ d lba s. (true, update d lba s);
}

stored : (d : ℕ → Sector) (lba i : ℕ) (s : Sector) → update d lba s lba i ≡ s i
stored d lba i s = let same : lba == lba ≡ true = ground arith in rw same

untouched :
    (d : ℕ → Sector) (lba other : ℕ) (s : Sector) → other ≢ lba → update d lba s other ≡ d other
untouched d lba other s ne = let apart : lba == other ≡ false = ground arith in rw apart

pub memory-IsReliable : IsReliable memory
memory-IsReliable = record {
  read_written =
      λ d d' lba s e. (d' lba, refl, λ i small. sym (λ j. (e j).1 lba i) ∙ stored d lba i s);
  read_other =
      λ d d' lba other s e ne. ap some (sym (λ j. (e j).1 other) ∙ untouched d lba other s ne);
}
