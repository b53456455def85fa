-- ===== src/Fs/File/Copy.antt =====
-- `file_copy` of kernel/fs/file.c. A result `none` stands for a search that does not end.
use miyar_os.Base.{
  ℕ, zero, suc, Bool, true, false, Option, none, some, List, [], ◌∷◌, ◌==◌, ltb, if◌then◌else◌,
}
use miyar_os.Fs.Disk.{Drive}
use miyar_os.Fs.Mount.{FileSystem}
use miyar_os.Fs.Lookup.{Lookup, path_lookup}
use miyar_os.Fs.Directory.Entry.{is_directory}
use miyar_os.Fs.File.{File, bytes, error, file_open, cluster_size}
use miyar_os.Fs.File.Read.{file_read}
use miyar_os.Fs.File.Write.{file_append}
use miyar_os.Fs.File.Paths.{file_create}

-- The bytes of a list, by offset.
unfoldable pub byte_at : List ℕ → ℕ → ℕ
byte_at [] k = 0
byte_at (c ∷ cs) zero = c
byte_at (c ∷ cs) (suc k) = byte_at cs k

module _ (D : Drive) (disk : ℕ) (a : ℕ → List ℕ) where
  -- The loop of `file_copy`: `scratch` is what the cluster buffers held. The fuel bounds the pieces
  -- too.
  copy_loop :
      (rounds fuel : ℕ)
      → (scratch : ℕ → ℕ) → FileSystem D
      → (source target : File) → Option (Bool × FileSystem D)
  copy_loop zero fuel scratch f source target = none
  copy_loop (suc n) fuel scratch f source target =
      let r = file_read D disk scratch f.volume source (cluster_size f.volume.fs) in
      elim r.result [
        | error c ↦ some (false, f)
        | bytes zero ↦ some (true, f)
        | bytes (suc k) ↦
            elim (file_append D disk fuel scratch (byte_at r.data_read) f.volume target (suc k)) [
              | none ↦ none
              | some w ↦
                  let g = record f { volume = w.volume } in
                  elim w.result [
                    | error c ↦ some (false, g)
                    | bytes m ↦
                        if m == suc k
                        then copy_loop n fuel scratch g r.file w.file
                        else some (false, g)
                  ]
            ]
      ]

  -- The two files, opened.
  copy_between :
      (fuel : ℕ)
      → (scratch : ℕ → ℕ) → FileSystem D
      → (source target : Lookup) → Option (Bool × FileSystem D)
  unfolding copy_loop
  copy_between fuel scratch f source target = elim target.entry [
    | none ↦ some (false, f)
    | some te ↦ elim source.entry [
      | none ↦ some (false, f)
      | some se ↦ elim (file_open disk source.parent se) [
        | none ↦ some (false, f)
        | some sf ↦ elim (file_open disk target.parent te) [
          | none ↦ some (false, f)
          | some tf ↦
              if ltb 4096 (cluster_size f.volume.fs)
              then some (false, f)
              else copy_loop fuel fuel scratch f sf tf
        ]
      ]
    ]
  ]

  pub file_copy :
      (fuel : ℕ)
      → (scratch : ℕ → ℕ) → FileSystem D
      → (source destination : List ℕ) → Option (Bool × FileSystem D)
  unfolding copy_between
  file_copy fuel scratch f source destination =
      if disk == 0 then some (false, f) else elim (path_lookup D disk a fuel f source 0 []) [
        | none ↦ none
        | some l ↦ elim l.entry [
          | none ↦ some (false, f)
          | some e ↦
              if is_directory e
              then some (false, f)
              else elim (file_create D disk a fuel f destination) [
                | none ↦ none
                | some (false, g) ↦ some (false, g)
                | some (true, g) ↦ elim (path_lookup D disk a fuel g destination 0 []) [
                  | none ↦ none
                  | some t ↦ copy_between fuel scratch g l t
                ]
              ]
        ]
      ]
