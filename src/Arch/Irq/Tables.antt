-- ===== src/Arch/Irq/Tables.antt =====
-- The characters of the keys, by scancode; 0 for none. The rest of the 128 is 0.
use miyar_os.Base.{ℕ, List, [], ◌∷◌, ◌++◌}
use miyar_os.Base.Text.{codes}

abbrev pub scancode_table : List ℕ
scancode_table =
    (0 ∷ 27 ∷ codes "1234567890-=\u{8}\tqwertyuiop[]\n")
    ++ ((0 ∷ codes "asdfghjkl;'`") ++ ((0 ∷ codes "\\zxcvbnm,./") ++ (0 ∷ b'*' ∷ 0 ∷ b' ' ∷ [])))

abbrev pub scancode_table_shift : List ℕ
scancode_table_shift =
    (0 ∷ 27 ∷ codes "!@#$%^&*()_+\u{8}\tQWERTYUIOP{}\n")
    ++ ((0 ∷ codes "ASDFGHJKL:\"~") ++ ((0 ∷ codes "|ZXCVBNM<>?") ++ (0 ∷ b'*' ∷ 0 ∷ b' ' ∷ [])))
