-- ===== src/Shell/Line/Laws.antt =====
-- The line that the editor has read, as a list.
use mathlib.Core.Path.{subst}
use miyar_os.Base.{
  ℕ, suc, ◌+◌, ◌-◌, ◌≤◌, ◌≡◌, refl, sym, ap, ◌∙◌, inl, inr, false, Option, none, some, List, [],
  ◌∷◌, ◌++◌, length, ◌==◌, ltb, if◌then◌else◌, update, Bool-cases, arith,
}
use miyar_os.Drivers.Terminal.{Terminal, terminal_write, terminal_backspace}
use miyar_os.Fs.Disk.{Drive}
use miyar_os.Fs.File.{slice}
use miyar_os.Shell.{on_terminal}
use miyar_os.Shell.Execute.{shell_execute}
use miyar_os.Shell.Line.Keys.{
  drop_last, drop_last-snoc, slice-last, slice-update, length-slice, type_key, type_keys,
  has_newline,
}
use miyar_os.Shell.Line.{Editor, Round, goes_on, ends, after_command, edit}
use miyar_os.Shell.Line.Typing.{
  line_of, Typed, same-Typed, Typed-then, edit_cases, endless, ended, went_on,
}

module _ (D : Drive) (disk : ℕ) (a : ℕ → List ℕ) (fuel : ℕ) (scratch : ℕ → ℕ) where
  edit-backspace :
      (e : Editor D)
      → (e' : Editor D) × (edit D disk a fuel scratch 8 e ≡ some (goes_on e'))
        × Typed (drop_last (line_of e)) e e'
  unfolding edit drop_last slice
  edit-backspace e = elim (Bool-cases (ltb 0 e.index)) [
    | inl some_byte ↦
        let n = e.index - 1 in
        let is : e.index ≡ suc n = ground arith in
        let line : slice n 0 e.input ≡ drop_last (slice e.index 0 e.input) = sym (
          ap drop_last (ap (λ k. slice k 0 e.input) is ∙ slice-last n e.input)
          ∙ drop_last-snoc (slice n 0 e.input) (e.input n)) in
        (
          record e { index = n; shell = on_terminal terminal_backspace e.shell },
          rw (some_byte) refl,
          record {
            line = line;
            shell = (terminal_backspace e.shell.terminal, refl);
            bound = λ small. omega (arith, small);
            other = λ i past. refl;
          },
        )
    | inr nothing ↦
        let is : e.index ≡ 0 = ground arith in
        (
          e,
          rw (nothing) refl,
          same-Typed e (drop_last (line_of e))
              (ap (λ k. slice k 0 e.input) is ∙ sym (ap (λ k. drop_last (slice k 0 e.input)) is)),
        )
  ]

  edit-letter :
      (c : ℕ) (e : Editor D)
      → (c == 0) ≡ false
      → (c == 8) ≡ false
      → (c == 10) ≡ false
      → (e' : Editor D) × (edit D disk a fuel scratch c e ≡ some (goes_on e'))
        × Typed (if ltb (length (line_of e)) 127 then line_of e ++ (c ∷ []) else line_of e) e e'
  unfolding edit
  edit-letter c e z b n = elim (Bool-cases (ltb e.index 127)) [
    | inl room ↦
        let line : slice (e.index + 1) 0 (update e.input e.index c) ≡ line_of e ++ (c ∷ []) =
          let more : e.index + 1 ≡ suc e.index = omega arith in
          let put : update e.input e.index c e.index ≡ c = ground arith in
          ap (λ k. slice k 0 (update e.input e.index c)) more
          ∙ slice-last e.index (update e.input e.index c)
          ∙ rw (put, slice-update e.index 0 e.index c e.input (omega arith)) refl in
        (
          record e {
            input = update e.input e.index c;
            index = e.index + 1;
            shell = on_terminal (terminal_write (c ∷ [])) e.shell;
          },
          rw (z, b, n, room) refl,
          record {
            line = line ∙ rw (length-slice e.index 0 e.input, room) refl;
            shell = (terminal_write (c ∷ []) e.shell.terminal, refl);
            bound = λ small. ground (arith, room);
            other = λ i past. ground (arith, room, past);
          },
        )
    | inr full ↦ (
      e,
      rw (z, b, n, full) refl,
      same-Typed e _ (rw (length-slice e.index 0 e.input, full) refl),
    )
  ]

  -- A key other than the newline.
  edit-type_key :
      (c : ℕ) (e : Editor D)
      → (c == 10) ≡ false
      → (e' : Editor D) × (edit D disk a fuel scratch c e ≡ some (goes_on e'))
        × Typed (type_key c (line_of e)) e e'
  unfolding edit type_key
  edit-type_key c e n = elim (Bool-cases (c == 0)) [
    | inl z ↦ (e, rw (z) refl, same-Typed e _ (rw (z) refl))
    | inr z ↦ elim (Bool-cases (c == 8)) [
      | inl b ↦
          let is : 8 ≡ c = ground arith in
          subst
            (λ k.
              (e' : Editor D) × (edit D disk a fuel scratch k e ≡ some (goes_on e'))
              × Typed (type_key k (line_of e)) e e')
            is (edit-backspace e)
      | inr b ↦
          let (e', went, typed) = edit-letter c e z b n in (e', went, rw (type_key, z, b) typed)
    ]
  ]

  -- The keys one after another.
  unfoldable pub edit_all : List ℕ → Editor D → Option (Round D)
  edit_all [] e = some (goes_on e)
  edit_all (c ∷ cs) e = elim (edit D disk a fuel scratch c e) [
    | none ↦ none
    | some (ends why s) ↦ some (ends why s)
    | some (goes_on e') ↦ edit_all cs e'
  ]

  edit_all-Typed :
      (keys rest : List ℕ) (e : Editor D)
      → has_newline keys ≡ false
      → (e' : Editor D) × (edit_all (keys ++ rest) e ≡ edit_all rest e')
        × Typed (type_keys keys (line_of e)) e e'
  unfolding edit_all type_keys has_newline
  edit_all-Typed [] rest e h = (e, refl, same-Typed e (line_of e) refl)
  edit_all-Typed (c ∷ cs) rest e h =
      let letter : (c == 10) ≡ false = elim (Bool-cases (c == 10)) [ inl y ↦ cc | inr n ↦ n ] in
      let others : has_newline cs ≡ false = elim (Bool-cases (c == 10)) [
        | inl y ↦ cc
        | inr n ↦ cc
      ] in
      let (e', went, one) = edit-type_key c e letter in
      let (e'', then_went, more) = edit_all-Typed cs rest e' others in
      (
        e'',
        rw (edit_all, went) then_went,
        Typed-then one (subst (λ l. Typed (type_keys cs l) e' e'') one.line more),
      )

  edit_all-one : (c : ℕ) (e : Editor D) → edit_all (c ∷ []) e ≡ edit D disk a fuel scratch c e
  unfolding edit_all
  edit_all-one c e = elim (edit_cases (edit D disk a fuel scratch c e)) [
    | endless h ↦ rw (edit_all, h) refl
    | ended why s h ↦ rw (edit_all, h) refl
    | went_on e' h ↦ rw (edit_all, h) refl
  ]

  -- A newline runs the shell on the line.
  edit-newline :
      (e : Editor D)
      → edit D disk a fuel scratch 10 e
        ≡ after_command D disk a fuel scratch
            (update e.input e.index 0)
            (shell_execute D disk a fuel scratch (line_of e) e.shell)
  unfolding edit
  edit-newline e = refl

  -- At a prompt, where the line is empty, keys without a newline and then a newline run the shell
  -- on the line that was typed: 0 keys are passed over, a backspace takes the last byte, and what
  -- comes when 127 bytes are there is lost. The shell is the one of before, but for its terminal,
  -- and of the input only the first 128 bytes have changed.
  pub edit_all-shell_execute :
      (keys : List ℕ) (e : Editor D)
      → has_newline keys ≡ false
      → e.index ≡ 0
      → (input : ℕ → ℕ) × (t : Terminal) × (edit_all (keys ++ (10 ∷ [])) e
          ≡ after_command D disk a fuel scratch input (
              shell_execute D disk a fuel scratch
                (type_keys keys [])
                (record e.shell { terminal = t })))
        × ((i : ℕ) → 128 ≤ i → input i ≡ e.input i)
  unfolding slice
  edit_all-shell_execute keys e h start =
      let (e', went, typed) = edit_all-Typed keys (10 ∷ []) e h in
      let (t, is) = typed.shell in
      let nothing : line_of e ≡ [] = ap (λ k. slice k 0 e.input) start in
      let line : line_of e' ≡ type_keys keys [] = typed.line ∙ ap (type_keys keys) nothing in
      let small : e'.index ≤ 127 = typed.bound (omega (arith, start)) in
      (
        update e'.input e'.index 0,
        t,
        went
            ∙ edit_all-one 10 e'
            ∙ edit-newline e'
            ∙ ap
                (λ l.
                  after_command D disk a fuel scratch (update e'.input e'.index 0)
                    (shell_execute D disk a fuel scratch l e'.shell))
                line
            ∙ ap
                (λ s.
                  after_command D disk a fuel scratch (update e'.input e'.index 0)
                    (shell_execute D disk a fuel scratch (type_keys keys []) s))
                is,
        λ i past.
            let apart : update e'.input e'.index 0 i ≡ e'.input i = ground (arith, small, past) in
            apart ∙ typed.other i past,
      )
