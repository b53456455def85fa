-- ===== src/Shell/Line/Typing.antt =====
-- The line of the editor, and what typing leaves of it.
use miyar_os.Base.{ℕ, ◌≤◌, ◌≡◌, refl, ap, ◌∙◌, Option, none, some, List}
use miyar_os.Drivers.Terminal.{Terminal}
use miyar_os.Fs.Disk.{Drive}
use miyar_os.Fs.File.{slice}
use miyar_os.Shell.{Shell, Stop}
use miyar_os.Shell.Line.{Editor, Round, goes_on, ends}

-- The line in the editor.
abbrev pub line_of : {D : Drive} → Editor D → List ℕ
line_of e = slice e.index 0 e.input

module _ {D : Drive} where
  -- What typing leaves of the editor `e` with a line in it: only the terminal of its shell changes,
  -- and only bytes of the input's 128 do.
  pub record Typed (text : List ℕ) (e e' : Editor D) : Type 0 where
    pub line : line_of e' ≡ text
    pub shell : (t : Terminal) × (e'.shell ≡ record e.shell { terminal = t })
    pub bound : e.index ≤ 127 → e'.index ≤ 127
    pub other : (i : ℕ) → 128 ≤ i → e'.input i ≡ e.input i

  pub same-Typed : (e : Editor D) (line : List ℕ) → line_of e ≡ line → Typed line e e
  same-Typed e line h = record {
    line = h;
    shell = (e.shell.terminal, refl);
    bound = λ small. small;
    other = λ i past. refl;
  }

  pub Typed-then :
      {one two : List ℕ} {e e' e'' : Editor D} → Typed one e e' → Typed two e' e'' → Typed two e e''
  Typed-then {e = e} {e' = e'} {e'' = e''} first second =
      let (t, is) = first.shell in
      let (u, is') = second.shell in
      let on_screen : Shell D → Shell D = λ s. record s { terminal = u } in
      record {
        line = second.line;
        shell = (u, is' ∙ ap on_screen is);
        bound = λ small. second.bound (first.bound small);
        other = λ i past. second.other i past ∙ first.other i past;
      }

  -- What a round can come to.
  pub data EditCases (r : Option (Round D)) : Type 0 where
    endless : r ≡ none → EditCases r
    ended : (why : Stop) (s : Shell D) → r ≡ some (ends why s) → EditCases r
    went_on : (e : Editor D) → r ≡ some (goes_on e) → EditCases r

  pub edit_cases : (r : Option (Round D)) → EditCases r
  edit_cases none = endless refl
  edit_cases (some (ends why s)) = ended why s refl
  edit_cases (some (goes_on e)) = went_on e refl
