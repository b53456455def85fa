-- ===== src/Shell/Line/Rounds.antt =====
-- The loop of `kernel_main` on the keys that wait in the keyboard's buffer.
use miyar_os.Base.{
  ℕ, zero, suc, ◌+◌, ◌≤◌, ◌≡◌, refl, sym, ap, ◌∙◌, inl, inr, Bool, false, Option, none, some, List,
  [], ◌∷◌, ◌++◌, length, length-append, ◌≢◌, ◌==◌, Bool-cases, arith, if◌then◌else◌,
}
use miyar_os.Drivers.Terminal.{Terminal}
use miyar_os.Drivers.Keyboard.{Keyboard, keyboard_getchar}
use miyar_os.Drivers.Keyboard.Queue.{IsRing, waiting, keyboard_getchar-waiting}
use miyar_os.Fs.Disk.{Drive}
use miyar_os.Shell.Execute.{shell_execute}
use miyar_os.Shell.Line.{Editor, Round, goes_on, ends, after_command, edit, round}
use miyar_os.Shell.Line.Keys.{type_keys, has_newline}
use miyar_os.Shell.Line.Typing.{edit_cases, endless, ended, went_on}
use miyar_os.Shell.Line.Laws.{edit_all, edit_all-shell_execute}

first_or : ℕ → List ℕ → ℕ
first_or d [] = d
first_or d (c ∷ cs) = c

rest : List ℕ → List ℕ
rest [] = []
rest (c ∷ cs) = cs

∷-ne-[] : {c : ℕ} {cs : List ℕ} → c ∷ cs ≢ []
∷-ne-[] e = ground (arith, e)

keyboard_getchar-first :
    (k : Keyboard) (c : ℕ) (cs : List ℕ)
    → IsRing k
    → waiting k ≡ c ∷ cs
    → ((keyboard_getchar k).0 ≡ c)
      × (IsRing (keyboard_getchar k).1)
      × (waiting (keyboard_getchar k).1 ≡ cs)
unfolding first_or rest
keyboard_getchar-first k c cs r h =
    let (r', is) = keyboard_getchar-waiting k r in
    let branch : Bool → List ℕ =
      λ b. if b then [] else (keyboard_getchar k).0 ∷ waiting (keyboard_getchar k).1 in
    elim (Bool-cases (k.head == k.tail)) [
      | inl empty ↦ absurd (∷-ne-[] (sym h ∙ is ∙ ap branch empty))
      | inr more ↦
          let front = sym (is ∙ ap branch more) ∙ h in (ap (first_or 0) front, r', ap rest front)
    ]

module _ (D : Drive) (disk : ℕ) (a : ℕ → List ℕ) (fuel : ℕ) (scratch : ℕ → ℕ) where
  -- Some rounds of the loop.
  unfoldable pub rounds : (n : ℕ) → Keyboard → Editor D → Option (Round D)
  rounds zero k e = some (goes_on e)
  rounds (suc n) k e = elim (round D disk a fuel scratch k e) [
    | none ↦ none
    | some (ends why s, k') ↦ some (ends why s)
    | some (goes_on e', k') ↦ rounds n k' e'
  ]

  round-first :
      (k : Keyboard) (c : ℕ) (e : Editor D)
      → (keyboard_getchar k).0 ≡ c
      → round D disk a fuel scratch k e ≡ elim (edit D disk a fuel scratch c e) [
        | none ↦ none
        | some r ↦ some (r, (keyboard_getchar k).1)
      ]
  unfolding round
  round-first k c e is = rw (round, is) refl

  rounds-edit_all :
      (keys : List ℕ) (k : Keyboard) (e : Editor D)
      → IsRing k
      → waiting k ≡ keys
      → rounds (length keys) k e ≡ edit_all D disk a fuel scratch keys e
  unfolding rounds edit_all
  rounds-edit_all [] k e r h = refl
  rounds-edit_all (c ∷ cs) k e r h =
      let (first, r', left) = keyboard_getchar-first k c cs r h in
      elim (edit_cases (edit D disk a fuel scratch c e)) [
        | endless g ↦ rw (rounds, round-first k c e first, g, edit_all) refl
        | ended why s g ↦ rw (rounds, round-first k c e first, g, edit_all) refl
        | went_on e' g ↦
            rw (rounds, round-first k c e first, g, edit_all)
              (rounds-edit_all cs (keyboard_getchar k).1 e' r' left)
      ]

  -- At a prompt, where the line is empty, with keys without a newline and then a newline waiting in
  -- the keyboard's buffer and nothing else, as many rounds of the loop as keys wait run the shell
  -- on the line that was typed: a backspace takes the last byte, keys of the value 0 are passed
  -- over, and what comes when 127 bytes are there is lost. The shell is the one of before but for
  -- its terminal, and of the input only the first 128 bytes have changed.
  pub rounds-shell_execute :
      (keys : List ℕ) (k : Keyboard) (e : Editor D)
      → IsRing k
      → waiting k ≡ keys ++ (b'\n' ∷ [])
      → has_newline keys ≡ false
      → e.index ≡ 0
      → (input : ℕ → ℕ) × (t : Terminal) × (rounds (length keys + 1) k e
          ≡ after_command D disk a fuel scratch input (
              shell_execute D disk a fuel scratch
                (type_keys keys [])
                (record e.shell { terminal = t })))
        × ((i : ℕ) → 128 ≤ i → input i ≡ e.input i)
  rounds-shell_execute keys k e r h line start =
      let (input, t, went, other) =
        edit_all-shell_execute D disk a fuel scratch keys e line start in
      let n : length keys + 1 ≡ length (keys ++ (b'\n' ∷ [])) =
        sym (length-append keys (b'\n' ∷ [])) in
      (
        input,
        t,
        ap (λ m. rounds m k e) n ∙ rounds-edit_all (keys ++ (b'\n' ∷ [])) k e r h ∙ went,
        other,
      )
