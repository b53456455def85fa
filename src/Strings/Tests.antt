-- ===== src/Strings/Tests.antt =====
-- The strings' theorems on "ab" at 10 and "c" at 20.
use miyar_os.Base.{ℕ, ◌≡◌, refl, some, List, [], ◌∷◌, ◌==◌, if◌then◌else◌, arith}
use miyar_os.Fs.Path.{same_string}
use miyar_os.Strings.{Memory, ℤ, strcmp}
use miyar_os.Strings.Holds.{Holds}
use miyar_os.Strings.Compare.{is_zero, strcmp-same_string}

abbrev memory : Memory
memory k = if k == 10 then 97 else if k == 11 then 98 else if k == 20 then 99 else 0

abbrev first : List ℕ
first = 97 ∷ 98 ∷ []

abbrev second : List ℕ
second = 99 ∷ []

first-Holds : Holds memory 10 first
unfolding Holds
first-Holds = (refl, (λ e. absurd (ground arith)), (refl, (λ e. absurd (ground arith)), refl))

second-Holds : Holds memory 20 second
unfolding Holds
second-Holds = (refl, (λ e. absurd (ground arith)), refl)

strcmp-same_string_example :
    (d : ℤ) × (strcmp 3 memory 10 20 ≡ some d) × (is_zero d ≡ same_string first second)
strcmp-same_string_example =
    strcmp-same_string 3 memory 10 20 first second first-Holds second-Holds (omega arith)
