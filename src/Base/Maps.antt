-- ===== src/Base/Maps.antt =====
-- Memory as a function of the address or index, and one write to it.
use Prim.Native.Nat.{ℕ}
use miyar_os.Base.Tests.{◌==◌, if◌then◌else◌}

abbrev pub update {ℓ} : {A : Type ℓ} → (ℕ → A) → ℕ → A → ℕ → A
update f i v j = if i == j then v else f j
