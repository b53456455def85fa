-- ===== src/Shell/Print.antt =====
-- `write_uint32` of kernel/shell.c.
pub mod Digits
use miyar_os.Base.{ℕ, zero, suc, ◌+◌, ◌/◌, ◌%◌, List, [], ◌∷◌, ◌==◌, if◌then◌else◌}
use miyar_os.Drivers.Terminal.{Terminal, terminal_write, terminal_write_in}

-- The loop that fills the buffer: the digits from the last to the first, which the second loop
-- prints backwards. `done` is what stands behind them.
unfoldable pub digits : (rounds value : ℕ) → (done : List ℕ) → List ℕ
digits zero value done = done
digits (suc n) value done =
    let rest = digits n (value / 10) ((b'0' + value % 10) ∷ done) in
    if value == 0 then done else rest

unfoldable pub write_uint32 : (value : ℕ) → Terminal → Terminal
unfolding digits
write_uint32 value t =
    if value == 0 then terminal_write_in (b'0' ∷ []) t else terminal_write (digits 10 value []) t
