-- ===== src/Drivers/Timer.antt =====
-- kernel/drivers/timer.c. `timer_ticks` reads the counter, with interrupts off: one step.
use miyar_os.Base.{ℕ, ◌+◌, ◌/◌, ◌%◌, ◌^◌, [], ◌∷◌, ◌++◌}
use miyar_os.Drivers.Pic.{PortWrites}

-- `1193182 / PIT_FREQUENCY`
abbrev pub divisor : ℕ
divisor = 1193182 / 100 % 2 ^ 16

unfoldable pub timer_init : PortWrites → PortWrites
timer_init sent =
    sent ++ ((0x43, 0x36) ∷ (0x40, divisor % 2 ^ 8) ∷ (0x40, divisor / 2 ^ 8 % 2 ^ 8) ∷ [])

unfoldable pub timer_tick : (ticks : ℕ) → ℕ
timer_tick ticks = (ticks + 1) % 2 ^ 32
