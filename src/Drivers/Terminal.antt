-- ===== src/Drivers/Terminal.antt =====
-- kernel/terminal.c, and kernel/drivers/serial.c as the bytes that have been sent to its port.
pub mod Serial
use miyar_os.Base.{ℕ, zero, suc, ◌+◌, ◌*◌, ◌/◌, ◌%◌, ◌^◌, List, [], ◌∷◌, ◌++◌, get_or}
use miyar_os.Base.Text.{codes}
use miyar_os.Drivers.Vga.{Screen, vga_putc, vga_set_color, vga_clear, vga_backspace}

pub record Terminal : Type 0 where
  pub screen : Screen
  -- What was written to port 0x3F8, in order.
  pub serial : List ℕ

unfoldable pub serial_putc : ℕ → Terminal → Terminal
serial_putc c t = record t { serial = t.serial ++ c ∷ [] }

-- The string is there.
pub kputs : List ℕ → Terminal → Terminal
kputs [] t = t
kputs (c ∷ cs) t = kputs cs (serial_putc c t)

-- VGA_BLACK and VGA_WHITE are 0 and 15.
pub terminal_init : Terminal → Terminal
terminal_init t = record t { screen = vga_clear (vga_set_color 0 15 t.screen) }

unfoldable pub terminal_putchar : ℕ → Terminal → Terminal
unfolding serial_putc
terminal_putchar c t = serial_putc c (record t { screen = vga_putc c t.screen })

unfoldable pub terminal_write : List ℕ → Terminal → Terminal
unfolding terminal_putchar
terminal_write [] t = t
terminal_write (c ∷ cs) t = terminal_write cs (terminal_putchar c t)

unfoldable pub terminal_write_in : List ℕ → Terminal → Terminal
unfolding terminal_write
terminal_write_in s t = terminal_write (b'\n' ∷ []) (terminal_write s t)

-- `hex[d]`
unfoldable pub hex_digit : ℕ → ℕ
hex_digit d = get_or (codes "0123456789ABCDEF") d 0

-- The loop of `terminal_write_hex`: the nibbles of a value, the `rounds` lowest, from the top down.
unfoldable pub hex_loop : (rounds value : ℕ) → Terminal → Terminal
unfolding terminal_putchar hex_digit
hex_loop zero value t = t
hex_loop (suc n) value t = hex_loop n value (terminal_putchar (hex_digit (value / 16 ^ n % 16)) t)

unfoldable pub terminal_write_hex : (value : ℕ) → Terminal → Terminal
unfolding hex_loop terminal_write
terminal_write_hex value t = hex_loop 8 value (terminal_write (codes "0x") t)

unfoldable pub terminal_prompt : Terminal → Terminal
unfolding terminal_write
terminal_prompt t = terminal_write (codes "> ") t

pub terminal_clear : Terminal → Terminal
terminal_clear t = record t { screen = vga_clear t.screen }

unfoldable pub terminal_backspace : Terminal → Terminal
terminal_backspace t = record t { screen = vga_backspace t.screen }
