-- ===== src/Drivers/Vga/Tests.antt =====
-- The screen's theorems at the ends of a row and of the screen.
use miyar_os.Base.{arith}
use miyar_os.Drivers.Vga.{Screen, vga_putc}
use miyar_os.Drivers.Vga.Putc.{IsOnScreen, Put, vga_putc-Put}

-- The last column of a row, and the last cell.
abbrev row_end : Screen
row_end = record { buffer = λ i. 0; color = 15; row = 3; col = 79 }

abbrev last_cell : Screen
last_cell = record { buffer = λ i. 0; color = 15; row = 24; col = 79 }

row_end-IsOnScreen : IsOnScreen row_end
row_end-IsOnScreen = record { row = omega arith; col = omega arith }

last_cell-IsOnScreen : IsOnScreen last_cell
last_cell-IsOnScreen = record { row = omega arith; col = omega arith }

vga_putc-Put_example : Put b'a' last_cell (vga_putc b'a' last_cell)
vga_putc-Put_example = vga_putc-Put b'a' last_cell last_cell-IsOnScreen (omega arith)
