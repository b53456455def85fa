-- ===== src/Drivers/Vga.antt =====
-- kernel/drivers/vga.c: the text screen. A character is a byte; `char` is signed, so a byte from
-- 128 on is extended by ones where it becomes a 16-bit number.
pub mod Scroll
pub mod Putc
mod Tests
use Prim.Native.Nat.{bit_or}
use miyar_os.Base.{
  ℕ, zero, suc, ◌+◌, ◌-◌, ◌*◌, ◌%◌, List, [], ◌∷◌, ◌==◌, ltb, leb, if◌then◌else◌, update,
}

abbrev pub width : ℕ
width = 80

abbrev pub height : ℕ
height = 25

pub record Screen : Type 0 where
  pub buffer : ℕ → ℕ
  pub color : ℕ
  pub row : ℕ
  pub col : ℕ

unfoldable pub vga_entry : (c color : ℕ) → ℕ
vga_entry c color = bit_or (if ltb c 128 then c else 65280 + c) (color * 256)

-- The two loops of `vga_scroll` that move the rows up.
unfoldable pub copy_columns : (rounds row col : ℕ) → (ℕ → ℕ) → ℕ → ℕ
copy_columns zero row col b = b
copy_columns (suc n) row col b =
    copy_columns n row (col + 1) (update b ((row - 1) * width + col) (b (row * width + col)))

unfoldable pub copy_rows : (rounds row : ℕ) → (ℕ → ℕ) → ℕ → ℕ
copy_rows zero row b = b
copy_rows (suc n) row b = copy_rows n (row + 1) (copy_columns width row 0 b)

-- `n` cells from `from` on, blank.
unfoldable pub blank : (n from color : ℕ) → (ℕ → ℕ) → ℕ → ℕ
unfolding vga_entry
blank zero from color b = b
blank (suc n) from color b = blank n (from + 1) color (update b from (vga_entry b' ' color))

unfoldable pub vga_scroll : Screen → Screen
vga_scroll s = if ltb s.row height then s else record s {
  buffer = blank width ((height - 1) * width) s.color (copy_rows (height - 1) 1 s.buffer);
  row = height - 1;
}

pub vga_set_color : (foreground background : ℕ) → Screen → Screen
vga_set_color foreground background s = record s {
  color = bit_or (background * 16 % 256) foreground;
}

unfoldable pub vga_clear : Screen → Screen
unfolding blank
vga_clear s = record s { buffer = blank (width * height) 0 s.color s.buffer; row = 0; col = 0 }

-- The checks of the cursor in `vga_putc`.
unfoldable pub clamp : Screen → Screen
clamp s =
    let r = if leb height s.row then height - 1 else s.row in
    if leb width s.col then record s { row = r + 1; col = 0 } else record s { row = r }

-- The store, and the cursor moved on.
unfoldable pub put_cell : ℕ → Screen → Screen
put_cell c s =
    let b = update s.buffer (s.row * width + s.col) (vga_entry c s.color) in
    let next = s.col + 1 in
    if leb width next
    then vga_scroll (record s { buffer = b; row = s.row + 1; col = 0 })
    else record s { buffer = b; col = next }

unfoldable pub vga_putc : ℕ → Screen → Screen
vga_putc c s =
    if c == b'\n' then vga_scroll (record s { row = s.row + 1; col = 0 }) else put_cell c (clamp s)

unfoldable pub vga_write : List ℕ → Screen → Screen
vga_write [] s = s
vga_write (c ∷ cs) s = vga_write cs (vga_putc c s)

unfoldable pub back_cell : Screen → Screen
back_cell s = record s { buffer = update s.buffer (s.row * width + s.col) (vga_entry b' ' s.color) }

unfoldable pub vga_backspace : Screen → Screen
vga_backspace s =
    if s.col == 0
    then if s.row == 0 then s else back_cell (record s { row = s.row - 1; col = width - 1 })
    else back_cell (record s { col = s.col - 1 })
