-- ===== src/Drivers/Vga/Putc.antt =====
-- The cursor, and the cells of the screen, under the operations.
use mathlib.Core.Path.{subst}
use miyar_os.Base.{
  ℕ, ◌+◌, ◌-◌, ◌*◌, ◌<◌, ◌≤◌, ◌≡◌, ◌≢◌, refl, sym, ap, ◌∙◌, inl, inr, true, false, ◌==◌, ltb, leb,
  update, Bool-cases, arith, List, [], ◌∷◌,
}
use miyar_os.Drivers.Vga.{
  Screen, vga_entry, vga_scroll, clamp, put_cell, vga_putc, vga_write, vga_backspace, back_cell,
}
use miyar_os.Drivers.Vga.Scroll.{copy_rows-moved, blank-kept, blank-blank}

pub record IsOnScreen (s : Screen) : Type 0 where
  pub row : s.row < 25
  pub col : s.col < 80

abbrev pub cell : Screen → ℕ
cell s = s.row * 80 + s.col

-- The screen `s'` shows `b` moved up a row, with the last row blank, and the cursor at its start.
pub record Scrolled (b : ℕ → ℕ) (color : ℕ) (s' : Screen) : Type 0 where
  pub moved : (i : ℕ) → i < 1920 → s'.buffer i ≡ b (i + 80)
  pub blanked : (i : ℕ) → 1920 ≤ i → i < 2000 → s'.buffer i ≡ vga_entry b' ' color
  pub row : s'.row ≡ 24
  pub col : s'.col ≡ 0

vga_scroll-past : (s : Screen) → s.row ≡ 25 → s.col ≡ 0 → Scrolled s.buffer s.color (vga_scroll s)
unfolding vga_scroll
vga_scroll-past s at_end start =
    let past : ltb s.row 25 ≡ false = ground arith in
    rw past (record {
      moved = λ i lo.
          blank-kept 80 1920 s.color _ i (inl lo)
          ∙ copy_rows-moved 24 1 s.buffer i (omega arith) (omega arith) lo;
      blanked = λ i lo hi. blank-blank 80 1920 s.color _ i lo hi;
      row = refl;
      col = start;
    })

vga_scroll-stays : (s : Screen) → s.row < 25 → vga_scroll s ≡ s
unfolding vga_scroll
vga_scroll-stays s h = let stays : ltb s.row 25 ≡ true = ground arith in rw stays

clamp-IsOnScreen : (s : Screen) → IsOnScreen s → clamp s ≡ s
unfolding clamp
clamp-IsOnScreen s h =
    let rows : leb 25 s.row ≡ false = ground (arith, h.row) in
    let columns : leb 80 s.col ≡ false = ground (arith, h.col) in rw (rows, columns)

-- What a character other than a newline does to the screen.
pub record Put (c : ℕ) (s s' : Screen) : Type 0 where
  pub next :
      cell s ≢ 1999
      → (s'.buffer ≡ update s.buffer (cell s) (vga_entry c s.color)) × (cell s' ≡ cell s + 1)
  pub last : cell s ≡ 1999 → Scrolled (update s.buffer 1999 (vga_entry c s.color)) s.color s'
  pub valid : IsOnScreen s'

-- The last column: the cursor goes to the next row, or the screen scrolls.
Put-last :
    (c : ℕ) (s t : Screen)
    → IsOnScreen s
    → s.col ≡ 79
    → t ≡ record s {
      buffer = update s.buffer (cell s) (vga_entry c s.color);
      row = s.row + 1;
      col = 0;
    }
    → Put c s (vga_scroll t)
Put-last c s t h full is = elim (Bool-cases (ltb (s.row + 1) 25)) [
  | inl inside ↦
      let stays : vga_scroll t ≡ t = vga_scroll-stays t (rw is (ground arith)) in
      rw (stays, is)
        (record {
          next = λ q. (refl, omega (arith, full));
          last = λ q. absurd (ground arith);
          valid = record { row = ground arith; col = omega arith };
        })
  | inr past ↦
      let bottom : s.row ≡ 24 = ground (arith, h.row) in
      let sc = vga_scroll-past t (rw is (omega (arith, bottom))) (rw is refl) in
      record {
        next = λ q. absurd (omega (arith, q, bottom, full));
        last = λ q.
            subst (λ k. Scrolled (update s.buffer k (vga_entry c s.color)) s.color (vga_scroll t)) q
              (subst (λ x. Scrolled x.buffer x.color (vga_scroll t)) is sc);
        valid = record { row = rw sc.row (omega arith); col = rw sc.col (omega arith) };
      }
]

-- On a screen whose cursor is inside, a character other than a newline keeps the cursor inside.
-- Away from the last cell it changes the cursor's cell only and moves the cursor one cell on, into
-- the next row at a row's end; at the last cell the screen with the character stored moves up a
-- row, its last row is blank in the current colour, and the cursor is at the start of that row.
pub vga_putc-Put : (c : ℕ) (s : Screen) → IsOnScreen s → c ≢ b'\n' → Put c s (vga_putc c s)
unfolding vga_putc put_cell
vga_putc-Put c s h ne =
    let plain : c == b'\n' ≡ false = ground arith in
    rw (plain, clamp-IsOnScreen s h)
      (elim (Bool-cases (leb 80 (s.col + 1))) [
        | inr inside ↦ rw inside (record {
          next = λ q. (refl, omega arith);
          last = λ q. absurd (ground arith);
          valid = record { row = h.row; col = ground arith };
        })
        | inl full ↦ rw full (Put-last c s _ h (ground (arith, h.col)) refl)
      ])

vga_putc-newline : (s : Screen) → IsOnScreen s → IsOnScreen (vga_putc b'\n' s)
unfolding vga_putc
vga_putc-newline s h = elim (Bool-cases (ltb (s.row + 1) 25)) [
  | inl inside ↦
      rw (vga_scroll-stays (record s { row = s.row + 1; col = 0 }) (ground arith))
        (record { row = ground arith; col = omega arith })
  | inr past ↦
      let sc =
        vga_scroll-past (record s { row = s.row + 1; col = 0 }) (ground (arith, h.row)) refl in
      record { row = rw sc.row (omega arith); col = rw sc.col (omega arith) }
]

vga_putc-IsOnScreen : (c : ℕ) (s : Screen) → IsOnScreen s → IsOnScreen (vga_putc c s)
vga_putc-IsOnScreen c s h = elim (Bool-cases (c == b'\n')) [
  | inl newline ↦
      let is : c ≡ b'\n' = ground arith in
      subst (λ x. IsOnScreen (vga_putc x s)) (sym is) (vga_putc-newline s h)
  | inr other ↦ let v = vga_putc-Put c s h (ground arith) in v.valid
]

-- Any text written from a cursor inside the screen, newlines included, leaves the cursor inside.
pub vga_write-IsOnScreen :
    (text : List ℕ) (s : Screen) → IsOnScreen s → IsOnScreen (vga_write text s)
unfolding vga_write
vga_write-IsOnScreen [] s h = h
vga_write-IsOnScreen (c ∷ cs) s h =
    vga_write-IsOnScreen cs (vga_putc c s) (vga_putc-IsOnScreen c s h)

backspace_lem :
    (s : Screen)
    → 0 < cell s
    → IsOnScreen s
    → (cell (vga_backspace s) + 1 ≡ cell s)
      × ((vga_backspace s).buffer ≡ update s.buffer (cell s - 1) (vga_entry b' ' s.color))
unfolding vga_backspace back_cell
backspace_lem s some_cell h = elim (Bool-cases (s.col == 0)) [
  | inr inside ↦
      let there : s.row * 80 + (s.col - 1) ≡ cell s - 1 = ground arith in
      rw inside (ground arith, ap (λ k. update s.buffer k (vga_entry b' ' s.color)) there)
  | inl start ↦
      let below : s.row == 0 ≡ false = ground arith in
      let there : (s.row - 1) * 80 + 79 ≡ cell s - 1 = ground arith in
      rw (start, below) (ground arith, ap (λ k. update s.buffer k (vga_entry b' ' s.color)) there)
]

overwrite : (f : ℕ → ℕ) (k a b i : ℕ) → update (update f k a) k b i ≡ update f k b i
overwrite f k a b i = ground arith

-- A backspace after a character that was put on a screen whose cursor is inside and away from the
-- last cell brings the cursor back, across a row's end too, and leaves the screen as it was but for
-- a blank in that cell.
pub vga_backspace-vga_putc :
    (c : ℕ) (s : Screen)
    → IsOnScreen s
    → c ≢ b'\n'
    → cell s ≢ 1999
    → (cell (vga_backspace (vga_putc c s)) ≡ cell s)
      × ((i : ℕ)
          → (vga_backspace (vga_putc c s)).buffer i
            ≡ update s.buffer (cell s) (vga_entry b' ' (vga_putc c s).color) i)
vga_backspace-vga_putc c s h ne before =
    let place : cell (vga_putc c s) - 1 ≡ cell s =
      omega (arith, ((vga_putc-Put c s h ne).next before).1) in
    let p = vga_putc-Put c s h ne in
    let (stored, moved) = p.next before in
    let (back, blanked) = backspace_lem (vga_putc c s) (omega (arith, moved)) p.valid in
    (
      omega (arith, back, moved),
      λ i.
          (λ j. blanked j i)
          ∙ (λ j.
              update (stored j) (cell (vga_putc c s) - 1) (vga_entry b' ' (vga_putc c s).color) i)
          ∙ (λ j.
              update (update s.buffer (cell s) (vga_entry c s.color)) (place j)
                (vga_entry b' ' (vga_putc c s).color) i)
          ∙ overwrite s.buffer (cell s) (vga_entry c s.color) (vga_entry b' ' (vga_putc c s).color)
              i,
    )
