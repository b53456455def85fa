-- ===== src/Drivers/Keyboard.antt =====
-- kernel/drivers/keyboard.c: the ring buffer between the keyboard's interrupt and the shell. The
-- interrupt flag that `keyboard_getchar` clears and sets is not modelled: an operation is one step.
pub mod Queue
use miyar_os.Base.{ℕ, ◌+◌, ◌%◌, ◌^◌, ◌==◌, if◌then◌else◌, update}

abbrev pub buffer_size : ℕ
buffer_size = 128

pub record Keyboard : Type 0 where
  pub buffer : ℕ → ℕ
  pub head : ℕ
  pub tail : ℕ

unfoldable pub keyboard_init : Keyboard → Keyboard
keyboard_init k = record k { head = 0; tail = 0 }

unfoldable pub keyboard_buffer_put : ℕ → Keyboard → Keyboard
keyboard_buffer_put c k =
    let next = (k.head + 1) % 2 ^ 32 % buffer_size in
    if next == k.tail then k else record k { buffer = update k.buffer k.head c; head = next }

-- The character, 0 for none, and what is left.
unfoldable pub keyboard_getchar : Keyboard → ℕ × Keyboard
keyboard_getchar k =
    if k.head == k.tail
    then (0, k)
    else (k.buffer k.tail, record k { tail = (k.tail + 1) % 2 ^ 32 % buffer_size })
