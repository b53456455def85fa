-- ===== src/Arch/Irq.antt =====
-- kernel/arch/x86/irq.c: the timer's and the keyboard's interrupts.
pub mod Tables
pub mod Scancodes
pub mod Keys
pub mod Typing
pub mod Tick
use miyar_os.Base.{
  ℕ, ◌+◌, ◌-◌, ◌%◌, ◌^◌, Bool, true, false, not, ◌&&◌, ◌||◌, Option, none, some, ◌==◌, ltb, get_or,
  if◌then◌else◌,
}
use miyar_os.Base.Bits.{bit_test}
use miyar_os.Drivers.Keyboard.{Keyboard, keyboard_buffer_put}
use miyar_os.Drivers.Pic.{PortWrites, pic_send_eoi}
use miyar_os.Drivers.Timer.{timer_tick}
use miyar_os.Process.Kernel.{Kernel}
use miyar_os.Process.Scheduler.{scheduler_schedule}
use miyar_os.Arch.Irq.Tables.{scancode_table, scancode_table_shift}

-- What the handler reads and writes. `sent` is what was written to the controllers' ports.
pub record Machine : Type 0 where
  pub kernel : Kernel
  pub keyboard : Keyboard
  pub shift_pressed : Bool
  pub ticks : ℕ
  pub sent : PortWrites

-- The branch for the keyboard, on the byte that was read from port 0x60.
unfoldable pub on_scancode : (scancode : ℕ) → Machine → Machine
on_scancode scancode m =
    let table = if m.shift_pressed then scancode_table_shift else scancode_table in
    let c = get_or table scancode 0 in
    if (scancode == 0x2A) || (scancode == 0x36)
    then record m { shift_pressed = true }
    else if (scancode == 0xAA) || (scancode == 0xB6)
    then record m { shift_pressed = false }
    else if not (bit_test scancode 7) && ltb scancode 128
    then if not (c == 0) then record m { keyboard = keyboard_buffer_put c m.keyboard } else m
    else m

-- `r` is the address of the registers, `int_no` their interrupt's number. The result is the stack
-- to go on with.
pub irq_handler : (fuel : ℕ) → (r int_no scancode : ℕ) → Machine → Option (ℕ × Machine)
unfolding on_scancode timer_tick pic_send_eoi
irq_handler fuel r int_no scancode m =
    let read = if int_no == 33 then on_scancode scancode m else m in
    let acknowledge : Machine → Machine =
      λ n. record n { sent = pic_send_eoi ((int_no + (2 ^ 32 - 32)) % 2 ^ 32) n.sent } in
    let ticked = record read { ticks = timer_tick read.ticks } in
    if int_no == 32
    then elim (scheduler_schedule fuel ticked.kernel r) [
      | none ↦ none
      | some (next_esp, k) ↦ some (next_esp, acknowledge (record ticked { kernel = k }))
    ]
    else some (r, acknowledge read)
