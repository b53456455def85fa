-- ===== src/Arch/Tests.antt =====
-- The theorems of the tables and of the interrupts at a machine with an empty buffer.
use miyar_os.Base.{ℕ, ◌+◌, ◌<◌, ◌≤◌, ◌≡◌, ◌≢◌, refl, false, some, List, [], ◌∷◌, ◌++◌, take, arith}
use miyar_os.Base.Text.{codes}
use miyar_os.Drivers.Terminal.{Terminal}
use miyar_os.Drivers.Keyboard.Queue.{IsRing, waiting}
use miyar_os.Fs.Disk.Memory.{memory}
use miyar_os.Process.Kernel.{Kernel}
use miyar_os.Process.Queue.{Queues}
use miyar_os.Process.Switch.Rotate.{chosen}
use miyar_os.Process.Scheduler.Tick.{Chosen}
use miyar_os.Process.Sample.{kernel, ready_threads, kernel-IsScheduled}
use miyar_os.Arch.Irq.Tick.{ticked, irq_handler-Chosen}
use miyar_os.Shell.Sample.{editor, no_names, blank}
use miyar_os.Shell.Execute.{shell_execute}
use miyar_os.Shell.Line.{after_command}
use miyar_os.Shell.Line.Keys.{type_keys, has_newline}
use miyar_os.Shell.Line.Rounds.{rounds}
use miyar_os.Arch.Gdt.{Gdt, gdt_set_gate}
use miyar_os.Arch.Gdt.Decode.{segment_base, segment_limit, segment_flags, gdt_set_gate-segment}
use miyar_os.Arch.Idt.{Idt, idt_init}
use miyar_os.Arch.Idt.Decode.{IsGate, idt_init-IsGate}
use miyar_os.Arch.Irq.{Machine, irq_handler}
use miyar_os.Arch.Irq.Scancodes.{key_of, typed}
use miyar_os.Arch.Irq.Keys.{keyboard_irqs, Pressed, keyboard_irqs-waiting}
use miyar_os.Arch.Irq.Typing.{keyboard_irqs-shell_execute}

abbrev machine : Machine
machine = record {
  kernel = kernel;
  keyboard = record { buffer = λ i. 0; head = 5; tail = 5 };
  shift_pressed = false;
  ticks = 0;
  sent = [];
}

-- The keys l and s, a shift that is pressed and let go, and enter.
abbrev scancodes : List ℕ
scancodes = 0x26 ∷ 0x1F ∷ 0x2A ∷ 0xAA ∷ 0x1C ∷ []

machine-IsRing : IsRing machine.keyboard
machine-IsRing = record { head = omega arith; tail = omega arith }

nothing_waits : waiting machine.keyboard ≡ []
unfolding waiting
nothing_waits = refl

typed_line : typed false scancodes ≡ codes "ls" ++ (b'\n' ∷ [])
unfolding typed key_of
typed_line = refl

one_line : has_newline (codes "ls") ≡ false
unfolding has_newline
one_line = refl

keyboard_irqs-waiting_example :
    (m' : Machine) × (keyboard_irqs 9 0x5000 scancodes machine ≡ some m')
    × Pressed (take 127 (waiting machine.keyboard ++ typed false scancodes)) 5 machine m'
keyboard_irqs-waiting_example = keyboard_irqs-waiting 9 0x5000 scancodes machine machine-IsRing

keyboard_irqs-shell_execute_example :
    (m' : Machine) × (input : ℕ → ℕ) × (t : Terminal) × (keyboard_irqs 9 0x5000 scancodes machine
      ≡ some m')
    × (rounds memory 1 no_names 9 blank 3 m'.keyboard editor
        ≡ after_command memory 1 no_names 9 blank input (
            shell_execute memory 1 no_names 9 blank
              (type_keys (codes "ls") [])
              (record editor.shell { terminal = t })))
keyboard_irqs-shell_execute_example =
    keyboard_irqs-shell_execute memory 1 no_names 9 blank 0x5000 scancodes machine (codes "ls")
      editor machine-IsRing nothing_waits typed_line (omega arith) one_line refl

abbrev idt : Idt
idt n = record { offset_low = 0; selector = 0; zero_byte = 0; type_attr = 0; offset_high = 0 }

idt_init-IsGate_example :
    ((n : ℕ) → n < 32 → IsGate 0x100040 (idt_init (λ k. 0x100040) (λ k. 0x100080) idt n))
    × ((n : ℕ) → n < 16 → IsGate 0x100080 (idt_init (λ k. 0x100040) (λ k. 0x100080) idt (32 + n)))
    × ((n : ℕ) → 48 ≤ n → idt_init (λ k. 0x100040) (λ k. 0x100080) idt n ≡ idt n)
idt_init-IsGate_example =
    idt_init-IsGate (λ k. 0x100040) (λ k. 0x100080) idt (λ n. omega arith) (λ n. omega arith)

irq_handler-Chosen_example :
    (j : Kernel) × (irq_handler 9 0x5F00 32 0 machine
      ≡ some ((kernel.threads (chosen kernel ready_threads)).saved_esp, ticked machine j))
    × Queues j (0x3000 ∷ 0x1000 ∷ []) []
    × Chosen kernel j 0x1000 (chosen kernel ready_threads) 0x5F00
irq_handler-Chosen_example =
    irq_handler-Chosen 9 0x5F00 0 machine (0x6000 ∷ []) kernel-IsScheduled (omega arith)
      (omega arith) (refl, omega arith, refl, refl)

abbrev no_segments : Gdt
no_segments num = record {
  limit_low = 0;
  base_low = 0;
  base_middle = 0;
  access = 0;
  granularity = 0;
  base_high = 0;
}

-- Code from 0x12345678 on, with its limit of 20 bits in pages.
abbrev code_segment : Gdt
code_segment = gdt_set_gate 1 0x12345678 0x7FFFF 0x9A 0xCF no_segments

gdt_set_gate-segment_example :
    (segment_base (code_segment 1) ≡ 0x12345678)
    × (segment_limit (code_segment 1) ≡ 0x7FFFF)
    × (segment_flags (code_segment 1) ≡ 0xC)
    × ((code_segment 1).access ≡ 0x9A)
    × ((other : ℕ) → other ≢ 1 → code_segment other ≡ no_segments other)
gdt_set_gate-segment_example =
    gdt_set_gate-segment 1 0x12345678 0x7FFFF 0x9A 0xCF no_segments (omega arith) (omega arith)
