-- ===== src/Arch/Report.antt =====
-- kernel/panic.c, kernel/memory/page_fault.c and kernel/arch/x86/exceptions.c: what is printed
-- before the machine is halted. The functions do not return; the result is the terminal at the
-- halt.
use miyar_os.Base.{ℕ, Bool, List, [], ◌∷◌, ◌==◌, ltb, get_or, if◌then◌else◌}
use miyar_os.Base.Bits.{bit_test}
use miyar_os.Base.Text.{codes}
use miyar_os.Drivers.Terminal.{Terminal, terminal_write, terminal_write_in, terminal_write_hex}

-- The fields of `struct registers` that the reports read.
pub record Registers : Type 0 where
  pub int_no : ℕ
  pub err_code : ℕ
  pub eip : ℕ
  pub eflags : ℕ

-- A name, a number and a newline.
unfoldable pub say_number : (name : List ℕ) → (value : ℕ) → Terminal → Terminal
say_number name value t = terminal_write_in [] (terminal_write_hex value (terminal_write name t))

-- A name and a text.
unfoldable pub say_text : (name text : List ℕ) → Terminal → Terminal
say_text name text t = terminal_write_in text (terminal_write name t)

unfoldable pub say_lines : List (List ℕ) → Terminal → Terminal
say_lines [] t = t
say_lines (s ∷ ss) t = say_lines ss (terminal_write_in s t)

unfoldable pub kernel_panic : (message : List ℕ) → Registers → Terminal → Terminal
unfolding say_number say_lines
kernel_panic message r t =
    let title =
      say_lines
        ([]
          ∷ codes "========================"
          ∷ codes "      KERNEL PANIC"
          ∷ codes "========================"
          ∷ []
          ∷ message
          ∷ [])
        t in
    terminal_write_in (codes "System Halted.") (
      say_number (codes "Interrupt Number: ") r.int_no (
        say_number (codes "EFLAGS: ") r.eflags
          (say_number (codes "Error Code: ") r.err_code (say_number (codes "EIP: ") r.eip title))))

abbrev pub yes_no : Bool → List ℕ
yes_no b = if b then codes "Yes" else codes "No"

-- `fault_address` is what the processor's register CR2 holds.
unfoldable pub page_fault_handler : (fault_address error_code : ℕ) → Terminal → Terminal
unfolding say_number say_text say_lines
page_fault_handler fault_address error_code t =
    let title =
      say_lines
        ([]
          ∷ codes "========================"
          ∷ codes "      PAGE FAULT"
          ∷ codes "========================"
          ∷ [])
        t in
    let numbers = terminal_write_in [] (
      say_number (codes "Error Code: ") error_code
        (say_number (codes "Fault Address: ") fault_address title)) in
    let access = if bit_test error_code 1 then codes "Write" else codes "Read" in
    let mode = if bit_test error_code 2 then codes "User" else codes "Kernel" in
    say_lines ([] ∷ codes "System Halted." ∷ []) (
      say_text (codes "Instruction Fetch: ") (yes_no (bit_test error_code 4)) (
        say_text (codes "Reserved Bit: ") (yes_no (bit_test error_code 3)) (
          say_text (codes "Mode: ") mode (
            say_text (codes "Access: ") access
              (say_text (codes "Present: ") (yes_no (bit_test error_code 0)) numbers)))))

abbrev pub exception_names : List (List ℕ)
exception_names =
    codes "Divide Error"
    ∷ codes "Debug"
    ∷ codes "NMI"
    ∷ codes "Breakpoint"
    ∷ codes "Overflow"
    ∷ codes "BOUND"
    ∷ codes "Invalid Opcode"
    ∷ codes "Device Not Available"
    ∷ codes "Double Fault"
    ∷ codes "Coprocessor Segment"
    ∷ codes "Invalid TSS"
    ∷ codes "Segment Not Present"
    ∷ codes "Stack Fault"
    ∷ codes "General Protection Fault"
    ∷ codes "Page Fault"
    ∷ codes "Reserved"
    ∷ codes "x87 Floating Point"
    ∷ codes "Alignment Check"
    ∷ codes "Machine Check"
    ∷ codes "SIMD Floating Point"
    ∷ codes "Virtualization"
    ∷ []

pub exception_handler : (fault_address : ℕ) → Registers → Terminal → Terminal
unfolding kernel_panic page_fault_handler
exception_handler fault_address r t =
    let u = terminal_write (codes "\nEXCEPTION!\n") t in
    if r.int_no == 14
    then page_fault_handler fault_address r.err_code t
    else if ltb r.int_no 21
    then kernel_panic (get_or exception_names r.int_no []) r u
    else kernel_panic (codes "Unknown Exception") r u
