-- ===== src/Drivers/Pic.antt =====
-- kernel/drivers/pic.c, as the bytes that are written to ports: the port and the byte, in order.
use miyar_os.Base.{ℕ, ◌^◌, ◌&&◌, List, [], ◌∷◌, ◌++◌, leb, ltb, if◌then◌else◌}

abbrev pub PortWrites : Type 0
PortWrites = List (ℕ × ℕ)

-- `irq` is the word of an `int`.
unfoldable pub pic_send_eoi : (irq : ℕ) → PortWrites → PortWrites
pic_send_eoi irq sent =
    let first = if leb 8 irq && ltb irq (2 ^ 31) then sent ++ ((0xA0, 0x20) ∷ []) else sent in
    first ++ ((0x20, 0x20) ∷ [])

unfoldable pub pic_init : PortWrites → PortWrites
pic_init sent =
    sent
    ++ ((0x20, 0x11)
        ∷ (0xA0, 0x11)
        ∷ (0x21, 0x20)
        ∷ (0xA1, 0x28)
        ∷ (0x21, 4)
        ∷ (0xA1, 2)
        ∷ (0x21, 1)
        ∷ (0xA1, 1)
        ∷ (0x21, 0)
        ∷ (0xA1, 0)
        ∷ [])
