-- ===== src/Drivers/Serial.antt =====
-- `serial_init` of kernel/drivers/serial.c, as the bytes that are written to ports. What is sent to
-- the port afterwards stands in Drivers/Terminal.
use miyar_os.Base.{[], ◌∷◌, ◌++◌}
use miyar_os.Drivers.Pic.{PortWrites}

pub serial_init : PortWrites → PortWrites
serial_init sent =
    sent
    ++ ((0x3F9, 0)
        ∷ (0x3FB, 0x80)
        ∷ (0x3F8, 1)
        ∷ (0x3F9, 0)
        ∷ (0x3FB, 3)
        ∷ (0x3FA, 0xC7)
        ∷ (0x3FC, 0x0B)
        ∷ [])
