-- ===== src/Keylog.antt =====
-- keyboard_interrupt_misc_device.c: /dev/keylog, whose read waits until the interrupt handler has
-- logged as many scan codes as were asked for.
pub mod Driver
pub mod Files
pub mod Keys
pub mod Readers
pub mod Exit
mod Examples
