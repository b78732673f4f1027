-- ===== src/Usb.antt =====
-- usb_basic.c: a driver that logs when a pen drive is plugged in and removed.
pub mod Core
pub mod Driver
pub mod Plugging
mod Examples
