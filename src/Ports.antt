-- ===== src/Ports.antt =====
-- mouse_driver.c and keyboard_interrupt.c: the two ports of the keyboard controller.
pub mod Mouse
pub mod Polling
pub mod Keyboard
mod Examples
