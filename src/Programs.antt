-- ===== src/Programs.antt =====
-- The user programs keyboard_interrupt_misc_device_test.c, which reads /dev/keylog, and manager.c,
-- which writes to /dev/mem and reads from it.
pub mod Stdio
pub mod KeylogTest
pub mod Session
pub mod Manager
mod Examples
