-- ===== src/Kobjects.antt =====
-- kobjects.c: the attributes foo, baz and bar of /sys/kernel/kobject_example.
pub mod Driver
pub mod Files
pub mod Directory
pub mod Types
pub mod Scanning
pub mod Attributes
mod Examples
