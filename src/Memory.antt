-- ===== src/Memory.antt =====
-- chardev_fops.c: the one byte behind /dev/memory.
pub mod Driver
pub mod Writing
pub mod Files
pub mod Register
mod Examples
