-- ===== src/Vfs.antt =====
-- vfs_basic.c: files opened, read and written from inside the kernel.
pub mod Driver
pub mod Limits
pub mod Reader
mod Examples
