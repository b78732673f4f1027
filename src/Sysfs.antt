-- ===== src/Sysfs.antt =====
-- sysfs_example.c: the attributes `id`, `jiffies` and `foo` of /sys/kernel/my_sysfs.
pub mod Driver
pub mod Files
pub mod Directory
pub mod Isolation
pub mod Attributes
mod Examples
