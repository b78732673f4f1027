-- ===== src/Debugfs.antt =====
-- debugfs_basic.c: the files add and sum.
pub mod Sum
mod Examples
