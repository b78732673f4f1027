-- ===== src/ProcExample.antt =====
-- procfs.c and seq_file_procfs.c, which both make the directory /proc/example.
pub mod ProcFs
pub mod Driver
pub mod Exclusion
mod Examples
