-- ===== src/SeqFile.antt =====
-- seq_file_procfs.c: the iteration of /proc/example/seq_proc over the tasks.
pub mod Driver
pub mod Rounds
pub mod Files
mod Examples
