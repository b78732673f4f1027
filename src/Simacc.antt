-- ===== src/Simacc.antt =====
-- file_proc.c: /proc/simacc, which adds up the numbers in what is written to it.
pub mod Driver
pub mod Decimal
pub mod Runs
pub mod Sums
mod Examples
