-- ===== src/Threads.antt =====
-- preempt_schedule.c and kernel_thread.c: calls of the scheduler.
pub mod Preempt
pub mod Kthread
mod Examples
