-- ===== src/Tasks.antt =====
-- thread_tree.c and cgroups_iterate.c: walks over the tasks and the control groups.
pub mod Tree
pub mod Walk
pub mod Cgroups
pub mod Subsystems
mod Examples
