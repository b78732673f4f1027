-- ===== src/KoolList.antt =====
-- kernel_linked_list.c: a circular list of five nodes.
pub mod ListHead
pub mod Driver
pub mod Ring
pub mod Leaving
mod Examples
