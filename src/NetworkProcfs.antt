-- ===== src/NetworkProcfs.antt =====
-- network_procfs.c: a netfilter hook that accounts packets by source address in a linked list,
-- and the /proc file that shows and clears the list.
pub mod Machine
pub mod Driver
pub mod Linked
pub mod Updating
pub mod Adding
pub mod Accounting
pub mod Traffic
pub mod Loading
pub mod Releasing
pub mod Reading
pub mod Files
pub mod Order
pub mod Processors
pub mod Sharing
pub mod Events
mod Cases
mod Examples
mod Runs
