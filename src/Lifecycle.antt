-- ===== src/Lifecycle.antt =====
-- Loading and unloading the modules: what `module_init` takes from the kernel and `module_exit`
-- gives back.
pub mod Resources
pub mod Drivers
pub mod Balance
pub mod Debugfs
pub mod Contracts
pub mod Pages
pub mod Netlink
mod Examples
