-- ===== src/Parameters.antt =====
-- parameters.c: variables that are set when the module is loaded, and printed.
pub mod Driver
pub mod Given
pub mod Files
pub mod Exposed
mod Examples
