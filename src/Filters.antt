-- ===== src/Filters.antt =====
-- packet_filter.c, packet_block_protocol.c and packet_hello.c: hooks of the network stack.
pub mod Netfilter
pub mod Driver
pub mod Loading
pub mod Traffic
mod Examples
