-- ===== src/Vram.antt =====
-- hardware_map.c: /dev/vram, the video memory as a file.
pub mod Driver
pub mod Transfer
pub mod Files
pub mod Stream
mod Examples
