-- ===== src/TextDevices.antt =====
-- misc_char_dev.c and procfs.c: two devices that show a greeting and take the word `linux`, over a
-- buffer of 128 bytes. The code is the same but for the lock, which misc_char_dev.c alone has.
pub mod Buffer
pub mod Device
pub mod Procfs
pub mod MiscCharDev
pub mod Files
pub mod Agreement
pub mod Prefixes
pub mod Words
pub mod Reading
pub mod Interleaving
mod Examples
