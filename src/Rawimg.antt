-- ===== src/Rawimg.antt =====
-- rawimg.c: raw sensor images over a byte buffer.
mod Tests
pub mod Pixel
pub mod Format
pub mod Layout
pub mod Laws
pub mod Image
pub mod Bind
pub mod Convert
pub mod Patch
