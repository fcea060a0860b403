-- ===== src/Liveimg.antt =====
-- liveimg.c: the frames of the live view, converted to RGB images.
mod Tests
pub mod Colour
pub mod Frame
pub mod Palette
pub mod Pixels
pub mod Convert
pub mod Planar
pub mod Viewport
pub mod Bitmap
pub mod Split
