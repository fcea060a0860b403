-- ===== src/Rawimg/Pixel.antt =====
-- rawimg.c: the functions that read and write one pixel, one pair for each format.
pub mod Whole
pub mod Ten
pub mod Twelve
pub mod Fourteen
unfoldable pub use Whole.*
unfoldable pub use Ten.*
unfoldable pub use Twelve.*
unfoldable pub use Fourteen.*
