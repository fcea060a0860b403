-- ===== src/Rawimg/Laws.antt =====
-- The pixel functions of rawimg.c against the layout of their format.
pub mod Packed
pub mod Interface
pub mod TenLittle
pub mod TenBig
pub mod TwelveLittle
pub mod TwelveBig
pub mod FourteenLittle
pub mod FourteenBig
pub mod Whole
pub mod Formats
