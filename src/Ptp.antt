-- ===== src/Ptp.antt =====
-- ptp.c: the exchange of packets with a camera.
mod Tests
pub mod Codes
pub mod Link
pub mod Container
pub mod Wire
pub mod Buffer
pub mod Usb
pub mod Ip
pub mod Transaction
pub mod Operations
pub mod Chdk
