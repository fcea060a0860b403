-- ===== src/Pack.antt =====
-- ptp-pack.c: the datasets of PTP between their structures and their bytes.
mod Tests
pub mod Integers
pub mod Strings
pub mod Device
pub mod Object
pub mod Property
pub mod Event
