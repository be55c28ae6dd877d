-- ===== src/Trials.antt =====
-- The test programs under src/test whose classes say what they expect of the library.
pub mod Flood
pub mod Counting
pub mod Mass
pub mod Recon
