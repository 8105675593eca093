-- ===== src/Inputs.antt =====
-- What a user attaches to an input.
pub mod Locations
pub mod Jpeg
pub mod Scanned
pub mod Attached
pub mod Normal
pub mod Images
