-- ===== src/Tuner.antt =====
-- The values of include/fcd_tuner.h, which `fcd_set_value` sends for the identifiers of
-- `FCD_VALUE_ENUM`.
pub mod Gains
pub mod Filters
pub mod Bands
