-- ===== src/Api/Analysis.antt =====
-- client/pdh_api/api.py: what is computed of a capture.
pub mod Numeric
pub mod LockPoint
pub mod Spectrum
pub mod Metrics
