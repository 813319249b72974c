-- ===== src/Fir.antt =====
-- The design of FIR lowpass filters, on the client and in the scripts.
pub mod Design
