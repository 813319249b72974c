-- ===== src/Scripts.antt =====
-- The scripts: core/hw/generate_lut.py, the runners of core/hw/sim, sim/linewidth/process_spa.py and
-- test_resources/gen_fir_coeffs.py.
pub mod Artifacts
pub mod SineTable
pub mod Trace
pub mod FirCoeffs
pub mod Runs
pub mod Regression
pub mod FirFreq
pub mod Bode
