-- ===== src/Pilot.antt =====
-- The CPU-limit pilot: research/cpu-limits/phase8/campaign/.
pub mod Bracket
pub mod Limits
pub mod Slo
pub mod Measure
pub mod Run
