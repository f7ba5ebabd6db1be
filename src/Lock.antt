-- ===== src/Lock.antt =====
-- The checks that every lock passes before it is used: scripts/lock.py. The messages are
-- constructors with the values that they show; the modules below have the checks of each part.
pub mod References
pub mod Artifacts
pub mod Matrix
pub mod Load
