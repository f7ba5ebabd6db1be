-- ===== src/Tests.antt =====
-- Runs of the models on small inputs, and the theorems at concrete data.
mod Numbers
mod Pilot
mod Cells
mod Bundles
mod Caches
mod Layouts
mod Locks
mod Plans
mod Trace
mod Addons
mod Firmware
mod Statistics
mod Fits
mod Prunings
mod Kernels
