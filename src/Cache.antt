-- ===== src/Cache.antt =====
-- The artifact cache of a lock: scripts/cache.py. Cache/Inventory has what the lock asks for,
-- Cache/Layout the check of an image layout, Cache/Store the download and the check of the files, Cache/Images
-- the images, and Cache/Paths the files and directories that both change.
pub mod Paths
pub mod Inventory
pub mod Layout
pub mod Store
pub mod Images
