-- ===== src/Broadcaster.antt =====
-- The live token statistics of internal/broadcaster/stats.go.
pub mod Window
pub mod Swap
pub mod Current
pub mod Feed
pub mod Sweep
pub mod Run
pub mod Backfill
