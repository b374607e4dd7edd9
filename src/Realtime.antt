-- ===== src/Realtime.antt =====
-- The realtime hub: internal/realtime/hub.go.
pub mod Subscription
pub mod Topics
pub mod System
pub mod Safety
