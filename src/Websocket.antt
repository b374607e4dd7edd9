-- ===== src/Websocket.antt =====
-- The websocket sessions of internal/httpapi/ws.go.
pub mod Replay
pub mod Session
pub mod Connection
