-- ===== src/Examples.antt =====
-- The theorems at concrete inputs.
mod Replay
mod Live
mod Websocket
mod Ingest
mod Feed
mod Tables
mod Query
mod Metrics
mod Connection
mod Backfill
