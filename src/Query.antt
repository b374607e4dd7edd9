-- ===== src/Query.antt =====
-- The queries of internal/query/token.go.
pub mod Amount
pub mod Token
