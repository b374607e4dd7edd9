-- ===== src/Store/Metrics.antt =====
-- The rows of token metrics that the broadcaster reads and writes: LongWindowMetricsRecord and
-- TokenMetricsCurrentRecord of internal/store/read_model.go. Prices and volumes are float64, of a
-- type F; counts are int64 as 64-bit patterns.
use solana_dashboard.Common.{ℕ, String, Option}
use solana_dashboard.Common.Int.{ℤ}

pub record LongWindowMetricsRecord (F : Type 0) : Type 0 where
  pub mint : String
  pub anchor_price_1h : Option F
  pub anchor_price_4h : Option F
  pub anchor_price_24h : Option F
  pub txns_1h : ℕ
  pub txns_4h : ℕ
  pub txns_24h : ℕ
  pub buys_1h : ℕ
  pub buys_4h : ℕ
  pub buys_24h : ℕ
  pub sells_1h : ℕ
  pub sells_4h : ℕ
  pub sells_24h : ℕ
  pub volume_1h : F
  pub volume_4h : F
  pub volume_24h : F
  pub buy_volume_1h : F
  pub buy_volume_4h : F
  pub buy_volume_24h : F
  pub sell_volume_1h : F
  pub sell_volume_4h : F
  pub sell_volume_24h : F

pub record TokenMetricsCurrentRecord (F : Type 0) : Type 0 where
  pub mint : String
  pub latest_price : Option F
  pub latest_event_unix : Option ℤ
  pub anchor_price_1m : Option F
  pub anchor_price_5m : Option F
  pub anchor_price_1h : Option F
  pub anchor_price_4h : Option F
  pub anchor_price_24h : Option F
  pub txns_1m : ℕ
  pub txns_5m : ℕ
  pub txns_1h : ℕ
  pub txns_4h : ℕ
  pub txns_24h : ℕ
  pub buys_1m : ℕ
  pub buys_5m : ℕ
  pub buys_1h : ℕ
  pub buys_4h : ℕ
  pub buys_24h : ℕ
  pub sells_1m : ℕ
  pub sells_5m : ℕ
  pub sells_1h : ℕ
  pub sells_4h : ℕ
  pub sells_24h : ℕ
  pub volume_1m : F
  pub volume_5m : F
  pub volume_1h : F
  pub volume_4h : F
  pub volume_24h : F
  pub buy_volume_1m : F
  pub buy_volume_5m : F
  pub buy_volume_1h : F
  pub buy_volume_4h : F
  pub buy_volume_24h : F
  pub sell_volume_1m : F
  pub sell_volume_5m : F
  pub sell_volume_1h : F
  pub sell_volume_4h : F
  pub sell_volume_24h : F
  pub source_log_id : ℤ
