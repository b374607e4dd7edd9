-- ===== src/Projector/ReadModel.antt =====
-- The interface readModelWriter of internal/projector/projector.go, over the state S of the store.
-- A failed write gives no state: the only caller runs in a transaction that is rolled back.
use solana_dashboard.Common.{String}
use solana_dashboard.Common.Int.{ℤ}
use solana_dashboard.Result.{Result}
use solana_dashboard.Store.{
  TokenRecord, TokenMetadataRecord, TokenMarketRecord, TradeEventRecord, ActivityEventRecord,
}

pub record Writer (S : Type 0) : Type 0 where
  pub upsert_token : TokenRecord → S → Result S
  pub upsert_token_metadata : TokenMetadataRecord → S → Result S
  pub upsert_token_market : TokenMarketRecord → S → Result S
  pub close_token_market : String → ℤ → S → Result S
  pub insert_trade_event : TradeEventRecord → S → Result S
  pub insert_activity_event : ActivityEventRecord → S → Result S
