-- ===== src/Projector/Database.antt =====
-- The projector's writes on the tables of the read model: the methods UpsertToken to
-- InsertActivityEvent of internal/store/read_model.go.
pub mod Prepared
pub mod Twice
use solana_dashboard.Common.{String, Option, none, some, List, [], ◌∷◌}
use solana_dashboard.Result.{Result, ok, err, ◌>>=◌}
use solana_dashboard.Store.{
  TokenRecord, TokenMetadataRecord, TokenMarketRecord, TradeEventRecord, ActivityEventRecord,
}
use solana_dashboard.Store.ReadModel.{
  Table, Events, Numeric, merge_token, merge_metadata, merge_market, upsert, close_market,
  insert_once, token_row, market_row, metadata_row, trade_row, activity_row, same_trade,
  same_activity, unstamped, stamp_activity,
}
use solana_dashboard.Projector.Batch.Tables.{Tables}

-- tokens, token_metadata_current and token_markets
abbrev pub StateTables : Type 0
StateTables = Table TokenRecord × Table TokenMetadataRecord × Table TokenMarketRecord

abbrev pub TradeTable : Type 0
TradeTable = Events TradeEventRecord

abbrev pub ActivityTable : Type 0
ActivityTable = Events ActivityEventRecord

abbrev pub sql_tables : Numeric → Tables StateTables TradeTable ActivityTable
sql_tables numeric = record {
  upsert_token = λ r s. ok (upsert merge_token r.mint (token_row r) s.0, s.1, s.2);
  upsert_token_metadata =
      λ r s. metadata_row numeric r >>= λ row. ok (s.0, upsert merge_metadata r.mint row s.1, s.2);
  upsert_token_market = λ r s. ok (s.0, s.1, upsert merge_market r.market_id (market_row r) s.2);
  close_token_market = λ id at s. ok (s.0, s.1, close_market id at s.2);
  insert_trade_event =
      λ r b. trade_row numeric r >>= λ row. ok (insert_once same_trade unstamped row b);
  insert_activity_event =
      λ r c. activity_row numeric r >>= λ row. ok (insert_once same_activity stamp_activity row c);
}
