-- ===== src/Store.antt =====
-- The rows of the read model: the record types of internal/store/read_model.go and
-- internal/store/service_event.go that the projector and the runner write and read.
pub mod ServiceEvents
pub mod Metrics
pub mod ReadModel
pub mod Pages
use solana_dashboard.Common.{ℕ, String, Bool, Option}
use solana_dashboard.Common.Int.{ℤ}
use solana_dashboard.Events.{RawMessage, Envelope}

-- SolMint and SolDecimals.
abbrev pub sol_mint : String
sol_mint = "So11111111111111111111111111111111111111112"

abbrev pub sol_decimals : ℤ
sol_decimals = ℤ.pos 9

pub record TokenRecord : Type 0 where
  pub mint : String
  pub creator : Option String
  pub bonding_curve : Option String
  pub token_program : Option String
  pub create_event_id : Option String
  pub first_seen_at : ℤ
  pub current_stage : String
  pub active_market_id : Option String
  pub active_market_type : Option String
  pub migrated_at : Option ℤ

pub record TokenMetadataRecord : Type 0 where
  pub mint : String
  pub name : Option String
  pub symbol : Option String
  pub uri : Option String
  pub image_uri : Option String
  pub decimals : Option ℤ
  pub total_supply_raw : Option String
  pub quote_mint : Option String
  pub quote_decimals : Option ℤ
  pub creator : Option String
  pub bonding_curve : Option String
  pub token_program : Option String
  pub is_mayhem_mode : Option Bool
  pub is_cashback_enabled : Option Bool
  pub source_event_id : Option String

pub record TokenMarketRecord : Type 0 where
  pub market_id : String
  pub mint : String
  pub protocol : String
  pub market_type : String
  pub bonding_curve : Option String
  pub pool : Option String
  pub base_mint : Option String
  pub quote_mint : Option String
  pub base_mint_decimals : Option ℤ
  pub quote_mint_decimals : Option ℤ
  pub lp_mint : Option String
  pub started_at : ℤ
  pub ended_at : Option ℤ
  pub create_event_id : String

pub record TradeEventRecord : Type 0 where
  pub event_id : String
  pub mint : String
  pub market_id : String
  pub market_type : String
  pub protocol : String
  pub side : String
  pub ix_name : String
  pub user_address : String
  pub quote_mint : String
  pub token_amount_raw : String
  pub quote_amount_raw : String
  pub tx_signature : String
  pub slot : ℕ
  pub event_unix_ts : ℤ
  pub raw_event_source : String

pub record ActivityEventRecord : Type 0 where
  pub event_id : String
  pub mint : String
  pub protocol : String
  pub event_type : String
  pub activity_type : String
  pub market_id : Option String
  pub market_type : Option String
  pub user_address : Option String
  pub side : Option String
  pub quote_mint : Option String
  pub token_amount_raw : Option String
  pub quote_amount_raw : Option String
  pub tx_signature : String
  pub slot : ℕ
  pub event_unix_ts : ℤ
  pub raw_event_source : String
  pub details : RawMessage
  pub insert_seq : ℤ

-- A row of service_events.
pub record ServiceEventLogEntry : Type 0 where
  pub log_id : ℤ
  pub event : Envelope
  pub created_at : ℤ
