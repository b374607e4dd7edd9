-- ===== src/Projector/Pumpfun.antt =====
-- The pumpfun handlers of internal/projector/projector.go, and insertActivity.
use solana_dashboard.Common.{String, none, some, [], if◌then◌else◌}
use solana_dashboard.Common.Int.{ℤ}
use solana_dashboard.Result.{Result, ok, ◌>>=◌, map_err, marshal_failed}
use solana_dashboard.Events.{
  Envelope, PumpfunCreatePayload, PumpfunTradePayload, PumpfunMigratePayload,
}
use solana_dashboard.Events.Decoder.{Codec}
use solana_dashboard.Store.{
  TokenRecord, TokenMetadataRecord, TokenMarketRecord, TradeEventRecord, ActivityEventRecord,
  sol_mint, sol_decimals,
}
use solana_dashboard.Projector.ReadModel.{Writer}
use solana_dashboard.Projector.Values.{
  is_empty, ptr_if_not_empty, string_value, optional_int32_from_uint32,
}

-- The fields that every activity takes from its envelope; the rest are Go's zero values.
unfoldable pub blank_activity : Envelope → ActivityEventRecord
blank_activity event = record {
  event_id = event.event_id;
  mint = "";
  protocol = "";
  event_type = event.event_type;
  activity_type = "";
  market_id = none;
  market_type = none;
  user_address = none;
  side = none;
  quote_mint = none;
  token_amount_raw = none;
  quote_amount_raw = none;
  tx_signature = event.tx_signature;
  slot = event.slot;
  event_unix_ts = event.event_unix_ts;
  raw_event_source = event.event_source;
  details = [];
  insert_seq = ℤ.pos 0;
}

-- The three records of projectPumpfunCreate.
unfoldable pub created_token : Envelope → PumpfunCreatePayload → TokenRecord
created_token event payload = record {
  mint = payload.mint;
  creator = ptr_if_not_empty payload.creator;
  bonding_curve = ptr_if_not_empty payload.bonding_curve;
  token_program = ptr_if_not_empty payload.token_program;
  create_event_id = some event.event_id;
  first_seen_at = event.event_unix_ts;
  current_stage = "bonding_curve";
  active_market_id = ptr_if_not_empty payload.bonding_curve;
  active_market_type = ptr_if_not_empty "pumpfun_curve";
  migrated_at = none;
}

unfoldable pub created_metadata : Envelope → PumpfunCreatePayload → TokenMetadataRecord
created_metadata event payload = record {
  mint = payload.mint;
  name = ptr_if_not_empty payload.name;
  symbol = ptr_if_not_empty payload.symbol;
  uri = ptr_if_not_empty payload.uri;
  image_uri = none;
  decimals = optional_int32_from_uint32 payload.mint_decimals;
  total_supply_raw = ptr_if_not_empty payload.token_total_supply;
  quote_mint = ptr_if_not_empty sol_mint;
  quote_decimals = some sol_decimals;
  creator = ptr_if_not_empty payload.creator;
  bonding_curve = ptr_if_not_empty payload.bonding_curve;
  token_program = ptr_if_not_empty payload.token_program;
  is_mayhem_mode = some payload.is_mayhem_mode;
  is_cashback_enabled = some payload.is_cashback_enabled;
  source_event_id = some event.event_id;
}

unfoldable pub created_market : Envelope → PumpfunCreatePayload → TokenMarketRecord
created_market event payload = record {
  market_id = payload.bonding_curve;
  mint = payload.mint;
  protocol = "pumpfun";
  market_type = "pumpfun_curve";
  bonding_curve = ptr_if_not_empty payload.bonding_curve;
  pool = none;
  base_mint = ptr_if_not_empty payload.mint;
  quote_mint = ptr_if_not_empty sol_mint;
  base_mint_decimals = optional_int32_from_uint32 payload.mint_decimals;
  quote_mint_decimals = some sol_decimals;
  lp_mint = none;
  started_at = event.event_unix_ts;
  ended_at = none;
  create_event_id = event.event_id;
}

unfoldable pub pumpfun_trade_record : Envelope → PumpfunTradePayload → TradeEventRecord
pumpfun_trade_record event payload = record {
  event_id = event.event_id;
  mint = payload.mint;
  market_id = payload.bonding_curve;
  market_type = "pumpfun_curve";
  protocol = "pumpfun";
  side = payload.side;
  ix_name = payload.ix_name;
  user_address = payload.user;
  quote_mint = sol_mint;
  token_amount_raw = payload.token_amount;
  quote_amount_raw = payload.sol_amount;
  tx_signature = event.tx_signature;
  slot = event.slot;
  event_unix_ts = event.event_unix_ts;
  raw_event_source = event.event_source;
}

unfoldable pub migrated_token : Envelope → PumpfunMigratePayload → TokenRecord
migrated_token event payload = record {
  mint = payload.mint;
  creator = ptr_if_not_empty (string_value event.refs.creator);
  bonding_curve = ptr_if_not_empty payload.bonding_curve;
  token_program = ptr_if_not_empty payload.token_program;
  create_event_id = none;
  first_seen_at = event.event_unix_ts;
  current_stage = "pool";
  active_market_id = ptr_if_not_empty payload.pool;
  active_market_type = ptr_if_not_empty "pumpamm_pool";
  migrated_at = some event.event_unix_ts;
}

unfoldable pub migrated_market : Envelope → PumpfunMigratePayload → TokenMarketRecord
migrated_market event payload = record {
  market_id = payload.pool;
  mint = payload.mint;
  protocol = "pumpamm";
  market_type = "pumpamm_pool";
  bonding_curve = none;
  pool = ptr_if_not_empty payload.pool;
  base_mint = ptr_if_not_empty payload.mint;
  quote_mint = ptr_if_not_empty sol_mint;
  base_mint_decimals = none;
  quote_mint_decimals = none;
  lp_mint = ptr_if_not_empty payload.lp_mint;
  started_at = event.event_unix_ts;
  ended_at = none;
  create_event_id = event.event_id;
}

module _ {S : Type 0} (codec : Codec) (w : Writer S) where
  -- insertActivity
  unfoldable pub insert_activity : Envelope → String → String → ActivityEventRecord → S → Result S
  insert_activity event mint activity_type activity s = do
    details ← map_err (marshal_failed event.event_id) (codec.marshal event.payload)
    w.insert_activity_event
        (record activity { mint = mint; activity_type = activity_type; details = details }) s

  -- projectPumpfunCreate
  unfoldable pub project_pumpfun_create : Envelope → PumpfunCreatePayload → S → Result S
  project_pumpfun_create event payload s0 = do
    s1 ← w.upsert_token (created_token event payload) s0
    s2 ← w.upsert_token_metadata (created_metadata event payload) s1
    s3 ← w.upsert_token_market (created_market event payload) s2
    let activity = blank_activity event
    insert_activity event payload.mint "create"
        (record activity {
          protocol = "pumpfun";
          market_id = ptr_if_not_empty payload.bonding_curve;
          market_type = ptr_if_not_empty "pumpfun_curve";
          user_address = ptr_if_not_empty payload.user;
        })
        s3

  -- projectPumpfunTrade
  unfoldable pub project_pumpfun_trade : Envelope → PumpfunTradePayload → S → Result S
  project_pumpfun_trade event payload s0 = do
    s1 ← w.insert_trade_event (pumpfun_trade_record event payload) s0
    let activity = blank_activity event
    insert_activity event payload.mint "trade"
        (record activity {
          protocol = "pumpfun";
          market_id = ptr_if_not_empty payload.bonding_curve;
          market_type = ptr_if_not_empty "pumpfun_curve";
          user_address = ptr_if_not_empty payload.user;
          side = ptr_if_not_empty payload.side;
          quote_mint = ptr_if_not_empty sol_mint;
          token_amount_raw = ptr_if_not_empty payload.token_amount;
          quote_amount_raw = ptr_if_not_empty payload.sol_amount;
        })
        s1

  -- projectPumpfunMigrate
  unfoldable pub project_pumpfun_migrate : Envelope → PumpfunMigratePayload → S → Result S
  project_pumpfun_migrate event payload s0 = do
    s1 ←
        (if is_empty payload.bonding_curve
          then ok s0
          else w.close_token_market payload.bonding_curve event.event_unix_ts s0)
    s2 ← w.upsert_token (migrated_token event payload) s1
    s3 ← w.upsert_token_market (migrated_market event payload) s2
    let activity = blank_activity event
    insert_activity event payload.mint "migrate"
        (record activity {
          protocol = "pumpfun";
          market_id = ptr_if_not_empty payload.pool;
          market_type = ptr_if_not_empty "pumpamm_pool";
          user_address = ptr_if_not_empty payload.user;
          quote_mint = ptr_if_not_empty sol_mint;
          token_amount_raw = ptr_if_not_empty payload.mint_amount;
          quote_amount_raw = ptr_if_not_empty payload.sol_amount;
        })
        s3
