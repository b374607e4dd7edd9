-- ===== src/Projector/PumpAmm.antt =====
-- The pumpamm handlers of internal/projector/projector.go.
use solana_dashboard.Common.{String, Bool, ◌||◌, none, some, [], ◌∷◌, str_eq, if◌then◌else◌}
use solana_dashboard.Common.Int.{int32_of_uint32}
use solana_dashboard.Result.{Result, ok, err, ◌>>=◌, tracked_mint_missing, unsupported_side}
use solana_dashboard.Events.{
  Envelope, PumpAmmSwapPayload, PumpAmmCreatePoolPayload, PumpAmmLiquidityPayload,
}
use solana_dashboard.Events.Decoder.{Codec}
use solana_dashboard.Store.{TokenRecord, TokenMetadataRecord, TokenMarketRecord, TradeEventRecord}
use solana_dashboard.Projector.ReadModel.{Writer}
use solana_dashboard.Projector.Values.{
  is_empty, ptr_if_not_empty, first_non_nil, required_amount, tracked_mint, tracked_pair_amounts,
  liquidity_tracked_amounts, other_mint,
}
use solana_dashboard.Projector.Pumpfun.{blank_activity, insert_activity}

-- tokenMetadataFromCreatePool
unfoldable pub token_metadata_from_create_pool :
    String → String → PumpAmmCreatePoolPayload → TokenMetadataRecord
token_metadata_from_create_pool event_id mint payload = record {
  mint = mint;
  name = none;
  symbol = none;
  uri = none;
  image_uri = none;
  decimals =
      some (
        if quoted then int32_of_uint32 quote_mint_decimals else int32_of_uint32 base_mint_decimals);
  total_supply_raw = none;
  quote_mint = ptr_if_not_empty (if quoted then base_mint else quote_mint);
  quote_decimals =
      some (
        if quoted then int32_of_uint32 base_mint_decimals else int32_of_uint32 quote_mint_decimals);
  creator =
      first_non_nil (ptr_if_not_empty payload.coin_creator ∷ ptr_if_not_empty payload.creator ∷ []);
  bonding_curve = none;
  token_program = none;
  is_mayhem_mode = none;
  is_cashback_enabled = none;
  source_event_id = ptr_if_not_empty event_id;
}
  where
    open payload use {base_mint, quote_mint, base_mint_decimals, quote_mint_decimals}

    quoted : Bool
    quoted = str_eq mint payload.quote_mint

unfoldable pub pool_token : Envelope → String → PumpAmmCreatePoolPayload → TokenRecord
pool_token event mint payload = record {
  mint = mint;
  creator =
      first_non_nil (ptr_if_not_empty payload.coin_creator ∷ ptr_if_not_empty payload.creator ∷ []);
  bonding_curve = none;
  token_program = none;
  create_event_id = none;
  first_seen_at = event.event_unix_ts;
  current_stage = "pool";
  active_market_id = ptr_if_not_empty payload.pool;
  active_market_type = ptr_if_not_empty "pumpamm_pool";
  migrated_at = none;
}

unfoldable pub pool_market : Envelope → String → PumpAmmCreatePoolPayload → TokenMarketRecord
pool_market event mint payload = record {
  market_id = payload.pool;
  mint = mint;
  protocol = "pumpamm";
  market_type = "pumpamm_pool";
  bonding_curve = none;
  pool = ptr_if_not_empty payload.pool;
  base_mint = ptr_if_not_empty payload.base_mint;
  quote_mint = ptr_if_not_empty payload.quote_mint;
  base_mint_decimals = some (int32_of_uint32 payload.base_mint_decimals);
  quote_mint_decimals = some (int32_of_uint32 payload.quote_mint_decimals);
  lp_mint = ptr_if_not_empty payload.lp_mint;
  started_at = event.event_unix_ts;
  ended_at = none;
  create_event_id = event.event_id;
}

-- The two inner switches of buildPumpAmmTrade: the side of the trade on the tracked token, its
-- token amount and its quote amount.
unfoldable pub quoted_trade : Envelope → PumpAmmSwapPayload → Result (String × String × String)
quoted_trade event payload =
    if str_eq payload.side "sell"
    then (do
      token_amount ← required_amount payload.quote_amount_out "quote_amount_out" event.event_id
      quote_amount ← required_amount payload.base_amount_in "base_amount_in" event.event_id
      ok ("buy", token_amount, quote_amount))
    else if str_eq payload.side "buy" || str_eq payload.side "buy_exact_quote_in"
    then (do
      token_amount ← required_amount payload.quote_amount_in "quote_amount_in" event.event_id
      quote_amount ← required_amount payload.base_amount_out "base_amount_out" event.event_id
      ok ("sell", token_amount, quote_amount))
    else err (unsupported_side payload.side event.event_id)

unfoldable pub based_trade : Envelope → PumpAmmSwapPayload → Result (String × String × String)
based_trade event payload =
    if str_eq payload.side "sell"
    then (do
      token_amount ← required_amount payload.base_amount_in "base_amount_in" event.event_id
      quote_amount ← required_amount payload.quote_amount_out "quote_amount_out" event.event_id
      ok ("sell", token_amount, quote_amount))
    else if str_eq payload.side "buy" || str_eq payload.side "buy_exact_quote_in"
    then (do
      token_amount ← required_amount payload.base_amount_out "base_amount_out" event.event_id
      quote_amount ← required_amount payload.quote_amount_in "quote_amount_in" event.event_id
      ok ("buy", token_amount, quote_amount))
    else err (unsupported_side payload.side event.event_id)

unfoldable pub swap_record :
    Envelope → PumpAmmSwapPayload → String → String → String × String × String → TradeEventRecord
swap_record event payload mint quote_mint (side, token_amount, quote_amount) = record {
  event_id = event.event_id;
  mint = mint;
  market_id = payload.pool;
  market_type = "pumpamm_pool";
  protocol = "pumpamm";
  side = side;
  ix_name = payload.ix_name;
  user_address = payload.user;
  quote_mint = quote_mint;
  token_amount_raw = token_amount;
  quote_amount_raw = quote_amount;
  tx_signature = event.tx_signature;
  slot = event.slot;
  event_unix_ts = event.event_unix_ts;
  raw_event_source = event.event_source;
}

-- buildPumpAmmTrade
unfoldable pub build_pump_amm_trade : Envelope → PumpAmmSwapPayload → Result TradeEventRecord
unfolding quoted_trade based_trade swap_record
build_pump_amm_trade event payload =
    let mint = tracked_mint event payload.base_mint payload.quote_mint in
    if is_empty mint
    then err (tracked_mint_missing "swap" event.event_id)
    else if str_eq mint payload.quote_mint
    then (quoted_trade event payload >>= λ t.
        ok (swap_record event payload mint payload.base_mint t))
    else (based_trade event payload >>= λ t.
        ok (swap_record event payload mint payload.quote_mint t))

module _ {S : Type 0} (codec : Codec) (w : Writer S) where
  create_pool_of : Envelope → PumpAmmCreatePoolPayload → String → TokenMetadataRecord → S → Result S
  create_pool_of event payload mint metadata s0 = do
    s1 ← w.upsert_token (pool_token event mint payload) s0
    s2 ← w.upsert_token_metadata metadata s1
    s3 ← w.upsert_token_market (pool_market event mint payload) s2
    let amounts =
        tracked_pair_amounts mint payload.base_mint payload.quote_mint payload.base_amount_in
          payload.quote_amount_in
    let activity = blank_activity event
    insert_activity codec w event mint "create_pool"
        (record activity {
          protocol = "pumpamm";
          market_id = ptr_if_not_empty payload.pool;
          market_type = ptr_if_not_empty "pumpamm_pool";
          user_address = ptr_if_not_empty payload.creator;
          quote_mint = metadata.quote_mint;
          token_amount_raw = ptr_if_not_empty amounts.0;
          quote_amount_raw = ptr_if_not_empty amounts.1;
        })
        s3

  -- projectPumpAmmCreatePool
  unfoldable pub project_pump_amm_create_pool : Envelope → PumpAmmCreatePoolPayload → S → Result S
  unfolding create_pool_of
  project_pump_amm_create_pool event payload s =
      let mint = tracked_mint event payload.base_mint payload.quote_mint in
      if is_empty mint
      then err (tracked_mint_missing "create_pool" event.event_id)
      else create_pool_of event payload mint
          (token_metadata_from_create_pool event.event_id mint payload) s

  -- projectPumpAmmSwap
  unfoldable pub project_pump_amm_swap : Envelope → PumpAmmSwapPayload → S → Result S
  project_pump_amm_swap event payload s0 = do
    trade ← build_pump_amm_trade event payload
    s1 ← w.insert_trade_event trade s0
    let activity = blank_activity event
    insert_activity codec w event trade.mint "trade"
        (record activity {
          event_id = trade.event_id;
          protocol = trade.protocol;
          market_id = ptr_if_not_empty trade.market_id;
          market_type = ptr_if_not_empty trade.market_type;
          user_address = ptr_if_not_empty trade.user_address;
          side = ptr_if_not_empty trade.side;
          quote_mint = ptr_if_not_empty trade.quote_mint;
          token_amount_raw = ptr_if_not_empty trade.token_amount_raw;
          quote_amount_raw = ptr_if_not_empty trade.quote_amount_raw;
          tx_signature = trade.tx_signature;
          slot = trade.slot;
          event_unix_ts = trade.event_unix_ts;
          raw_event_source = trade.raw_event_source;
        })
        s1

  -- projectPumpAmmLiquidity
  unfoldable pub project_pump_amm_liquidity : Envelope → PumpAmmLiquidityPayload → S → Result S
  project_pump_amm_liquidity event payload s =
      let mint = tracked_mint event payload.base_mint payload.quote_mint in
      let amounts = liquidity_tracked_amounts mint payload in
      let activity = blank_activity event in
      if is_empty mint
      then err (tracked_mint_missing "liquidity" event.event_id)
      else insert_activity codec w event mint payload.action
          (record activity {
            protocol = "pumpamm";
            market_id = ptr_if_not_empty payload.pool;
            market_type = ptr_if_not_empty "pumpamm_pool";
            user_address = ptr_if_not_empty payload.user;
            quote_mint = ptr_if_not_empty (other_mint mint payload.base_mint payload.quote_mint);
            token_amount_raw = ptr_if_not_empty amounts.0;
            quote_amount_raw = ptr_if_not_empty amounts.1;
          })
          s
