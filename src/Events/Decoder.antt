-- ===== src/Events/Decoder.antt =====
-- The decoder of stored payloads: internal/events/decoder.go. encoding/json is a parameter.
use solana_dashboard.Common.{String, Bool, ◌&&◌, str_eq, if◌then◌else◌}
use solana_dashboard.Result.{Result, ok, err, ◌>>=◌, unsupported_event}
use solana_dashboard.Events.{
  RawMessage, Envelope, Payload, PumpfunTradePayload, PumpfunCreatePayload, PumpfunMigratePayload,
  PumpAmmSwapPayload, PumpAmmCreatePoolPayload, PumpAmmLiquidityPayload, pumpfun_trade,
  pumpfun_create, pumpfun_migrate, pump_amm_swap, pump_amm_create_pool, pump_amm_liquidity,
}

-- json.Unmarshal at each payload type, and json.Marshal at a json.RawMessage.
pub record Codec : Type 0 where
  pub unmarshal_trade : RawMessage → Result PumpfunTradePayload
  pub unmarshal_create : RawMessage → Result PumpfunCreatePayload
  pub unmarshal_migrate : RawMessage → Result PumpfunMigratePayload
  pub unmarshal_swap : RawMessage → Result PumpAmmSwapPayload
  pub unmarshal_create_pool : RawMessage → Result PumpAmmCreatePoolPayload
  pub unmarshal_liquidity : RawMessage → Result PumpAmmLiquidityPayload
  pub marshal : RawMessage → Result RawMessage

abbrev pub is_event : Envelope → String → String → Bool
is_event event protocol event_type =
    str_eq event.protocol protocol && str_eq event.event_type event_type

-- DecodePayload
unfoldable pub decode_payload : Codec → Envelope → Result Payload
decode_payload codec event =
    if is_event event "pumpfun" "trade"
    then (codec.unmarshal_trade event.payload >>= λ p. ok (pumpfun_trade p))
    else if is_event event "pumpfun" "create"
    then (codec.unmarshal_create event.payload >>= λ p. ok (pumpfun_create p))
    else if is_event event "pumpfun" "migrate"
    then (codec.unmarshal_migrate event.payload >>= λ p. ok (pumpfun_migrate p))
    else if is_event event "pumpamm" "swap"
    then (codec.unmarshal_swap event.payload >>= λ p. ok (pump_amm_swap p))
    else if is_event event "pumpamm" "create_pool"
    then (codec.unmarshal_create_pool event.payload >>= λ p. ok (pump_amm_create_pool p))
    else if is_event event "pumpamm" "deposit"
    then (codec.unmarshal_liquidity event.payload >>= λ p. ok (pump_amm_liquidity p))
    else if is_event event "pumpamm" "withdraw"
    then (codec.unmarshal_liquidity event.payload >>= λ p. ok (pump_amm_liquidity p))
    else err (unsupported_event event.protocol event.event_type)
