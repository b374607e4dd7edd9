-- ===== src/Events/Proto.antt =====
-- The conversion of a message of the stream into an envelope: internal/events/from_proto.go, with
-- DecodedEnvelope and EnvelopeWithPayload of internal/events/envelope.go.
pub mod Message
pub mod Payloads
pub mod RoundTrip
use solana_dashboard.Common.{ℕ, String, Option, none, some, List, []}
use solana_dashboard.Common.Int.{ℤ, pos}
use solana_dashboard.Result.{
  Result, Error, ok, err, ◌>>=◌, event_missing, instruction_path_missing, payload_unsupported,
}
use solana_dashboard.Events.{
  RawMessage, Envelope, InstructionPath, EventRefs, Payload, pumpfun_trade, pumpfun_create,
  pumpfun_migrate, pump_amm_swap, pump_amm_create_pool, pump_amm_liquidity,
}
use solana_dashboard.Events.Decoder.{Codec, decode_payload}
use solana_dashboard.Ingest.{envelope_with_payload}
use solana_dashboard.Events.Proto.Message.{
  Chain, chain_solana, chain_other, Protocol, protocol_pumpfun, protocol_pumpamm, protocol_other,
  EventType, event_type_trade, event_type_create, event_type_migrate, event_type_swap,
  event_type_create_pool, event_type_deposit, event_type_withdraw, event_type_other,
  CommitmentLevel, commitment_processed, commitment_confirmed, commitment_finalized,
  commitment_other, InstructionSource, source_outer, source_inner, source_other, EventOrigin,
  origin_logs, origin_inner_cpi, origin_other, InstructionPathMessage, PayloadMessage, no_payload,
  pumpfun_trade_message, pumpfun_create_message, pumpfun_migrate_message, pumpamm_swap_message,
  pumpamm_create_pool_message, pumpamm_deposit_message, pumpamm_withdraw_message, EventMessage,
}
use solana_dashboard.Events.Proto.Payloads.{
  pumpfun_trade_payload_from_proto, pumpfun_create_payload_from_proto,
  pumpfun_migrate_payload_from_proto, pump_amm_swap_payload_from_proto,
  pump_amm_create_pool_payload_from_proto, pump_amm_liquidity_payload_from_proto,
}

-- The names of the enums' constants; any other number has none.
unfoldable pub chain_from_proto : Chain → String
chain_from_proto chain_solana = "solana"
chain_from_proto (chain_other n) = ""

unfoldable pub protocol_from_proto : Protocol → String
protocol_from_proto protocol_pumpfun = "pumpfun"
protocol_from_proto protocol_pumpamm = "pumpamm"
protocol_from_proto (protocol_other n) = ""

unfoldable pub event_type_from_proto : EventType → String
event_type_from_proto event_type_trade = "trade"
event_type_from_proto event_type_create = "create"
event_type_from_proto event_type_migrate = "migrate"
event_type_from_proto event_type_swap = "swap"
event_type_from_proto event_type_create_pool = "create_pool"
event_type_from_proto event_type_deposit = "deposit"
event_type_from_proto event_type_withdraw = "withdraw"
event_type_from_proto (event_type_other n) = ""

unfoldable pub commitment_from_proto : CommitmentLevel → String
commitment_from_proto commitment_processed = "processed"
commitment_from_proto commitment_confirmed = "confirmed"
commitment_from_proto commitment_finalized = "finalized"
commitment_from_proto (commitment_other n) = ""

unfoldable pub instruction_source_from_proto : InstructionSource → String
instruction_source_from_proto source_outer = "outer"
instruction_source_from_proto source_inner = "inner"
instruction_source_from_proto (source_other n) = ""

unfoldable pub event_origin_from_proto : EventOrigin → String
event_origin_from_proto origin_logs = "logs"
event_origin_from_proto origin_inner_cpi = "inner_cpi"
event_origin_from_proto (origin_other n) = ""

abbrev int_of : Option ℕ → Option ℤ
int_of none = none
int_of (some n) = some (pos n)

-- instructionPathFromProto
unfoldable pub instruction_path_from_proto : Option InstructionPathMessage → Result InstructionPath
instruction_path_from_proto none = err instruction_path_missing
instruction_path_from_proto (some path) = ok (record {
  source = instruction_source_from_proto path.source;
  outer_index = pos path.outer_index;
  inner_index = int_of path.inner_index;
})

-- refsFromProto
unfoldable pub refs_from_proto : Option EventRefs → EventRefs
refs_from_proto none = record {
  mint = none;
  pool = none;
  bonding_curve = none;
  user = none;
  creator = none;
  base_mint = none;
  quote_mint = none;
  lp_mint = none;
}
refs_from_proto (some refs) = record {
  mint = refs.mint;
  pool = refs.pool;
  bonding_curve = refs.bonding_curve;
  user = refs.user;
  creator = refs.creator;
  base_mint = refs.base_mint;
  quote_mint = refs.quote_mint;
  lp_mint = refs.lp_mint;
}

-- payloadFromProto
unfoldable pub payload_from_proto : PayloadMessage → Result Payload
payload_from_proto no_payload = err payload_unsupported
payload_from_proto (pumpfun_trade_message p) =
    ok (pumpfun_trade (pumpfun_trade_payload_from_proto p))
payload_from_proto (pumpfun_create_message p) =
    ok (pumpfun_create (pumpfun_create_payload_from_proto p))
payload_from_proto (pumpfun_migrate_message p) =
    ok (pumpfun_migrate (pumpfun_migrate_payload_from_proto p))
payload_from_proto (pumpamm_swap_message p) =
    ok (pump_amm_swap (pump_amm_swap_payload_from_proto p))
payload_from_proto (pumpamm_create_pool_message p) =
    ok (pump_amm_create_pool (pump_amm_create_pool_payload_from_proto p))
payload_from_proto (pumpamm_deposit_message p) =
    ok (pump_amm_liquidity (pump_amm_liquidity_payload_from_proto p))
payload_from_proto (pumpamm_withdraw_message p) =
    ok (pump_amm_liquidity (pump_amm_liquidity_payload_from_proto p))

-- The envelope without its payload.
unfoldable pub metadata : EventMessage → InstructionPath → Envelope
metadata event path = record {
  log_id = pos 0;
  schema_version = pos event.schema_version;
  event_id = event.event_id;
  chain = chain_from_proto event.chain;
  protocol = protocol_from_proto event.protocol;
  event_type = event_type_from_proto event.event_type;
  commitment = commitment_from_proto event.commitment;
  slot = event.slot;
  tx_signature = event.tx_signature;
  tx_index = event.tx_index;
  instruction_path = path;
  event_source = event_origin_from_proto event.event_source;
  event_unix_ts = event.event_unix_ts;
  refs = refs_from_proto event.refs;
  payload = [];
}

-- envelopeMetadataFromProto; a nil event is none.
unfoldable pub envelope_metadata_from_proto : Option EventMessage → Result Envelope
envelope_metadata_from_proto none = err event_missing
envelope_metadata_from_proto (some event) =
    instruction_path_from_proto event.instruction_path >>= λ path. ok (metadata event path)

pub record DecodedEnvelope : Type 0 where
  pub envelope : Envelope
  pub payload : Payload

-- DecodedEnvelopeFromProto
unfoldable pub decoded_envelope_from_proto : Option EventMessage → Result DecodedEnvelope
decoded_envelope_from_proto none = err event_missing
decoded_envelope_from_proto (some event) = envelope_metadata_from_proto (some event) >>= λ envelope.
    payload_from_proto event.payload >>= λ payload.
    ok (record { envelope = envelope; payload = payload })

-- EnvelopeFromProto
unfoldable pub envelope_from_proto :
    (Payload → Result RawMessage) → Option EventMessage → Result Envelope
envelope_from_proto encode event =
    decoded_envelope_from_proto event >>= λ d. envelope_with_payload encode d.envelope d.payload

-- DecodeEnvelope
unfoldable pub decode_envelope : Codec → Envelope → Result DecodedEnvelope
decode_envelope codec event =
    decode_payload codec event >>= λ payload. ok (record { envelope = event; payload = payload })
