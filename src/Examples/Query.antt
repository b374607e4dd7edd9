-- ===== src/Examples/Query.antt =====
-- An amount written with its decimals, the activity of a token, and a message of the stream.
use mathlib.Core.List.{Perm}
use solana_dashboard.Common.{
  ℕ, zero, suc, ◌+◌, ◌-◌, ◌*◌, ◌/◌, ◌%◌, ◌≡◌, refl, subst, Bool, true, false, Option, none, some,
  List, [], ◌∷◌, ◌++◌, if◌then◌else◌, ltb, map, arith, ◌==◌,
}
use solana_dashboard.Common.Int.{pos}
use solana_dashboard.Result.{Result, ok, err, external}
use solana_dashboard.Events.{RawMessage, Envelope, Payload, pumpfun_trade}
use solana_dashboard.Events.Decoder.{Codec}
use solana_dashboard.Ingest.{envelope_with_payload}
use solana_dashboard.Events.Proto.Message.{
  EventMessage, pumpfun_trade_message, chain_solana, protocol_pumpfun, event_type_trade,
  commitment_processed, source_outer, origin_logs,
}
use solana_dashboard.Events.Proto.Payloads.{pumpfun_trade_payload_from_proto}
use solana_dashboard.Events.Proto.{
  metadata, payload_from_proto, envelope_from_proto, decode_envelope, decoded_envelope_from_proto,
  envelope_metadata_from_proto, instruction_path_from_proto,
}
use solana_dashboard.Events.Proto.RoundTrip.{ReadsBack, envelope_from_proto-decode_envelope}
use solana_dashboard.Store.{ActivityEventRecord}
use solana_dashboard.Store.Pages.{listed_row, of_mint, cursor_of, is_below}
use solana_dashboard.Store.Pages.Follow.{Descends}
use solana_dashboard.Query.Amount.{
  BigInt, format_amount, scaled_text, signed, or_zero, pointed, padded,
}
use solana_dashboard.Query.Amount.Read.{AllDigits, read_amount}
use solana_dashboard.Query.Amount.Exact.{format_amount-read_amount}
use solana_dashboard.Query.Token.{TokenSnapshotRecord, Rat, build_token_activity}
use solana_dashboard.Query.Token.Activity.{service_on, all_activity, all_activity_lem}
use solana_dashboard.Examples.Tables.{table, whole, distinct}

-- Decimal texts without a sign check of their digits, and the digits of numbers below 10^20.
abbrev read_digits : ℕ → List ℕ → ℕ
read_digits read [] = read
read_digits read (c ∷ cs) = read_digits (read * 10 + (c - 48)) cs

abbrev digits_of : ℕ → ℕ → List ℕ
digits_of zero n = []
digits_of (suc fuel) n =
    let rest = digits_of fuel (n / 10) in
    if ltb n 10 then (48 + n) ∷ [] else rest ++ (48 + n % 10) ∷ []

abbrev parse : List ℕ → Option (Bool × ℕ)
parse [] = none
parse (c ∷ cs) =
    some (if c == 45 then (true, read_digits 0 cs) else (false, read_digits 0 (c ∷ cs)))

abbrev big : BigInt
big = record { set_string = parse; text_of = digits_of 20 }

-- "-1500" with 4 decimals is "-0.15".
written :
    format_amount big (45 ∷ 49 ∷ 53 ∷ 48 ∷ 48 ∷ []) (some (pos 4)) ≡ 45 ∷ 48 ∷ 46 ∷ 49 ∷ 53 ∷ []
unfolding format_amount scaled_text signed or_zero pointed padded
written = refl

digits : AllDigits (digits_of 20 1500)
digits = ground arith

format_amount-read_amount_example :
    read_amount 4 (format_amount big (45 ∷ 49 ∷ 53 ∷ 48 ∷ 48 ∷ []) (some (pos 4))) ≡ (true, 1500)
format_amount-read_amount_example =
    format_amount-read_amount big 45 (49 ∷ 53 ∷ 48 ∷ 48 ∷ []) (pos 4) true 1500 refl refl digits
      refl (λ e. omega arith)

abbrev snapshot : TokenSnapshotRecord
snapshot = record {
  mint = "mint";
  name = none;
  symbol = none;
  uri = none;
  image_uri = none;
  decimals = some (pos 6);
  total_supply_raw = none;
  quote_mint = none;
  quote_decimals = none;
  creator = none;
  bonding_curve = none;
  token_program = none;
  first_seen_at = pos 0;
  current_stage = "pool";
  active_market_id = none;
  active_market_type = none;
  migrated_at = none;
  create_event_id = none;
  is_mayhem_mode = none;
  is_cashback_enabled = none;
}

-- A fraction rounded down, in place of the nearest float64.
abbrev to_float : Rat → ℕ
to_float r = r.numerator / r.denominator

all_activity_example :
    (rows : List ActivityEventRecord) × (all_activity big to_float 4
        (service_on table (λ mint. some snapshot) (some (pos 7)))
        "mint"
        (pos 2)
        none
      ≡ ok (map (build_token_activity big to_float snapshot) (map listed_row rows)))
    × Perm rows (of_mint "mint" table)
    × Descends cursor_of is_below (map listed_row rows)
all_activity_example =
    all_activity_lem big to_float table (λ mint. some snapshot) (some (pos 7)) "mint" (pos 2)
      {snapshot = snapshot} refl 4 distinct whole (omega arith)

abbrev message : EventMessage
message = record {
  schema_version = 1;
  event_id = "a";
  chain = chain_solana;
  protocol = protocol_pumpfun;
  event_type = event_type_trade;
  commitment = commitment_processed;
  slot = 1;
  tx_signature = "tx";
  tx_index = 0;
  instruction_path = some (record { source = source_outer; outer_index = 2; inner_index = none });
  event_source = origin_logs;
  event_unix_ts = pos 100;
  refs = none;
  payload = pumpfun_trade_message none;
}

-- The one payload of the message, as two bytes.
abbrev encode : Payload → Result RawMessage
encode payload = ok (123 ∷ 125 ∷ [])

abbrev codec : Codec
codec = record {
  unmarshal_trade = λ bytes. ok (pumpfun_trade_payload_from_proto none);
  unmarshal_create = λ bytes. err (external 0);
  unmarshal_migrate = λ bytes. err (external 0);
  unmarshal_swap = λ bytes. err (external 0);
  unmarshal_create_pool = λ bytes. err (external 0);
  unmarshal_liquidity = λ bytes. err (external 0);
  marshal = ok;
}

made :
    (p : Payload)
    → ok (pumpfun_trade (pumpfun_trade_payload_from_proto none)) ≡ ok p
    → pumpfun_trade (pumpfun_trade_payload_from_proto none) ≡ p
made p h = ground arith

reads_back :
    (p : Payload) (bytes : RawMessage)
    → payload_from_proto message.payload ≡ ok p
    → encode p ≡ ok bytes
    → ReadsBack codec p bytes
unfolding payload_from_proto
reads_back p bytes h e = subst (λ q. ReadsBack codec q bytes) (made p h) refl

converted : (env : Envelope) × (envelope_from_proto encode (some message) ≡ ok env)
unfolding envelope_from_proto decoded_envelope_from_proto envelope_metadata_from_proto
    payload_from_proto instruction_path_from_proto envelope_with_payload metadata
converted = (_, refl)

envelope_from_proto-decode_envelope_example :
    (p : Payload) × (payload_from_proto message.payload ≡ ok p)
    × (decode_envelope codec converted.0 ≡ ok (record { envelope = converted.0; payload = p }))
envelope_from_proto-decode_envelope_example =
    envelope_from_proto-decode_envelope codec encode message reads_back (refl, refl) converted.1
