-- ===== src/Ingest.antt =====
-- The ingest service: internal/ingest/service.go, with EnvelopeWithPayload of
-- internal/events/envelope.go and InsertServiceEvent of internal/store/service_event.go. Each insert
-- has the database's answer as an argument: an error, which a failed statement gives without a row, or
-- none. Events are handled one after the other. json.Marshal of a payload is a parameter, and that of
-- the refs does not fail; a topic is its data, "token:" ++ mint or "global".
pub mod Order
pub mod Mint
use solana_dashboard.Common.{
  ℕ, ◌+◌, String, Bool, true, false, not, ◌&&◌, ◌||◌, Option, none, some, List, [], ◌∷◌, ◌++◌,
  str_eq, if◌then◌else◌,
}
use solana_dashboard.Common.Int.{ℤ, pos}
use solana_dashboard.Result.{Result, Error, ok, err, ◌>>=◌, unsupported_event, insert_failed}
use solana_dashboard.Events.{
  RawMessage, Envelope, EventRefs, Payload, pumpfun_create, pumpfun_trade, pumpfun_migrate,
  pump_amm_create_pool, pump_amm_swap, pump_amm_liquidity, unknown,
}
use solana_dashboard.Store.{ServiceEventLogEntry, sol_mint}
use solana_dashboard.Projector.Values.{is_empty}

pub data Topic : Type 0 where
  token : String → Topic
  global : Topic

-- The table service_events with the next value of its sequence and the time at which the row of each
-- log id is created, and what was published.
pub record Feed : Type 0 where
  pub log : List ServiceEventLogEntry
  pub next_id : ℕ
  pub created : ℕ → ℤ
  pub published : List (Topic × Envelope)

-- resolveNonSolMint
unfoldable pub resolve_non_sol_mint : String → String → String
resolve_non_sol_mint base_mint quote_mint =
    if str_eq base_mint sol_mint && not (is_empty quote_mint)
    then quote_mint
    else if str_eq quote_mint sol_mint && not (is_empty base_mint)
    then base_mint
    else if not (is_empty base_mint)
    then base_mint
    else quote_mint

payload_mint : Payload → String
unfolding resolve_non_sol_mint
payload_mint (pumpfun_trade p) = p.mint
payload_mint (pumpfun_create p) = p.mint
payload_mint (pumpfun_migrate p) = p.mint
payload_mint (pump_amm_swap p) = resolve_non_sol_mint p.base_mint p.quote_mint
payload_mint (pump_amm_create_pool p) = resolve_non_sol_mint p.base_mint p.quote_mint
payload_mint (pump_amm_liquidity p) = resolve_non_sol_mint p.base_mint p.quote_mint
payload_mint unknown = ""

-- extractMint
unfoldable pub extract_mint : EventRefs → Payload → String
unfolding payload_mint
extract_mint refs payload = elim refs.mint [
  | none ↦ payload_mint payload
  | some mint ↦ if is_empty mint then payload_mint payload else mint
]

unfoldable pub is_logged : String → List ServiceEventLogEntry → Bool
is_logged event_id [] = false
is_logged event_id (entry ∷ log) = str_eq entry.event.event_id event_id || is_logged event_id log

abbrev pub supported : Payload → Bool
supported unknown = false
supported _ = true

-- The event with the log id of its row, and its row.
abbrev pub stamped : Envelope → ℕ → Envelope
stamped event id = record event { log_id = pos id }

abbrev pub row : Envelope → ℕ → ℤ → ServiceEventLogEntry
row event id time = record { log_id = pos id; event = stamped event id; created_at = time }

-- What is published for an inserted event.
abbrev pub announcements : Envelope → Payload → List (Topic × Envelope)
announcements event payload =
    let mint = extract_mint event.refs payload in
    if is_empty mint then (global, event) ∷ [] else (token mint, event) ∷ (global, event) ∷ []

-- InsertServiceEvent: the log id, if a row was inserted. A row of the same event id turns the insert
-- into nothing but a used number of the sequence.
unfoldable pub insert_service_event : Option Error → Envelope → Feed → Result (Feed × Option ℕ)
insert_service_event (some error) event feed = err (insert_failed error)
insert_service_event none event feed =
    if is_logged event.event_id feed.log
    then ok (record feed { next_id = feed.next_id + 1 }, none)
    else ok (
      record feed {
        log = feed.log ++ row event feed.next_id (feed.created feed.next_id) ∷ [];
        next_id = feed.next_id + 1;
      },
      some feed.next_id,
    )

-- The publishing of an inserted event.
unfoldable pub publish_inserted : Envelope → Payload → Feed × Option ℕ → Feed
publish_inserted event payload (feed, none) = feed
publish_inserted event payload (feed, some log_id) = record feed {
  published = feed.published ++ announcements (stamped event log_id) payload;
}

-- A call of HandleDecodedEvent: what the database answers to its insert, and how many numbers of the
-- sequence that uses up if the statement fails.
pub record Delivery : Type 0 where
  pub event : Envelope
  pub payload : Payload
  pub answer : Option Error
  pub used : ℕ

module _ (encode : Payload → Result RawMessage) where
  -- EnvelopeWithPayload, of a payload that is there
  unfoldable pub envelope_with_payload : Envelope → Payload → Result Envelope
  envelope_with_payload event payload = elim event.payload [
    | [] ↦ encode payload >>= λ bytes. ok (record event { payload = bytes })
    | b ∷ bytes ↦ ok event
  ]

  -- HandleDecodedEvent
  unfoldable pub handle_decoded_event : Option Error → Envelope → Payload → Feed → Result Feed
  handle_decoded_event answer event payload feed =
      if supported payload
      then (envelope_with_payload event payload >>= λ event'.
          insert_service_event answer event' feed >>= λ inserted.
          ok (publish_inserted event' payload inserted))
      else err (unsupported_event event.protocol event.event_type)

  -- A sequence of calls; one that fails leaves the log and what was published as they were.
  unfoldable pub handle_all : List Delivery → Feed → Feed
  handle_all [] feed = feed
  handle_all (d ∷ ds) feed =
      handle_all ds (elim (handle_decoded_event d.answer d.event d.payload feed) [
        | ok feed' ↦ feed'
        | err e ↦ record feed { next_id = feed.next_id + d.used }
      ])
