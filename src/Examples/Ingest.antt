-- ===== src/Examples/Ingest.antt =====
-- A swap that is delivered twice, with an unsupported payload between.
use solana_dashboard.Common.{◌≡◌, refl, false, Option, none, some, List, [], ◌∷◌, arith}
use solana_dashboard.Common.Int.{pos}
use solana_dashboard.Result.{Result, Error, ok, external}
use solana_dashboard.Events.{Envelope, Payload, RawMessage, pump_amm_swap, unknown}
use solana_dashboard.Ingest.{Feed, Delivery, extract_mint, handle_decoded_event, handle_all}
use solana_dashboard.Ingest.Order.{
  IsFaithful, IsAnswered, on_global, logged_events, distinct, handle_decoded_event-IsAnswered,
  handle_all-IsFaithful,
}
use solana_dashboard.Ingest.Mint.{IsPair, extract_mint-tracked_mint}
use solana_dashboard.Projector.Values.{is_empty, tracked_mint, mint_or_paired, paired_mint}
use solana_dashboard.Store.{sol_mint}
use solana_dashboard.Examples.Replay.{swap, event}

abbrev encode : Payload → Result RawMessage
encode payload = ok (7 ∷ [])

abbrev empty_feed : Feed
empty_feed = record { log = []; next_id = 1; created = λ id. pos 100; published = [] }

abbrev delivery : Envelope → Payload → Option Error → Delivery
delivery event payload answer = record {
  event = event;
  payload = payload;
  answer = answer;
  used = 1;
}

-- The first insert fails, and the event is delivered again, twice.
abbrev deliveries : List Delivery
deliveries =
    delivery (event "swap" "a") (pump_amm_swap swap) (some (external 1))
    ∷ delivery (event "swap" "b") unknown none
    ∷ delivery (event "swap" "a") (pump_amm_swap swap) none
    ∷ delivery (event "swap" "a") (pump_amm_swap swap) none
    ∷ []

empty_feed-IsFaithful : IsFaithful empty_feed
unfolding on_global logged_events distinct
empty_feed-IsFaithful = record { carried = refl; ascending = tt; behind = omega arith; once = refl }

handle_all-IsFaithful_example : IsFaithful (handle_all encode deliveries empty_feed)
handle_all-IsFaithful_example =
    handle_all-IsFaithful encode deliveries empty_feed empty_feed-IsFaithful

handle_decoded_event-IsAnswered_example :
    IsAnswered encode none
      (event "swap" "a")
      (pump_amm_swap swap)
      (handle_decoded_event encode none (event "swap" "a") (pump_amm_swap swap) empty_feed)
handle_decoded_event-IsAnswered_example =
    handle_decoded_event-IsAnswered encode none (event "swap" "a") (pump_amm_swap swap) empty_feed

mint_found : is_empty (tracked_mint (event "swap" "a") "mint" sol_mint) ≡ false
unfolding tracked_mint mint_or_paired paired_mint
mint_found = refl

extract_mint-tracked_mint_example :
    extract_mint (event "swap" "a").refs (pump_amm_swap swap)
    ≡ tracked_mint (event "swap" "a") "mint" sol_mint
extract_mint-tracked_mint_example =
    extract_mint-tracked_mint (event "swap" "a") (pump_amm_swap swap) "mint" sol_mint
      (IsPair.swap swap) mint_found
