-- ===== src/Examples/Tables.antt =====
-- A log of two swaps replayed twice into the tables of the read model, and the pages of an activity.
use mathlib.Core.List.{Perm}
use solana_dashboard.Common.{ℕ, ◌≡◌, refl, String, none, List, [], ◌∷◌, map, arith}
use solana_dashboard.Common.Int.{pos}
use solana_dashboard.Result.{ok}
use solana_dashboard.Events.Decoder.{decode_payload}
use solana_dashboard.Store.{ActivityEventRecord}
use solana_dashboard.Store.ReadModel.{Numeric, trade_row, activity_row, unix_to_timestamp}
use solana_dashboard.Store.Pages.{
  cursor_of, is_below, seconds_of, listed_row, of_mint, list_activity_events_page_by_mint,
}
use solana_dashboard.Store.Pages.Follow.{follow, Descends}
use solana_dashboard.Store.Pages.Order.{DistinctSeqs, AllWhole}
use solana_dashboard.Store.Pages.Complete.{list_activity_events_page_by_mint-all}
use solana_dashboard.Projector.{project}
use solana_dashboard.Projector.Values.{
  tracked_mint, mint_or_paired, paired_mint, required_amount, ptr_if_not_empty,
}
use solana_dashboard.Projector.Pumpfun.{insert_activity}
use solana_dashboard.Projector.PumpAmm.{
  project_pump_amm_swap, build_pump_amm_trade, based_trade, swap_record,
}
use solana_dashboard.Projector.Runner.{replay_entry}
use solana_dashboard.Projector.Runner.Replay.{projected}
use solana_dashboard.Projector.Database.{StateTables, TradeTable, ActivityTable, sql_tables}
use solana_dashboard.Projector.Database.Twice.{SameRows, projected_twice}
use solana_dashboard.Examples.Replay.{codec, log}

abbrev numeric : Numeric
numeric text = ok text

abbrev empty : StateTables × TradeTable × ActivityTable
empty = (
  (λ k. none, λ k. none, λ k. none),
  record { rows = []; next_seq = 1 },
  record { rows = []; next_seq = 1 },
)

after_first :
    (s : StateTables × TradeTable × ActivityTable) × (projected (sql_tables numeric) codec log empty
      ≡ ok s)
unfolding replay_entry decode_payload project project_pump_amm_swap build_pump_amm_trade
    tracked_mint mint_or_paired paired_mint based_trade required_amount swap_record insert_activity
    ptr_if_not_empty trade_row activity_row
after_first = (_, refl)

projected_twice_example :
    (s : StateTables × TradeTable × ActivityTable) × (projected
        (sql_tables numeric)
        codec
        log
        after_first.0
      ≡ ok s)
    × SameRows s after_first.0
projected_twice_example = projected_twice numeric codec log empty after_first.1

abbrev pub activity_at : String → ℕ → ℕ → ActivityEventRecord
activity_at id seconds seq = record {
  event_id = id;
  mint = "mint";
  protocol = "pumpamm";
  event_type = "swap";
  activity_type = "swap";
  market_id = none;
  market_type = none;
  user_address = none;
  side = none;
  quote_mint = none;
  token_amount_raw = none;
  quote_amount_raw = none;
  tx_signature = "tx";
  slot = 1;
  event_unix_ts = unix_to_timestamp (pos seconds);
  raw_event_source = "log";
  details = [];
  insert_seq = pos seq;
}

abbrev pub table : List ActivityEventRecord
table = activity_at "a" 100 1 ∷ activity_at "b" 105 2 ∷ activity_at "c" 105 3 ∷ []

pub whole : AllWhole table
unfolding seconds_of unix_to_timestamp
whole = (refl, (refl, (refl, tt)))

pub distinct : DistinctSeqs table
distinct = ((refl, (refl, tt)), ((refl, tt), (tt, tt)))

list_activity_events_page_by_mint-all_example :
    let all = follow cursor_of is_below 4 (list_activity_events_page_by_mint table "mint" 2) none in
    (rows : List ActivityEventRecord) × (all ≡ map listed_row rows)
    × Perm rows (of_mint "mint" table)
    × Descends cursor_of is_below all
list_activity_events_page_by_mint-all_example =
    list_activity_events_page_by_mint-all table "mint" 2 4 distinct whole (omega arith)
      (omega arith)
