-- ===== src/Examples/Backfill.antt =====
-- A backfill of a token with a recent trade and a newer seed, of one with a seed alone, and of one
-- with neither.
use solana_dashboard.Common.{
  ℕ, ◌+◌, ◌≡◌, refl, String, true, Option, none, some, List, [], ◌∷◌, str_eq, if◌then◌else◌, length,
  arith,
}
use solana_dashboard.Common.Int.{pos}
use solana_dashboard.Result.{ok}
use solana_dashboard.Store.Metrics.{LongWindowMetricsRecord, TokenMetricsCurrentRecord}
use solana_dashboard.Broadcaster.Feed.{TradeMetricPoint}
use solana_dashboard.Broadcaster.Backfill.{LatestTradeSeed, BackfillStore, backfill_current_metrics}
use solana_dashboard.Broadcaster.Backfill.Rows.{
  Answers, Rows, handed, backfill_current_metrics-Rows,
}
use solana_dashboard.Examples.Live.{floats, long, now-IsTime}

abbrev point : TradeMetricPoint ℕ
point = record {
  event_unix_ts = pos 90;
  slot = pos 1;
  insert_seq = pos 1;
  side = "buy";
  price = 5;
  volume = 10;
}

abbrev longs : String → Option (LongWindowMetricsRecord ℕ)
longs mint = if str_eq mint "a" then some long else none

abbrev seed : String → LatestTradeSeed ℕ
seed mint = record { mint = mint; latest_price = some 7; latest_event_unix = some (pos 95) }

abbrev seeds : String → Option (LatestTradeSeed ℕ)
seeds mint = if str_eq mint "c" then none else some (seed mint)

-- The table is the number of its rows.
abbrev store : BackfillStore ℕ ℕ
store = record {
  reads = record {
    list_recent_trade_metrics_by_mint =
        λ mint since. ok (if str_eq mint "a" then point ∷ [] else []);
    list_long_window_metrics_by_mints = λ mints now. ok longs;
  };
  list_metric_backfill_candidates = λ limit. ok ("a" ∷ "b" ∷ "c" ∷ []);
  list_latest_trade_seeds_by_mints = λ mints. ok seeds;
  upsert_token_metrics_current = λ records n. ok (n + length records);
}

answers : Answers floats true store.reads (pos 170) longs seeds ("a" ∷ "b" ∷ "c" ∷ [])
answers =
    ((point ∷ [], refl, ground arith, ground arith), (([], refl, tt, tt), (([], refl, tt, tt), tt)))

backfill_current_metrics-Rows_example :
    (rs : List (TokenMetricsCurrentRecord ℕ)) × (backfill_current_metrics floats
        (some store)
        (pos 10)
        (pos 170)
        0
      ≡ handed store rs 0)
    × Rows floats true store.reads (pos 170) longs seeds ("a" ∷ "b" ∷ "c" ∷ []) rs
backfill_current_metrics-Rows_example =
    backfill_current_metrics-Rows floats true store (pos 10) (pos 170) 0 ("a" ∷ "b" ∷ "c" ∷ [])
      longs seeds refl now-IsTime refl refl refl refl answers
