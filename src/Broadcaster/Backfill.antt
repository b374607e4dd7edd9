-- ===== src/Broadcaster/Backfill.antt =====
-- BackfillCurrentMetrics of internal/broadcaster/stats.go: it stores the statistics of tokens that
-- have none, from their stored trades. Counters and the latency are left out.
pub mod Rows
use solana_dashboard.Common.{
  String, Bool, true, Option, none, some, List, [], ◌∷◌, if◌then◌else◌, map,
}
use solana_dashboard.Common.Int.{ℤ, pos, sub_int64, leb_ℤ}
use solana_dashboard.Result.{Result, ok, err}
use solana_dashboard.Store.Metrics.{LongWindowMetricsRecord, TokenMetricsCurrentRecord}
use solana_dashboard.Broadcaster.Window.{Floats, TokenWindowState, Trade, new_window, append_all}
use solana_dashboard.Broadcaster.Current.{build_current_record}
use solana_dashboard.Broadcaster.Feed.{TradeMetricPoint, stored_trade}
use solana_dashboard.Broadcaster.Sweep.{MetricsStore, long_or_zero}

-- LatestTradeSeedRecord of the store
pub record LatestTradeSeed (F : Type 0) : Type 0 where
  pub mint : String
  pub latest_price : Option F
  pub latest_event_unix : Option ℤ

-- tradeMetricsStore, as far as the backfill uses it, with its reads of recent and long metrics.
pub record BackfillStore (S : Type 0) (F : Type 0) : Type 0 where
  pub reads : MetricsStore F
  pub list_metric_backfill_candidates : ℤ → Result (List String)
  pub list_latest_trade_seeds_by_mints : List String → Result (String → Option (LatestTradeSeed F))
  pub upsert_token_metrics_current : List (TokenMetricsCurrentRecord F) → S → Result S

abbrev pub or_else : {A : Type 0} → A → Option A → A
or_else a none = a
or_else a (some b) = b

module _ {F : Type 0} (fl : Floats F) where
  -- What the latest seed of a mint changes in its window.
  unfoldable pub with_seed : Option (LatestTradeSeed F) → TokenWindowState F → TokenWindowState F
  with_seed none w = w
  with_seed (some seed) w = record w {
    last_price = or_else w.last_price seed.latest_price;
    last_unix_ts = or_else w.last_unix_ts seed.latest_event_unix;
    last_active_ts = or_else w.last_active_ts seed.latest_event_unix;
  }

  -- The window of a mint: seeded, with its recent trades.
  unfoldable pub backfill_window :
      List (TradeMetricPoint F) → Option (LatestTradeSeed F) → TokenWindowState F
  backfill_window metrics seed =
      with_seed seed
        (append_all fl (record (new_window fl) { seeded = true }) (map (stored_trade fl) metrics))

  abbrev pub append_record :
      Option (TokenMetricsCurrentRecord F)
      → List (TokenMetricsCurrentRecord F)
      → List (TokenMetricsCurrentRecord F)
  append_record none records = records
  append_record (some r) records = r ∷ records

  -- The loop over the candidates, up to the first error.
  unfoldable pub backfill_records :
      MetricsStore F
      → (String → LongWindowMetricsRecord F)
      → (String → Option (LatestTradeSeed F))
      → ℤ
      → List String
      → Result (List (TokenMetricsCurrentRecord F))
  backfill_records store longs seeds now [] = ok []
  backfill_records store longs seeds now (mint ∷ mints) =
      elim (store.list_recent_trade_metrics_by_mint mint (sub_int64 now (pos 300))) [
        | err e ↦ err e
        | ok metrics ↦ elim (backfill_records store longs seeds now mints) [
          | err e ↦ err e
          | ok records ↦ ok (
              append_record
                (build_current_record fl mint (backfill_window metrics (seeds mint)) (longs mint)
                  now)
                records)
        ]
      ]

  abbrev pub upsert_any :
      {S : Type 0} → BackfillStore S F → List (TokenMetricsCurrentRecord F) → S → Result S
  upsert_any store [] s = ok s
  upsert_any store (r ∷ rs) s = store.upsert_token_metrics_current (r ∷ rs) s

  -- What is done for candidates, when there are any.
  unfoldable pub backfill_mints : {S : Type 0} → BackfillStore S F → ℤ → List String → S → Result S
  backfill_mints store now [] s = ok s
  backfill_mints store now (mint ∷ mints) s =
      elim (store.reads.list_long_window_metrics_by_mints (mint ∷ mints) now) [
        | err e ↦ err e
        | ok longs ↦ elim (store.list_latest_trade_seeds_by_mints (mint ∷ mints)) [
          | err e ↦ err e
          | ok seeds ↦
              elim (backfill_records store.reads (λ m. long_or_zero fl (longs m)) seeds now
                (mint ∷ mints)) [ err e ↦ err e | ok records ↦ upsert_any store records s ]
        ]
      ]

  -- BackfillCurrentMetrics; no store is none.
  unfoldable pub backfill_current_metrics :
      {S : Type 0} → Option (BackfillStore S F) → ℤ → ℤ → S → Result S
  backfill_current_metrics none limit now s = ok s
  backfill_current_metrics (some store) limit now s =
      if leb_ℤ limit (pos 0) then ok s else elim (store.list_metric_backfill_candidates limit) [
        | err e ↦ err e
        | ok mints ↦ backfill_mints store now mints s
      ]
