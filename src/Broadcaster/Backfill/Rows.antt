-- ===== src/Broadcaster/Backfill/Rows.antt =====
-- The rows that BackfillCurrentMetrics of internal/broadcaster/stats.go stores, in terms of the stored
-- trades and the latest seeds.
use solana_dashboard.Common.{
  ℕ, ◌+◌, ◌%◌, ◌≤◌, ◌≡◌, ◌⊎◌, refl, ap, ◌∙◌, String, Bool, true, false, ◌||◌, Option, none, some,
  List, [], ◌∷◌, map, Bool-cases, inl, inr, arith,
}
use solana_dashboard.Common.Int.{ℤ, pos, sub_int64, leb_ℤ, word_mod, IsTime}
use solana_dashboard.Result.{Result, ok}
use solana_dashboard.Store.Metrics.{LongWindowMetricsRecord, TokenMetricsCurrentRecord}
use solana_dashboard.Broadcaster.Window.{
  Floats, TokenWindowState, Trade, new_window, append_all, append_second_bucket,
  summarize_second_buckets,
}
use solana_dashboard.Broadcaster.Window.Seconds.{OnTime}
use solana_dashboard.Broadcaster.Window.Counts.{
  AllFit, trades_between, tallied, summarize_second_buckets-counts,
}
use solana_dashboard.Broadcaster.Current.{
  build_current_record, current_of, stored_1h, stored_4h, stored_24h,
}
use solana_dashboard.Broadcaster.Current.Totals.{
  of_side, merged, current_at, build_current_record-live,
}
use solana_dashboard.Broadcaster.Feed.{TradeMetricPoint, stored_trade}
use solana_dashboard.Broadcaster.Feed.History.{marked, append_all-marked}
use solana_dashboard.Broadcaster.Sweep.{MetricsStore, long_or_zero}
use solana_dashboard.Broadcaster.Backfill.{
  LatestTradeSeed, or_else, with_seed, backfill_window, append_record, backfill_records,
  BackfillStore, upsert_any, backfill_mints, backfill_current_metrics,
}

-- One side of a row: its counts are those of the trades of the last 60 and 300 seconds, and for the
-- long windows what is stored of them and the trades of the last 300 seconds.
pub record IsRow {F : Type 0} (side : Bool) (mint : String) (price : F) (time now : ℤ)
    (long : LongWindowMetricsRecord F) (xs : List (Trade F)) (r : TokenMetricsCurrentRecord F)
    : Type 0 where
  pub named : r.mint ≡ mint
  pub priced : r.latest_price ≡ some price
  pub timed : r.latest_event_unix ≡ some time
  pub minute :
      of_side side r.buys_1m r.sells_1m % word_mod
      ≡ trades_between side (sub_int64 now (pos 60)) now xs % word_mod
  pub five_minutes :
      of_side side r.buys_5m r.sells_5m % word_mod
      ≡ trades_between side (sub_int64 now (pos 300)) now xs % word_mod
  pub hour :
      of_side side r.buys_1h r.sells_1h
      ≡ (of_side side long.buys_1h long.sells_1h
          + trades_between side (sub_int64 now (pos 300)) now xs)
        % word_mod
  pub four_hours :
      of_side side r.buys_4h r.sells_4h
      ≡ (of_side side long.buys_4h long.sells_4h
          + trades_between side (sub_int64 now (pos 300)) now xs)
        % word_mod
  pub day :
      of_side side r.buys_24h r.sells_24h
      ≡ (of_side side long.buys_24h long.sells_24h
          + trades_between side (sub_int64 now (pos 300)) now xs)
        % word_mod

module _ {F : Type 0} (fl : Floats F) where
  abbrev pub trades_of : List (TradeMetricPoint F) → List (Trade F)
  trades_of metrics = map (stored_trade fl) metrics

  -- The price and the time of the last of some trades.
  abbrev pub newest_price : F → List (Trade F) → F
  newest_price price [] = price
  newest_price price (x ∷ xs) = newest_price x.price xs

  abbrev pub newest_time : ℤ → List (Trade F) → ℤ
  newest_time time [] = time
  newest_time time (x ∷ xs) = newest_time x.ts xs

  -- The latest price and time of a token: those of its seed, and where that has none, those of its
  -- last recent trade, or zero.
  abbrev pub latest_price_of : Option (LatestTradeSeed F) → List (Trade F) → F
  latest_price_of none xs = newest_price fl.zero xs
  latest_price_of (some seed) xs = elim seed.latest_price [
    | none ↦ newest_price fl.zero xs
    | some price ↦ price
  ]

  abbrev pub latest_time_of : Option (LatestTradeSeed F) → List (Trade F) → ℤ
  latest_time_of none xs = newest_time (pos 0) xs
  latest_time_of (some seed) xs = elim seed.latest_event_unix [
    | none ↦ newest_time (pos 0) xs
    | some time ↦ time
  ]

  append_all-newest :
      (xs : List (Trade F)) (w : TokenWindowState F)
      → ((append_all fl w xs).last_price ≡ newest_price w.last_price xs)
        × ((append_all fl w xs).last_unix_ts ≡ newest_time w.last_unix_ts xs)
  unfolding append_all append_second_bucket
  append_all-newest [] w = (refl, refl)
  append_all-newest (x ∷ xs) w = append_all-newest xs (append_second_bucket fl w x)

  seed_price :
      (seed : Option (LatestTradeSeed F)) (metrics : List (TradeMetricPoint F))
      → (backfill_window fl metrics seed).last_price ≡ latest_price_of seed (trades_of metrics)
  unfolding backfill_window with_seed new_window
  seed_price none metrics = (append_all-newest (trades_of metrics) _).0
  seed_price (some seed) metrics =
      ap (λ p. or_else p seed.latest_price) (append_all-newest (trades_of metrics) _).0

  seed_time :
      (seed : Option (LatestTradeSeed F)) (metrics : List (TradeMetricPoint F))
      → (backfill_window fl metrics seed).last_unix_ts ≡ latest_time_of seed (trades_of metrics)
  unfolding backfill_window with_seed new_window
  seed_time none metrics = (append_all-newest (trades_of metrics) _).1
  seed_time (some seed) metrics =
      ap (λ t. or_else t seed.latest_event_unix) (append_all-newest (trades_of metrics) _).1

  same_summary :
      (seed : Option (LatestTradeSeed F)) (metrics : List (TradeMetricPoint F)) (now back : ℤ)
      → summarize_second_buckets fl (backfill_window fl metrics seed) now back
        ≡ summarize_second_buckets fl (append_all fl (new_window fl) (trades_of metrics)) now back
  unfolding backfill_window with_seed marked summarize_second_buckets
  same_summary none metrics now back =
      ap (λ w. summarize_second_buckets fl w now back)
        (append_all-marked fl (trades_of metrics) true (new_window fl))
  same_summary (some seed) metrics now back =
      ap (λ w. summarize_second_buckets fl w now back)
        (append_all-marked fl (trades_of metrics) true (new_window fl))

  -- Is there nothing to store: no price above zero, or no time?
  abbrev pub is_unpriced : Option (LatestTradeSeed F) → List (Trade F) → Bool
  is_unpriced seed xs =
      fl.at_most_zero (latest_price_of seed xs) || leb_ℤ (latest_time_of seed xs) (pos 0)

  module _ (side : Bool) (now : ℤ) (z : fl.is_zero fl.zero ≡ true) (time : IsTime now) where
    counts_of :
        (seed : Option (LatestTradeSeed F)) (metrics : List (TradeMetricPoint F)) (back : ℕ)
        → back ≤ 300
        → OnTime (pos 0) (trades_of metrics)
        → AllFit fl now (trades_of metrics)
        → tallied side
              (summarize_second_buckets fl (backfill_window fl metrics seed) now (pos back))
            % word_mod
          ≡ trades_between side (sub_int64 now (pos back)) now (trades_of metrics) % word_mod
    counts_of seed metrics back short on_time fits =
        ap (λ s. tallied side s % word_mod) (same_summary seed metrics now (pos back))
        ∙ summarize_second_buckets-counts fl side (trades_of metrics) now back z time short on_time
            fits

    backfill_window-IsRow :
        (mint : String) (seed : Option (LatestTradeSeed F)) (metrics : List (TradeMetricPoint F))
        (long : LongWindowMetricsRecord F)
        → OnTime (pos 0) (trades_of metrics)
        → AllFit fl now (trades_of metrics)
        → is_unpriced seed (trades_of metrics) ≡ false
        → (r : TokenMetricsCurrentRecord F) × (build_current_record fl mint
              (backfill_window fl metrics seed)
              long
              now
            ≡ some r)
          × IsRow side mint
              (latest_price_of seed (trades_of metrics))
              (latest_time_of seed (trades_of metrics))
              now
              long
              (trades_of metrics)
              r
    unfolding current_at current_of
    backfill_window-IsRow mint seed metrics long on_time fits priced =
        let w = backfill_window fl metrics seed in
        let short = counts_of seed metrics 300 (omega arith) on_time fits in
        (
          _,
          build_current_record-live fl side mint w long now (
            rw (seed_price seed metrics) (ground (arith, priced)),
            rw (seed_time seed metrics) (ground (arith, priced)),
          ),
          record {
            named = refl;
            priced = ap some (seed_price seed metrics);
            timed = ap some (seed_time seed metrics);
            minute = counts_of seed metrics 60 (omega arith) on_time fits;
            five_minutes = short;
            hour =
                merged fl side (stored_1h fl long) (summarize_second_buckets fl w now (pos 300)) _
                  short;
            four_hours =
                merged fl side (stored_4h fl long) (summarize_second_buckets fl w now (pos 300)) _
                  short;
            day =
                merged fl side (stored_24h fl long) (summarize_second_buckets fl w now (pos 300)) _
                  short;
          },
        )

  build_nothing :
      (mint : String) (seed : Option (LatestTradeSeed F)) (metrics : List (TradeMetricPoint F))
      (long : LongWindowMetricsRecord F) (now : ℤ)
      → is_unpriced seed (trades_of metrics) ≡ true
      → build_current_record fl mint (backfill_window fl metrics seed) long now ≡ none
  unfolding build_current_record
  build_nothing mint seed metrics long now unpriced =
      rw (seed_price seed metrics, seed_time seed metrics, unpriced) refl

module _ {F : Type 0} (fl : Floats F) (side : Bool) (store : MetricsStore F) (now : ℤ)
    (longs : String → Option (LongWindowMetricsRecord F))
    (seeds : String → Option (LatestTradeSeed F)) where
  -- The store answers for every mint with recent trades that carry a price, lie in the past and come
  -- less than 300 seconds late, if there are any.
  abbrev pub Answers : List String → Type 0
  Answers [] = Unit
  Answers (mint ∷ mints) =
      ((metrics : List (TradeMetricPoint F)) × (store.list_recent_trade_metrics_by_mint mint
            (sub_int64 now (pos 300))
          ≡ ok metrics)
        × OnTime (pos 0) (trades_of fl metrics)
        × AllFit fl now (trades_of fl metrics))
      × Answers mints

  -- One row for each mint that has a price and a time, in their order.
  abbrev pub Rows : List String → List (TokenMetricsCurrentRecord F) → Type 0
  Rows [] rs = rs ≡ []
  Rows (mint ∷ mints) rs =
      (metrics : List (TradeMetricPoint F)) × (store.list_recent_trade_metrics_by_mint mint
          (sub_int64 now (pos 300))
        ≡ ok metrics)
      × ((is_unpriced fl (seeds mint) (trades_of fl metrics) ≡ true) × Rows mints rs
          ⊎ (is_unpriced fl (seeds mint) (trades_of fl metrics) ≡ false)
            × ((r : TokenMetricsCurrentRecord F) × (rest : List (TokenMetricsCurrentRecord F)) × (rs
                  ≡ r ∷ rest)
                × IsRow side mint (latest_price_of fl (seeds mint) (trades_of fl metrics))
                    (latest_time_of fl (seeds mint) (trades_of fl metrics)) now
                    (long_or_zero fl (longs mint)) (trades_of fl metrics) r
                × Rows mints rest))

  backfill_records_step :
      (mint : String) (mints : List String) (metrics : List (TradeMetricPoint F))
      (rs : List (TokenMetricsCurrentRecord F))
      → store.list_recent_trade_metrics_by_mint mint (sub_int64 now (pos 300)) ≡ ok metrics
      → backfill_records fl store (λ m. long_or_zero fl (longs m)) seeds now mints ≡ ok rs
      → backfill_records fl store (λ m. long_or_zero fl (longs m)) seeds now (mint ∷ mints)
        ≡ ok (
            append_record fl
              (build_current_record fl mint
                (backfill_window fl metrics (seeds mint))
                (long_or_zero fl (longs mint))
                now)
              rs)
  unfolding backfill_records
  backfill_records_step mint mints metrics rs e g =
      rw (e, backfill_records) (rw (g, backfill_records) refl)

  backfill_records-Rows :
      (mints : List String)
      → fl.is_zero fl.zero ≡ true
      → IsTime now
      → Answers mints
      → (rs : List (TokenMetricsCurrentRecord F)) × (backfill_records fl store
            (λ m. long_or_zero fl (longs m))
            seeds
            now
            mints
          ≡ ok rs)
        × Rows mints rs
  unfolding backfill_records
  backfill_records-Rows [] z time a = ([], refl, refl)
  backfill_records-Rows (mint ∷ mints) z time ((metrics, e, on_time, fits), a) =
      let (rs, g, rows) = backfill_records-Rows mints z time a in
      let done = backfill_records_step mint mints metrics rs e g in
      elim (Bool-cases (is_unpriced fl (seeds mint) (trades_of fl metrics))) [
        | inl u ↦ (
          rs,
          done
              ∙ ap (λ r. ok (append_record fl r rs))
                  (build_nothing fl mint (seeds mint) metrics (long_or_zero fl (longs mint)) now u),
          (metrics, e, inl (u, rows)),
        )
        | inr u ↦
            let (r, b, row) =
              backfill_window-IsRow fl side now z time mint (seeds mint) metrics
                (long_or_zero fl (longs mint)) on_time fits u in
            (
              r ∷ rs,
              done ∙ ap (λ o. ok (append_record fl o rs)) b,
              (metrics, e, inr (u, (r, rs, refl, row, rows))),
            )
      ]

-- The rows go to the store, if there are any.
abbrev pub handed :
    {S F : Type 0} → BackfillStore S F → List (TokenMetricsCurrentRecord F) → S → Result S
handed store [] s = ok s
handed store (r ∷ rs) s = store.upsert_token_metrics_current (r ∷ rs) s

module _ {F S : Type 0} (fl : Floats F) (side : Bool) where
  upsert_any-handed :
      (store : BackfillStore S F) (rs : List (TokenMetricsCurrentRecord F)) (s : S)
      → upsert_any fl store rs s ≡ handed store rs s
  upsert_any-handed store [] s = refl
  upsert_any-handed store (r ∷ rs) s = refl

  backfill_mints-Rows :
      (store : BackfillStore S F) (now : ℤ) (s : S) (mints : List String)
      (longs : String → Option (LongWindowMetricsRecord F))
      (seeds : String → Option (LatestTradeSeed F))
      → fl.is_zero fl.zero ≡ true
      → IsTime now
      → store.reads.list_long_window_metrics_by_mints mints now ≡ ok longs
      → store.list_latest_trade_seeds_by_mints mints ≡ ok seeds
      → Answers fl side store.reads now longs seeds mints
      → (rs : List (TokenMetricsCurrentRecord F)) × (backfill_mints fl store now mints s
          ≡ handed store rs s)
        × Rows fl side store.reads now longs seeds mints rs
  unfolding backfill_mints
  backfill_mints-Rows store now s [] longs seeds z time l g a = ([], refl, refl)
  backfill_mints-Rows store now s (mint ∷ mints) longs seeds z time l g a =
      let (rs, e, rows) =
        backfill_records-Rows fl side store.reads now longs seeds (mint ∷ mints) z time a in
      (
        rs,
        rw (l, backfill_mints)
            (rw (g, backfill_mints) (rw (e, backfill_mints) (upsert_any-handed store rs s))),
        rows,
      )

  -- At a positive limit, when the store answers every query with recent trades that each carry a
  -- price, lie in the past and come less than 300 seconds late (or with none): BackfillCurrentMetrics
  -- gives the store, in one upsert if there are any, one row for each candidate that has a price above
  -- zero and a positive time, in their order, and none for the others. Price and time are those of the
  -- candidate's latest seed, and where it has none those of its last recent trade. The buys (or sells)
  -- of 1 and 5 minutes are the number of recent buys (or sells) of the last 60 and 300 seconds, and
  -- those of 1, 4 and 24 hours are the stored ones and the number of the last 300 seconds together.
  pub backfill_current_metrics-Rows :
      (store : BackfillStore S F) (limit now : ℤ) (s : S) (mints : List String)
      (longs : String → Option (LongWindowMetricsRecord F))
      (seeds : String → Option (LatestTradeSeed F))
      → fl.is_zero fl.zero ≡ true
      → IsTime now
      → leb_ℤ limit (pos 0) ≡ false
      → store.list_metric_backfill_candidates limit ≡ ok mints
      → store.reads.list_long_window_metrics_by_mints mints now ≡ ok longs
      → store.list_latest_trade_seeds_by_mints mints ≡ ok seeds
      → Answers fl side store.reads now longs seeds mints
      → (rs : List (TokenMetricsCurrentRecord F)) × (backfill_current_metrics fl
            (some store)
            limit
            now
            s
          ≡ handed store rs s)
        × Rows fl side store.reads now longs seeds mints rs
  unfolding backfill_current_metrics
  backfill_current_metrics-Rows store limit now s mints longs seeds z time positive c l g a =
      let (rs, e, rows) = backfill_mints-Rows store now s mints longs seeds z time l g a in
      (rs, rw (positive, c) e, rows)
