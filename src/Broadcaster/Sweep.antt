-- ===== src/Broadcaster/Sweep.antt =====
-- Sweep of internal/broadcaster/stats.go: once a second it drops the windows that have gone cold,
-- and refreshes, stores and publishes the statistics of the others. One goroutine runs it and the
-- handling of trades in turn. A target holds the pointer of its window, which stays in the map, so the
-- window is read by its mint. Counters, gauges and logging are left out.
pub mod Refresh
pub mod Kept
pub mod Rule
pub mod Sent
use solana_dashboard.Common.{
  ℕ, suc, ◌/◌, ◌*◌, String, Bool, true, false, not, ◌&&◌, ◌||◌, Option, none, some, List, [], ◌∷◌,
  ◌++◌, if◌then◌else◌, map,
}
use solana_dashboard.Common.Int.{ℤ, pos, negsuc, sub_ℕ, sub_int64, ltb_ℤ, leb_ℤ, eqb_ℤ}
use solana_dashboard.Result.{Result, ok, err}
use solana_dashboard.Events.{Envelope, RawMessage}
use solana_dashboard.Store.Metrics.{LongWindowMetricsRecord, TokenMetricsCurrentRecord}
use solana_dashboard.Broadcaster.Window.{Floats, TokenWindowState, Trade}
use solana_dashboard.Broadcaster.Current.{
  TokenStatsPayload, build_current_record, build_payload_from_current_metrics,
}
use solana_dashboard.Broadcaster.Feed.{
  Recent, TradeMetricPoint, Windows, find_window, set_window, remove_window, ensure_window_seeded,
}

-- tradeMetricsStore, as far as a sweep reads it. A map that a query returns is a function.
pub record MetricsStore (F : Type 0) : Type 0 where
  pub list_recent_trade_metrics_by_mint : String → ℤ → Result (List (TradeMetricPoint F))
  pub list_long_window_metrics_by_mints :
      List String → ℤ → Result (String → Option (LongWindowMetricsRecord F))

abbrev pub recent_of : {F : Type 0} → Option (MetricsStore F) → Recent F
recent_of none = none
recent_of (some store) = some store.list_recent_trade_metrics_by_mint

-- refreshTarget
pub record RefreshTarget : Type 0 where
  pub mint : String
  pub subscribed : Bool

-- (nowTs / 60) * 60, where Go's division drops the fraction.
unfoldable pub minute_of : ℤ → ℤ
minute_of (pos n) = pos (n / 60 * 60)
minute_of (negsuc n) = sub_ℕ 0 (suc n / 60 * 60)

-- The tests of the first loop.
unfoldable pub is_evicted : {F : Type 0} → Bool → ℤ → TokenWindowState F → Bool
is_evicted subscribed now window =
    not subscribed
    && ltb_ℤ (pos 0) window.last_active_ts
    && ltb_ℤ (pos 86400) (sub_int64 now window.last_active_ts)

unfoldable pub is_short_active : {F : Type 0} → ℤ → TokenWindowState F → Bool
is_short_active now window =
    ltb_ℤ (pos 0) window.last_active_ts && leb_ℤ (sub_int64 now window.last_active_ts) (pos 300)

unfoldable pub is_target : {F : Type 0} → Bool → ℤ → TokenWindowState F → Bool
is_target subscribed now window =
    subscribed
    || is_short_active now window
    || not (eqb_ℤ window.last_persisted_minute (minute_of now))

-- The first loop: the targets and the evictions. `has_subscribers` says whether there is a hub and
-- it has subscribers of the topic "token:" ++ mint.
module _ {F : Type 0} (has_subscribers : String → Bool) (now : ℤ) where
  unfoldable pub scan_windows : Windows F → List RefreshTarget × List String
  scan_windows [] = ([], [])
  scan_windows ((mint, window) ∷ ws) =
      let (targets, evictions) = scan_windows ws in
      let subscribed = has_subscribers mint in
      if is_evicted subscribed now window
      then (targets, mint ∷ evictions)
      else if is_target subscribed now window
      then (record { mint = mint; subscribed = subscribed } ∷ targets, evictions)
      else (targets, evictions)

unfoldable pub remove_windows : {F : Type 0} → List String → Windows F → Windows F
remove_windows [] ws = ws
remove_windows (mint ∷ mints) ws = remove_windows mints (remove_window mint ws)

-- What a sweep gives to the store and to the hub. An envelope is published to "token:" ++ its mint.
pub record Outcome (F : Type 0) : Type 0 where
  pub records : List (TokenMetricsCurrentRecord F)
  pub publish_queue : List (String × Envelope)

abbrev pub no_outcome : {F : Type 0} → Outcome F
no_outcome = record { records = []; publish_queue = [] }

-- The envelope of a token_stat: every other field is its zero value.
abbrev pub stat_envelope : RawMessage → ℤ → Envelope
stat_envelope payload now = record {
  log_id = pos 0;
  schema_version = pos 0;
  event_id = "";
  chain = "";
  protocol = "";
  event_type = "token_stat";
  commitment = "";
  slot = 0;
  tx_signature = "";
  tx_index = 0;
  instruction_path = record { source = ""; outer_index = pos 0; inner_index = none };
  event_source = "";
  event_unix_ts = now;
  refs = record {
    mint = none;
    pool = none;
    bonding_curve = none;
    user = none;
    creator = none;
    base_mint = none;
    quote_mint = none;
    lp_mint = none;
  };
  payload = payload;
}

-- The zero value of LongWindowMetricsRecord, which Go's map gives for a mint that it does not have.
module _ {F : Type 0} (fl : Floats F) where
  abbrev pub no_long_metrics : LongWindowMetricsRecord F
  no_long_metrics = record {
    mint = "";
    anchor_price_1h = none;
    anchor_price_4h = none;
    anchor_price_24h = none;
    txns_1h = 0;
    txns_4h = 0;
    txns_24h = 0;
    buys_1h = 0;
    buys_4h = 0;
    buys_24h = 0;
    sells_1h = 0;
    sells_4h = 0;
    sells_24h = 0;
    volume_1h = fl.zero;
    volume_4h = fl.zero;
    volume_24h = fl.zero;
    buy_volume_1h = fl.zero;
    buy_volume_4h = fl.zero;
    buy_volume_24h = fl.zero;
    sell_volume_1h = fl.zero;
    sell_volume_4h = fl.zero;
    sell_volume_24h = fl.zero;
  }

  abbrev pub long_or_zero : Option (LongWindowMetricsRecord F) → LongWindowMetricsRecord F
  long_or_zero none = no_long_metrics
  long_or_zero (some long) = long

  -- longMetrics: empty without a store, and where its query fails.
  unfoldable pub long_metrics :
      Option (MetricsStore F) → List String → ℤ → String → LongWindowMetricsRecord F
  long_metrics none mints now mint = no_long_metrics
  long_metrics (some store) mints now mint =
      elim (store.list_long_window_metrics_by_mints mints now) [
        | err e ↦ no_long_metrics
        | ok items ↦ long_or_zero (items mint)
      ]

module _ {F : Type 0} (fl : Floats F) (marshal : TokenStatsPayload F → Result RawMessage)
    (store : Option (MetricsStore F)) (now : ℤ) where
  -- The body of the second loop: the record of a window, and what is published of it.
  abbrev published_stat : String → Bool → TokenMetricsCurrentRecord F → List (String × Envelope)
  published_stat mint false metrics = []
  published_stat mint true metrics =
      elim (build_payload_from_current_metrics fl mint (some metrics)) [
        | none ↦ []
        | some payload ↦ elim (marshal payload) [
          | err e ↦ []
          | ok bytes ↦ (mint, stat_envelope bytes now) ∷ []
        ]
      ]

  unfoldable pub outcome_of :
      RefreshTarget → LongWindowMetricsRecord F → TokenWindowState F → Outcome F
  outcome_of target long window = elim (build_current_record fl target.mint window long now) [
    | none ↦ no_outcome
    | some metrics ↦ record {
      records = metrics ∷ [];
      publish_queue = published_stat target.mint target.subscribed metrics;
    }
  ]

  unfoldable pub seed_target : RefreshTarget → TokenWindowState F → Windows F → Windows F
  seed_target target window ws =
      if target.subscribed && not window.seeded
      then ensure_window_seeded fl (recent_of store) target.mint now ws
      else ws

  -- One round of the second loop, on the window that the target points to.
  unfoldable pub refresh :
      (String → LongWindowMetricsRecord F) → RefreshTarget → Windows F → Windows F × Outcome F
  refresh longs target ws = elim (find_window target.mint ws) [
    | none ↦ (ws, no_outcome)
    | some window ↦
        let seeded = seed_target target window ws in
        elim (find_window target.mint seeded) [
          | none ↦ (seeded, no_outcome)
          | some current ↦ (
            set_window target.mint (record current { last_persisted_minute = minute_of now })
                seeded,
            outcome_of target (longs target.mint) current,
          )
        ]
  ]

  abbrev pub both : Outcome F → Outcome F → Outcome F
  both a b = record {
    records = a.records ++ b.records;
    publish_queue = a.publish_queue ++ b.publish_queue;
  }

  unfoldable pub refresh_all :
      (String → LongWindowMetricsRecord F) → List RefreshTarget → Windows F → Windows F × Outcome F
  refresh_all longs [] ws = (ws, no_outcome)
  refresh_all longs (target ∷ targets) ws =
      let (next, outcome) = refresh longs target ws in
      let (last, outcomes) = refresh_all longs targets next in (last, both outcome outcomes)

  -- Sweep. The records go to UpsertTokenMetricsCurrent if there are any and there is a store; an
  -- error of it is logged.
  unfoldable pub sweep : (String → Bool) → Windows F → Windows F × Outcome F
  sweep has_subscribers ws =
      let (targets, evictions) = scan_windows has_subscribers now ws in
      let kept = remove_windows evictions ws in
      refresh_all (long_metrics fl store (map (λ (t : RefreshTarget). t.mint) targets) now) targets
        kept
