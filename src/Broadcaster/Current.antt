-- ===== src/Broadcaster/Current.antt =====
-- The current metrics of a token: buildCurrentRecord and BuildPayloadFromCurrentMetrics of
-- internal/broadcaster/stats.go. Go's int has 64 bits here, so int(count) changes nothing.
pub mod Totals
use solana_dashboard.Common.{ℕ, String, Bool, ◌||◌, Option, none, some, if◌then◌else◌}
use solana_dashboard.Common.Int.{ℤ, pos, leb_ℤ}
use solana_dashboard.Store.Metrics.{LongWindowMetricsRecord, TokenMetricsCurrentRecord}
use solana_dashboard.Broadcaster.Window.{
  Floats, TokenWindowState, WindowSnapshot, add_count, summarize_second_buckets,
  merge_window_snapshots,
}

pub record TokenStatsPayload (F : Type 0) : Type 0 where
  pub mint : String
  pub price : F
  pub timestamp : ℤ
  pub p_1m : F
  pub b_1m : ℕ
  pub s_1m : ℕ
  pub bv_1m : F
  pub sv_1m : F
  pub v_1m : F
  pub p_5m : F
  pub b_5m : ℕ
  pub s_5m : ℕ
  pub bv_5m : F
  pub sv_5m : F
  pub v_5m : F
  pub p_1h : F
  pub b_1h : ℕ
  pub s_1h : ℕ
  pub bv_1h : F
  pub sv_1h : F
  pub v_1h : F
  pub p_4h : F
  pub b_4h : ℕ
  pub s_4h : ℕ
  pub bv_4h : F
  pub sv_4h : F
  pub v_4h : F
  pub p_24h : F
  pub b_24h : ℕ
  pub s_24h : ℕ
  pub bv_24h : F
  pub sv_24h : F
  pub v_24h : F

module _ {F : Type 0} (fl : Floats F) where
  -- derefAnchor
  unfoldable pub deref_anchor : Option F → F
  deref_anchor none = fl.zero
  deref_anchor (some value) = value

  -- The snapshots that the code makes of the stored metrics.
  abbrev pub stored_1h : LongWindowMetricsRecord F → WindowSnapshot F
  stored_1h long = record {
    anchor_price = long.anchor_price_1h;
    buys = long.buys_1h;
    sells = long.sells_1h;
    buy_volume = long.buy_volume_1h;
    sell_volume = long.sell_volume_1h;
    volume = long.volume_1h;
  }

  abbrev pub stored_4h : LongWindowMetricsRecord F → WindowSnapshot F
  stored_4h long = record {
    anchor_price = long.anchor_price_4h;
    buys = long.buys_4h;
    sells = long.sells_4h;
    buy_volume = long.buy_volume_4h;
    sell_volume = long.sell_volume_4h;
    volume = long.volume_4h;
  }

  abbrev pub stored_24h : LongWindowMetricsRecord F → WindowSnapshot F
  stored_24h long = record {
    anchor_price = long.anchor_price_24h;
    buys = long.buys_24h;
    sells = long.sells_24h;
    buy_volume = long.buy_volume_24h;
    sell_volume = long.sell_volume_24h;
    volume = long.volume_24h;
  }

  -- The record from the five snapshots.
  unfoldable pub current_of :
      String
      → TokenWindowState F
      → WindowSnapshot F
      → WindowSnapshot F
      → WindowSnapshot F
      → WindowSnapshot F
      → WindowSnapshot F
      → TokenMetricsCurrentRecord F
  current_of mint window short_1m short_5m long_1h long_4h long_24h = record {
    mint = mint;
    latest_price = some window.last_price;
    latest_event_unix = some window.last_unix_ts;
    anchor_price_1m = short_1m.anchor_price;
    anchor_price_5m = short_5m.anchor_price;
    anchor_price_1h = long_1h.anchor_price;
    anchor_price_4h = long_4h.anchor_price;
    anchor_price_24h = long_24h.anchor_price;
    txns_1m = add_count short_1m.buys short_1m.sells;
    txns_5m = add_count short_5m.buys short_5m.sells;
    txns_1h = add_count long_1h.buys long_1h.sells;
    txns_4h = add_count long_4h.buys long_4h.sells;
    txns_24h = add_count long_24h.buys long_24h.sells;
    buys_1m = short_1m.buys;
    buys_5m = short_5m.buys;
    buys_1h = long_1h.buys;
    buys_4h = long_4h.buys;
    buys_24h = long_24h.buys;
    sells_1m = short_1m.sells;
    sells_5m = short_5m.sells;
    sells_1h = long_1h.sells;
    sells_4h = long_4h.sells;
    sells_24h = long_24h.sells;
    volume_1m = short_1m.volume;
    volume_5m = short_5m.volume;
    volume_1h = long_1h.volume;
    volume_4h = long_4h.volume;
    volume_24h = long_24h.volume;
    buy_volume_1m = short_1m.buy_volume;
    buy_volume_5m = short_5m.buy_volume;
    buy_volume_1h = long_1h.buy_volume;
    buy_volume_4h = long_4h.buy_volume;
    buy_volume_24h = long_24h.buy_volume;
    sell_volume_1m = short_1m.sell_volume;
    sell_volume_5m = short_5m.sell_volume;
    sell_volume_1h = long_1h.sell_volume;
    sell_volume_4h = long_4h.sell_volume;
    sell_volume_24h = long_24h.sell_volume;
    source_log_id = window.last_log_id;
  }

  -- buildCurrentRecord
  unfoldable pub build_current_record :
      String
      → TokenWindowState F
      → LongWindowMetricsRecord F
      → ℤ
      → Option (TokenMetricsCurrentRecord F)
  unfolding current_of
  build_current_record mint window long now_ts =
      let short_5m = summarize_second_buckets fl window now_ts (pos 300) in
      if fl.at_most_zero window.last_price || leb_ℤ window.last_unix_ts (pos 0)
      then none
      else some (
          current_of mint window (summarize_second_buckets fl window now_ts (pos 60)) short_5m
            (merge_window_snapshots fl (stored_1h long) short_5m)
            (merge_window_snapshots fl (stored_4h long) short_5m)
            (merge_window_snapshots fl (stored_24h long) short_5m))

  payload_of : String → TokenMetricsCurrentRecord F → F → ℤ → TokenStatsPayload F
  unfolding deref_anchor
  payload_of mint metrics price timestamp = record {
    mint = mint;
    price = price;
    timestamp = timestamp;
    p_1m = deref_anchor metrics.anchor_price_1m;
    p_5m = deref_anchor metrics.anchor_price_5m;
    p_1h = deref_anchor metrics.anchor_price_1h;
    p_4h = deref_anchor metrics.anchor_price_4h;
    p_24h = deref_anchor metrics.anchor_price_24h;
    b_1m = metrics.buys_1m;
    b_5m = metrics.buys_5m;
    b_1h = metrics.buys_1h;
    b_4h = metrics.buys_4h;
    b_24h = metrics.buys_24h;
    s_1m = metrics.sells_1m;
    s_5m = metrics.sells_5m;
    s_1h = metrics.sells_1h;
    s_4h = metrics.sells_4h;
    s_24h = metrics.sells_24h;
    bv_1m = metrics.buy_volume_1m;
    bv_5m = metrics.buy_volume_5m;
    bv_1h = metrics.buy_volume_1h;
    bv_4h = metrics.buy_volume_4h;
    bv_24h = metrics.buy_volume_24h;
    sv_1m = metrics.sell_volume_1m;
    sv_5m = metrics.sell_volume_5m;
    sv_1h = metrics.sell_volume_1h;
    sv_4h = metrics.sell_volume_4h;
    sv_24h = metrics.sell_volume_24h;
    v_1m = metrics.volume_1m;
    v_5m = metrics.volume_5m;
    v_1h = metrics.volume_1h;
    v_4h = metrics.volume_4h;
    v_24h = metrics.volume_24h;
  }

  -- BuildPayloadFromCurrentMetrics
  unfoldable pub build_payload_from_current_metrics :
      String → Option (TokenMetricsCurrentRecord F) → Option (TokenStatsPayload F)
  unfolding payload_of
  build_payload_from_current_metrics mint none = none
  build_payload_from_current_metrics mint (some metrics) = elim metrics.latest_price [
    | none ↦ none
    | some price ↦ elim metrics.latest_event_unix [
      | none ↦ none
      | some timestamp ↦ some (payload_of mint metrics price timestamp)
    ]
  ]
