-- ===== src/Broadcaster/Current/Totals.antt =====
-- What the published numbers of a token are, in terms of its trades.
use solana_dashboard.Common.{
  ℕ, ◌+◌, ◌%◌, ◌≡◌, refl, String, Bool, true, false, ◌||◌, Option, none, some, List, if◌then◌else◌,
  arith,
}
use solana_dashboard.Common.Int.{ℤ, pos, leb_ℤ, word_mod, IsTime, sub_int64}
use solana_dashboard.Store.Metrics.{LongWindowMetricsRecord, TokenMetricsCurrentRecord}
use solana_dashboard.Broadcaster.Window.{
  Floats, TokenWindowState, WindowSnapshot, Trade, append_all, new_window, summarize_second_buckets,
  merge_window_snapshots,
}
use solana_dashboard.Broadcaster.Window.Counts.{
  trades_between, tallied, AllFit, summarize_second_buckets-counts,
}
use solana_dashboard.Broadcaster.Window.Seconds.{OnTime}
use solana_dashboard.Broadcaster.Current.{
  TokenStatsPayload, build_current_record, build_payload_from_current_metrics, current_of,
  payload_of, stored_1h, stored_4h, stored_24h,
}

-- A trade has been made at a positive price: there is something to publish.
abbrev pub IsLive : {F : Type 0} → Floats F → TokenWindowState F → Type 0
IsLive fl w = (fl.at_most_zero w.last_price ≡ false) × (leb_ℤ w.last_unix_ts (pos 0) ≡ false)

-- The record of a token, made into the payload that is published for it.
unfoldable pub published :
    {F : Type 0}
    → Floats F
    → String
    → TokenWindowState F
    → LongWindowMetricsRecord F
    → ℤ
    → Option (TokenStatsPayload F)
published fl mint w long now = elim (build_current_record fl mint w long now) [
  | none ↦ none
  | some metrics ↦ build_payload_from_current_metrics fl mint (some metrics)
]

abbrev pub of_side : Bool → ℕ → ℕ → ℕ
of_side side buys sells = if side then buys else sells

-- The counts of one side in a payload: the short windows hold the token's trades of the last 60 and
-- 300 seconds, the long ones those of the last 300 seconds on top of what is stored.
pub record Counts {F : Type 0} (side : Bool) (long : LongWindowMetricsRecord F)
    (last_1m last_5m : ℕ) (p : TokenStatsPayload F) : Type 0 where
  pub minute : of_side side p.b_1m p.s_1m % word_mod ≡ last_1m % word_mod
  pub five_minutes : of_side side p.b_5m p.s_5m % word_mod ≡ last_5m % word_mod
  pub hour :
      of_side side p.b_1h p.s_1h ≡ (of_side side long.buys_1h long.sells_1h + last_5m) % word_mod
  pub four_hours :
      of_side side p.b_4h p.s_4h ≡ (of_side side long.buys_4h long.sells_4h + last_5m) % word_mod
  pub day :
      of_side side p.b_24h p.s_24h
      ≡ (of_side side long.buys_24h long.sells_24h + last_5m) % word_mod

module _ {F : Type 0} (fl : Floats F) (side : Bool) where
  -- A long window adds what the short one counts.
  pub merged :
      (long tail : WindowSnapshot F) (n : ℕ)
      → tallied side tail % word_mod ≡ n % word_mod
      → tallied side (merge_window_snapshots fl long tail) ≡ (tallied side long + n) % word_mod
  unfolding merge_window_snapshots
  merged long tail n h = ground arith

  choose :
      (b : Bool) (x y : Option (TokenMetricsCurrentRecord F)) → b ≡ false → (if b then x else y) ≡ y
  choose b x y h = ground arith

  unfoldable pub current_at :
      String
      → TokenWindowState F
      → LongWindowMetricsRecord F
      → WindowSnapshot F
      → WindowSnapshot F
      → TokenMetricsCurrentRecord F
  current_at mint w long short_1m short_5m =
      current_of fl mint w short_1m short_5m
        (merge_window_snapshots fl (stored_1h fl long) short_5m)
        (merge_window_snapshots fl (stored_4h fl long) short_5m)
        (merge_window_snapshots fl (stored_24h fl long) short_5m)

  pub build_current_record-live :
      (mint : String) (w : TokenWindowState F) (long : LongWindowMetricsRecord F) (now : ℤ)
      → IsLive fl w
      → build_current_record fl mint w long now
        ≡ some (
            current_at mint w long
              (summarize_second_buckets fl w now (pos 60))
              (summarize_second_buckets fl w now (pos 300)))
  unfolding build_current_record current_at
  build_current_record-live mint w long now (l, l') =
      choose (fl.at_most_zero w.last_price || leb_ℤ w.last_unix_ts (pos 0)) none _ (ground arith)

  payload-Counts :
      (mint : String) (w : TokenWindowState F) (long : LongWindowMetricsRecord F)
      (short_1m short_5m : WindowSnapshot F) (n_1m n_5m : ℕ)
      → tallied side short_1m % word_mod ≡ n_1m % word_mod
      → tallied side short_5m % word_mod ≡ n_5m % word_mod
      → Counts side long n_1m n_5m (
          payload_of fl mint (current_at mint w long short_1m short_5m) w.last_price w.last_unix_ts)
  unfolding current_at current_of payload_of
  payload-Counts mint w long short_1m short_5m n_1m n_5m h_1m h_5m = record {
    minute = h_1m;
    five_minutes = h_5m;
    hour = merged (stored_1h fl long) short_5m n_5m h_5m;
    four_hours = merged (stored_4h fl long) short_5m n_5m h_5m;
    day = merged (stored_24h fl long) short_5m n_5m h_5m;
  }

  payload_of-current :
      (mint : String) (w : TokenWindowState F) (long : LongWindowMetricsRecord F)
      (a b : WindowSnapshot F)
      → build_payload_from_current_metrics fl mint (some (current_at mint w long a b))
        ≡ some (payload_of fl mint (current_at mint w long a b) w.last_price w.last_unix_ts)
  unfolding build_payload_from_current_metrics current_at current_of
  payload_of-current mint w long a b = refl

  published-live :
      (mint : String) (w : TokenWindowState F) (long : LongWindowMetricsRecord F) (now : ℤ)
      → IsLive fl w
      → published fl mint w long now
        ≡ some (
            payload_of fl mint
              (current_at mint w long
                (summarize_second_buckets fl w now (pos 60))
                (summarize_second_buckets fl w now (pos 300)))
              w.last_price
              w.last_unix_ts)
  unfolding published
  published-live mint w long now live =
      rw (build_current_record-live mint w long now live, published)
        (payload_of-current mint w long _ _)

  -- A token whose last trade has a positive time and a price that is not at most zero is published,
  -- with that price and time. If its trades each carry a price, lie in the past and come less than
  -- 300 seconds late, the published buys (or sells) of 1 and 5 minutes are the number of its buys (or
  -- sells) in the last 60 and 300 seconds, and those of 1, 4 and 24 hours are the stored ones and the
  -- number of the last 300 seconds together; all as int64.
  pub published-Counts :
      (mint : String) (xs : List (Trade F)) (long : LongWindowMetricsRecord F) (now : ℤ)
      → fl.is_zero fl.zero ≡ true
      → IsTime now
      → OnTime (pos 0) xs
      → AllFit fl now xs
      → IsLive fl (append_all fl (new_window fl) xs)
      → (p : TokenStatsPayload F) × (published fl mint (append_all fl (new_window fl) xs) long now
          ≡ some p)
        × (p.price ≡ (append_all fl (new_window fl) xs).last_price)
        × (p.timestamp ≡ (append_all fl (new_window fl) xs).last_unix_ts)
        × Counts side long
            (trades_between side (sub_int64 now (pos 60)) now xs)
            (trades_between side (sub_int64 now (pos 300)) now xs)
            p
  unfolding payload_of
  published-Counts mint xs long now z time on_time fits live =
      let w = append_all fl (new_window fl) xs in
      (
        _,
        published-live mint w long now live,
        refl,
        refl,
        payload-Counts mint w long _ _ _ _
            (summarize_second_buckets-counts fl side xs now 60 z time (omega arith) on_time fits)
            (summarize_second_buckets-counts fl side xs now 300 z time (omega arith) on_time fits),
      )
