-- ===== src/Examples/Live.antt =====
-- A few trades of one token in its window, a swap, and an overflow in the hub.
use solana_dashboard.Common.{
  ℕ, ◌+◌, ◌%◌, ◌≡◌, refl, Bool, true, false, none, some, List, [], ◌∷◌, ◌==◌, arith,
}
use solana_dashboard.Common.Int.{pos, word_mod, sub_int64, IsTime}
use solana_dashboard.Store.Metrics.{LongWindowMetricsRecord}
use solana_dashboard.Broadcaster.Window.{
  Floats, Trade, append_all, append_second_bucket, new_window, summarize_second_buckets,
}
use solana_dashboard.Broadcaster.Window.Seconds.{OnTime, held, second_of, append_all-second_of}
use solana_dashboard.Broadcaster.Window.Counts.{
  AllFit, tallied, trades_between, summarize_second_buckets-counts,
}
use solana_dashboard.Broadcaster.Current.{TokenStatsPayload}
use solana_dashboard.Broadcaster.Current.Totals.{published, Counts, published-Counts}
use solana_dashboard.Broadcaster.Swap.{
  pump_amm_trade_metrics, metrics_of, pump_amm_trade_metrics-build_pump_amm_trade,
}
use solana_dashboard.Projector.PumpAmm.{build_pump_amm_trade}
use solana_dashboard.Realtime.Subscription.{new_subscription}
use solana_dashboard.Realtime.Topics.{find_topic, add_sub}
use solana_dashboard.Realtime.System.{
  System, sending, waiting, marking, Panics, Reach, here, step, new_system, subscribe, with_thread,
  update, subscribes, publishes, sends, sent_all, locks, send_one,
}
use solana_dashboard.Realtime.Safety.NoPanic.{new_system-safe}
use solana_dashboard.Examples.Replay.{swap, event}

-- Whole numbers in place of float64.
abbrev pub floats : Floats ℕ
floats = record { zero = 0; add = λ a b. a + b; is_zero = λ a. a == 0; at_most_zero = λ a. a == 0 }

abbrev trade : Bool → ℕ → ℕ → Trade ℕ
trade is_buy price ts = record {
  is_buy = is_buy;
  vol = 10;
  price = price;
  ts = pos ts;
  log_id = pos ts;
}

abbrev trades : List (Trade ℕ)
trades = trade true 5 100 ∷ trade false 6 130 ∷ trade true 7 130 ∷ []

trades-OnTime : OnTime (pos 0) trades
trades-OnTime = ground arith

trades-AllFit : AllFit floats (pos 170) trades
trades-AllFit = ground arith

pub now-IsTime : IsTime (pos 170)
now-IsTime = record { nonneg = refl; bounded = omega arith }

summarize_second_buckets-counts_example :
    tallied true (
        summarize_second_buckets floats
          (append_all floats (new_window floats) trades)
          (pos 170)
          (pos 60))
      % word_mod
    ≡ trades_between true (sub_int64 (pos 170) (pos 60)) (pos 170) trades % word_mod
summarize_second_buckets-counts_example =
    summarize_second_buckets-counts floats true trades (pos 170) 60 refl now-IsTime (omega arith)
      trades-OnTime trades-AllFit

append_all-second_of_example :
    held floats (append_all floats (new_window floats) trades) (pos 130)
    ≡ second_of floats (pos 130) none trades
append_all-second_of_example =
    append_all-second_of floats trades (pos 130) trades-OnTime (omega arith) (omega arith)

abbrev pub long : LongWindowMetricsRecord ℕ
long = record {
  mint = "mint";
  anchor_price_1h = some 4;
  anchor_price_4h = some 4;
  anchor_price_24h = none;
  txns_1h = 3;
  txns_4h = 3;
  txns_24h = 3;
  buys_1h = 2;
  buys_4h = 2;
  buys_24h = 2;
  sells_1h = 1;
  sells_4h = 1;
  sells_24h = 1;
  volume_1h = 0;
  volume_4h = 0;
  volume_24h = 0;
  buy_volume_1h = 0;
  buy_volume_4h = 0;
  buy_volume_24h = 0;
  sell_volume_1h = 0;
  sell_volume_4h = 0;
  sell_volume_24h = 0;
}

published-Counts_example :
    (p : TokenStatsPayload ℕ) × (published floats "mint"
        (append_all floats (new_window floats) trades)
        long
        (pos 170)
      ≡ some p)
    × (p.price ≡ (append_all floats (new_window floats) trades).last_price)
    × (p.timestamp ≡ (append_all floats (new_window floats) trades).last_unix_ts)
    × Counts false long
        (trades_between false (sub_int64 (pos 170) (pos 60)) (pos 170) trades)
        (trades_between false (sub_int64 (pos 170) (pos 300)) (pos 170) trades)
        p
unfolding append_all append_second_bucket
published-Counts_example =
    published-Counts floats false "mint" trades long (pos 170) refl now-IsTime trades-OnTime
      trades-AllFit (refl, refl)

pump_amm_trade_metrics-build_pump_amm_trade_example :
    pump_amm_trade_metrics (event "swap" "a") swap
    ≡ metrics_of (build_pump_amm_trade (event "swap" "a") swap)
pump_amm_trade_metrics-build_pump_amm_trade_example =
    pump_amm_trade_metrics-build_pump_amm_trade (event "swap" "a") swap

-- A subscription without a buffer overflows at the first event.
abbrev subscribed : System ℕ
subscribed = record (new_system {E = ℕ}) { hub = subscribe "t" 0 (new_system {E = ℕ}).hub }

abbrev publishing : System ℕ
publishing = with_thread subscribed 0 (sending "t" 7 (0 ∷ []) [])

abbrev overflown : System ℕ
overflown = record {
  hub = publishing.hub;
  threads = update publishing.threads 0 (sending "t" 7 [] (0 ∷ []));
}

abbrev ready : System ℕ
ready = with_thread overflown 0 (waiting "t" (0 ∷ []))

abbrev about_to_mark : System ℕ
about_to_mark = with_thread ready 0 (marking "t" (0 ∷ []))

reached : Reach new_system about_to_mark
unfolding new_system subscribe new_subscription add_sub find_topic send_one
reached =
    step
      (step
        (step
          (step (step here (subscribes "t" 0 (λ i. (refl, refl))))
            (publishes 0 "t" 7 (0 ∷ []) refl (λ i. refl) refl))
          (sends 0 "t" 7 0 [] [] (0 ∷ []) refl refl))
        (sent_all 0 "t" 7 (0 ∷ []) refl))
      (locks 0 "t" (0 ∷ []) refl (λ i. (ground arith, ground arith)))

new_system-safe_example : ¬ Panics about_to_mark
new_system-safe_example = new_system-safe reached
