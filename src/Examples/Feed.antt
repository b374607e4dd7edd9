-- ===== src/Examples/Feed.antt =====
-- A stored trade and two swaps of one token, taken in by the broadcaster, and a sweep.
use solana_dashboard.Common.{
  ℕ, ◌*◌, ◌/◌, ◌≡◌, refl, String, Bool, true, false, Option, none, some, List, [], ◌∷◌, str_eq,
  if◌then◌else◌, ltb, arith,
}
use solana_dashboard.Common.Int.{pos, sub_int64, IsTime}
use solana_dashboard.Result.{Result, ok}
use solana_dashboard.Events.{Envelope, RawMessage}
use solana_dashboard.Broadcaster.Window.{
  TokenWindowState, Trade, append_all, append_second_bucket, new_window,
}
use solana_dashboard.Broadcaster.Window.Counts.{AllFit, trades_between}
use solana_dashboard.Broadcaster.Window.Seconds.{OnTime}
use solana_dashboard.Broadcaster.Current.{TokenStatsPayload}
use solana_dashboard.Broadcaster.Current.Totals.{published, Counts, IsLive}
use solana_dashboard.Broadcaster.Swap.{pump_amm_trade_metrics, stats_mint, amount_text}
use solana_dashboard.Broadcaster.Feed.{
  Decimals, Recent, TradeMetricPoint, Windows, find_window, handle_trades, is_pumpfun_trade_event,
  is_pump_amm_trade_event, scale_amount,
}
use solana_dashboard.Broadcaster.Feed.Own.{own_window, trade_of, handle_trades-own_window}
use solana_dashboard.Broadcaster.Feed.History.{history, handle_trades-Counts}
use solana_dashboard.Broadcaster.Sweep.{MetricsStore, sweep}
use solana_dashboard.Broadcaster.Sweep.Rule.{fate, sweep-fate}
use solana_dashboard.Broadcaster.Sweep.Sent.{
  AllTimed, longs_at, stored_records, announced, sweep-announced,
}
use solana_dashboard.Examples.Replay.{codec, event}
use solana_dashboard.Examples.Live.{floats, now-IsTime, long}

-- Amounts as whole numbers: a token amount of 100 and 700 of the quote.
abbrev decimals : Decimals ℕ
decimals = record {
  parse_float = λ s. (if str_eq s "100" then 100 else 700, true);
  is_positive = λ a. ltb 0 a;
  div = λ a b. a / b;
  mul = λ a b. a * b;
  one = 1;
  ten = 10;
  million = 1;
  billion = 1;
}

abbrev stored_point : TradeMetricPoint ℕ
stored_point = record {
  event_unix_ts = pos 90;
  slot = pos 1;
  insert_seq = pos 1;
  side = "buy";
  price = 5;
  volume = 10;
}

abbrev recent : Recent ℕ
recent = some (λ mint since. ok (stored_point ∷ []))

abbrev events : List (Recent ℕ × Envelope)
events = (recent, event "swap" "a") ∷ (recent, event "swap" "b") ∷ []

handle_trades-own_window_example :
    find_window "mint" (handle_trades floats decimals codec events [])
    ≡ own_window floats decimals codec "mint" events none
handle_trades-own_window_example = handle_trades-own_window floats decimals codec events [] "mint"

abbrev swap_trade : Trade ℕ
swap_trade = record { is_buy = false; vol = 700; price = 7; ts = pos 100; log_id = pos 0 }

abbrev stored_trade : Trade ℕ
stored_trade = record { is_buy = true; vol = 10; price = 5; ts = pos 90; log_id = pos 0 }

history_lem :
    history floats decimals codec "mint" events ≡ stored_trade ∷ swap_trade ∷ swap_trade ∷ []
unfolding trade_of is_pumpfun_trade_event is_pump_amm_trade_event pump_amm_trade_metrics stats_mint
    amount_text scale_amount
history_lem = refl

on_time : OnTime (pos 0) (history floats decimals codec "mint" events)
on_time = rw history_lem (ground arith)

fits : AllFit floats (pos 170) (history floats decimals codec "mint" events)
fits = rw history_lem (ground arith)

live :
    IsLive floats
      (append_all floats (new_window floats) (history floats decimals codec "mint" events))
unfolding append_all append_second_bucket
live = rw history_lem (refl, refl)

handle_trades-Counts_example :
    (w : TokenWindowState ℕ) × (p : TokenStatsPayload ℕ) × (find_window "mint"
        (handle_trades floats decimals codec events [])
      ≡ some w)
    × (published floats "mint" w long (pos 170) ≡ some p)
    × Counts true long
        (trades_between true
          (sub_int64 (pos 170) (pos 60))
          (pos 170)
          (history floats decimals codec "mint" events))
        (trades_between true
          (sub_int64 (pos 170) (pos 300))
          (pos 170)
          (history floats decimals codec "mint" events))
        p
handle_trades-Counts_example =
    handle_trades-Counts floats decimals codec true events "mint" long (pos 170) refl now-IsTime
      on_time fits live

abbrev marshal : TokenStatsPayload ℕ → Result RawMessage
marshal payload = ok (123 ∷ 125 ∷ [])

abbrev store : Option (MetricsStore ℕ)
store = some (record {
  list_recent_trade_metrics_by_mint = λ mint since. ok (stored_point ∷ []);
  list_long_window_metrics_by_mints = λ mints now. ok (λ mint. some long);
})

abbrev traded_at : ℕ → TokenWindowState ℕ
traded_at last = record (new_window floats) {
  last_price = 7;
  last_unix_ts = pos last;
  last_active_ts = pos last;
}

-- A token that is subscribed, one that is active, one that is cold, and one that was swept in the same
-- minute.
abbrev windows : Windows ℕ
windows =
    ("mint", traded_at 100)
    ∷ ("active", traded_at 99990)
    ∷ ("cold", traded_at 200)
    ∷ ("quiet", record (traded_at 99000) { last_persisted_minute = pos 99960 })
    ∷ []

abbrev is_subscribed : String → Bool
is_subscribed mint = str_eq mint "mint"

abbrev kept_windows : Windows ℕ
kept_windows = (sweep floats marshal store (pos 100000) is_subscribed windows).0

windows-AllTimed : AllTimed floats marshal store 100000 is_subscribed windows
windows-AllTimed = ground arith

timed : (w : TokenWindowState ℕ) → find_window "cold" windows ≡ some w → IsTime w.last_active_ts
timed w h = ground (arith, h)

sweep-fate_example :
    find_window "cold" kept_windows
    ≡ fate floats marshal store 100000 is_subscribed "cold" (find_window "cold" windows)
sweep-fate_example =
    sweep-fate floats marshal store 100000 is_subscribed windows "cold" (omega arith)
      (refl, (refl, (refl, (refl, tt)))) timed

sweep-announced_example :
    let sent = (sweep floats marshal store (pos 100000) is_subscribed windows).1 in
    let longs = longs_at floats marshal store 100000 is_subscribed windows in
    (sent.records ≡ stored_records floats marshal store 100000 is_subscribed longs windows)
    × (sent.publish_queue ≡ announced floats marshal store 100000 is_subscribed longs windows)
sweep-announced_example =
    sweep-announced floats marshal store 100000 is_subscribed windows (omega arith)
      (refl, (refl, (refl, (refl, tt)))) windows-AllTimed
