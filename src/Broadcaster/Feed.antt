-- ===== src/Broadcaster/Feed.antt =====
-- The map of windows of internal/broadcaster/stats.go, and what a trade event does to it: getWindow,
-- removeWindow, windowCount, handleTrade with its two handlers, ensureWindowSeeded and recordTrade.
-- The map is an association list. The calls of one goroutine, Run's, are modelled; the read lock and
-- the second look of getWindow find the same window then. Counters and logging are left out.
pub mod Own
pub mod History
use solana_dashboard.Common.{
  ℕ, zero, suc, String, Bool, true, false, ◌&&◌, ◌||◌, Option, none, some, List, [], ◌∷◌, str_eq,
  if◌then◌else◌, length, map, ◌==◌,
}
use solana_dashboard.Common.Int.{ℤ, pos, sub_int64}
use solana_dashboard.Result.{Result, ok, err}
use solana_dashboard.Events.{Envelope, RawMessage, PumpfunTradePayload, PumpAmmSwapPayload}
use solana_dashboard.Events.Decoder.{Codec, is_event}
use solana_dashboard.Projector.Values.{is_empty}
use solana_dashboard.Broadcaster.Window.{
  Floats, TokenWindowState, Trade, new_window, append_second_bucket, append_all,
}
use solana_dashboard.Broadcaster.Swap.{TradeMetrics, pump_amm_trade_metrics}

-- strconv.ParseFloat, with its value and its error, and the rest of float64 that a price needs.
pub record Decimals (F : Type 0) : Type 0 where
  pub parse_float : String → F × Bool
  pub is_positive : F → Bool
  pub div : F → F → F
  pub mul : F → F → F
  pub one : F
  pub ten : F
  pub million : F
  pub billion : F

-- TradeMetricPoint of the store
pub record TradeMetricPoint (F : Type 0) : Type 0 where
  pub event_unix_ts : ℤ
  pub slot : ℤ
  pub insert_seq : ℤ
  pub side : String
  pub price : F
  pub volume : F

-- What the store answers while an event is handled: ListRecentTradeMetricsByMint at a mint and a
-- time. No store at all is none.
abbrev pub Recent : Type 0 → Type 0
Recent F = Option (String → ℤ → Result (List (TradeMetricPoint F)))

abbrev pub Windows : Type 0 → Type 0
Windows F = List (String × TokenWindowState F)

abbrev pub find_window : {F : Type 0} → String → Windows F → Option (TokenWindowState F)
find_window mint [] = none
find_window mint ((key, window) ∷ ws) = if str_eq key mint then some window else find_window mint ws

-- A write through the pointer that the map holds for a mint, or a new entry.
abbrev pub set_window : {F : Type 0} → String → TokenWindowState F → Windows F → Windows F
set_window mint window [] = (mint, window) ∷ []
set_window mint window ((key, old) ∷ ws) =
    let rest = set_window mint window ws in
    if str_eq key mint then (key, window) ∷ ws else (key, old) ∷ rest

-- removeWindow
abbrev pub remove_window : {F : Type 0} → String → Windows F → Windows F
remove_window mint [] = []
remove_window mint ((key, window) ∷ ws) =
    let rest = remove_window mint ws in if str_eq key mint then ws else (key, window) ∷ rest

-- windowCount
abbrev pub window_count : {F : Type 0} → Windows F → ℕ
window_count ws = length ws

-- isPumpfunTradeEvent
unfoldable pub is_pumpfun_trade_event : Envelope → Bool
is_pumpfun_trade_event env = is_event env "pumpfun" "trade" || str_eq env.event_type "pumpfun.trade"

-- isPumpAmmTradeEvent
unfoldable pub is_pump_amm_trade_event : Envelope → Bool
is_pump_amm_trade_event env = is_event env "pumpamm" "swap"

-- `bytes, _ := json.Marshal(env.Payload)`: no bytes on an error.
abbrev pub payload_bytes : Codec → Envelope → RawMessage
payload_bytes codec env = elim (codec.marshal env.payload) [ err e ↦ [] | ok bytes ↦ bytes ]

module _ {F : Type 0} (d : Decimals F) where
  -- mathPow10, with `n` rounds left
  abbrev pow_10 : ℕ → F → F
  pow_10 zero result = result
  pow_10 (suc n) result = pow_10 n (d.mul result d.ten)

  unfoldable pub math_pow_10 : ℕ → F
  math_pow_10 decimals = pow_10 decimals d.one

  -- scaleAmount
  unfoldable pub scale_amount : F → ℕ → F
  scale_amount value decimals =
      if decimals == 9
      then d.div value d.billion
      else if decimals == 6
      then d.div value d.million
      else d.div value (math_pow_10 decimals)

module _ {F : Type 0} (fl : Floats F) where
  -- getWindow: the window, and the map that holds it.
  unfoldable pub get_window : String → Windows F → TokenWindowState F × Windows F
  get_window mint ws = elim (find_window mint ws) [
    | some window ↦ (window, ws)
    | none ↦ (new_window fl, set_window mint (new_window fl) ws)
  ]

  -- The loop that seeds a window with stored trades.
  abbrev pub stored_trade : TradeMetricPoint F → Trade F
  stored_trade metric = record {
    is_buy = str_eq metric.side "buy";
    vol = metric.volume;
    price = metric.price;
    ts = metric.event_unix_ts;
    log_id = pos 0;
  }

  abbrev pub seed_window : TokenWindowState F → List (TradeMetricPoint F) → TokenWindowState F
  seed_window window metrics = record (append_all fl window (map stored_trade metrics)) {
    seeded = true;
  }

  -- ensureWindowSeeded
  unfoldable pub ensure_window_seeded : Recent F → String → ℤ → Windows F → Windows F
  ensure_window_seeded none mint now_ts ws = ws
  ensure_window_seeded (some list_recent) mint now_ts ws =
      if is_empty mint
      then ws
      else let (window, held) = get_window mint ws in
        if window.seeded then held else elim (list_recent mint (sub_int64 now_ts (pos 300))) [
          | err e ↦ held
          | ok metrics ↦ set_window mint (seed_window window metrics) held
        ]

  -- recordTrade
  unfoldable pub record_trade : String → Trade F → Windows F → Windows F
  record_trade mint trade ws =
      if is_empty mint
      then ws
      else let (window, held) = get_window mint ws in
        set_window mint (append_second_bucket fl window trade) held

  abbrev pub seed_and_record : Recent F → String → Trade F → Windows F → Windows F
  seed_and_record recent mint trade ws =
      record_trade mint trade (ensure_window_seeded recent mint trade.ts ws)

module _ {F : Type 0} (fl : Floats F) (d : Decimals F) (codec : Codec) where
  -- The volume and the price of a trade: lamports of SOL, and a token of 6 decimals.
  abbrev pub volume_of : F → F
  volume_of amount = scale_amount d amount 9

  abbrev pub price_of : F → F → F
  price_of vol token_amount =
      let quantity = scale_amount d token_amount 6 in
      if d.is_positive quantity then d.div vol quantity else fl.zero

  abbrev pub trade_at : Envelope → Bool → F → F → Trade F
  trade_at env is_buy quote token = record {
    is_buy = is_buy;
    vol = volume_of quote;
    price = price_of (volume_of quote) token;
    ts = env.event_unix_ts;
    log_id = env.log_id;
  }

  -- handlePumpfunTrade, which takes the value of ParseFloat whatever its error.
  unfoldable pub handle_pumpfun_trade : Recent F → Envelope → Windows F → Windows F
  handle_pumpfun_trade recent env ws = elim (codec.unmarshal_trade (payload_bytes codec env)) [
    | err e ↦ ws
    | ok payload ↦
        let (sol, sol_ok) = d.parse_float payload.sol_amount in
        let (token, token_ok) = d.parse_float payload.token_amount in
        seed_and_record fl recent payload.mint (trade_at env (str_eq payload.side "buy") sol token)
          ws
  ]

  -- handlePumpAmmTrade, which gives up on such an error.
  unfoldable pub handle_pump_amm_trade : Recent F → Envelope → Windows F → Windows F
  handle_pump_amm_trade recent env ws = elim (codec.unmarshal_swap (payload_bytes codec env)) [
    | err e ↦ ws
    | ok payload ↦ elim (pump_amm_trade_metrics env payload) [
      | none ↦ ws
      | some m ↦
          let (quote, quote_ok) = d.parse_float m.quote_amount_raw in
          let (token, token_ok) = d.parse_float m.token_amount_raw in
          if quote_ok && token_ok
          then seed_and_record fl recent m.mint (trade_at env m.is_buy quote token) ws
          else ws
    ]
  ]

  -- handleTrade
  unfoldable pub handle_trade : Recent F → Envelope → Windows F → Windows F
  handle_trade recent env ws =
      if is_pumpfun_trade_event env
      then handle_pumpfun_trade recent env ws
      else if is_pump_amm_trade_event env
      then handle_pump_amm_trade recent env ws
      else ws

  -- The events in the order in which Run takes them, each with the store's answers at that time.
  unfoldable pub handle_trades : List (Recent F × Envelope) → Windows F → Windows F
  handle_trades [] ws = ws
  handle_trades ((recent, env) ∷ rest) ws = handle_trades rest (handle_trade recent env ws)
