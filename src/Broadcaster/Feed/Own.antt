-- ===== src/Broadcaster/Feed/Own.antt =====
-- What each trade event does to each window of internal/broadcaster/stats.go.
use solana_dashboard.Common.{
  ◌≡◌, refl, sym, ap, ◌∙◌, String, true, false, ◌&&◌, Option, none, some, List, [], ◌∷◌, str_eq,
  if◌then◌else◌, eq_iff, eq_refl, Bool-cases, Option-cases, inl, inr, arith,
}
use solana_dashboard.Common.Int.{ℤ, pos, sub_int64}
use solana_dashboard.Result.{ok, err, Result-cases}
use solana_dashboard.Events.{Envelope}
use solana_dashboard.Events.Decoder.{Codec}
use solana_dashboard.Projector.Values.{is_empty}
use solana_dashboard.Broadcaster.Window.{
  Floats, TokenWindowState, Trade, new_window, append_second_bucket,
}
use solana_dashboard.Broadcaster.Swap.{TradeMetrics, pump_amm_trade_metrics}
use solana_dashboard.Broadcaster.Feed.{
  Decimals, Recent, Windows, find_window, set_window, get_window, seed_window, ensure_window_seeded,
  record_trade, seed_and_record, trade_at, payload_bytes, is_pumpfun_trade_event,
  is_pump_amm_trade_event, handle_pumpfun_trade, handle_pump_amm_trade, handle_trade, handle_trades,
}

module _ {F : Type 0} where
  pub find-set :
      (k m : String) (w : TokenWindowState F) (ws : Windows F)
      → find_window k (set_window m w ws) ≡ (if str_eq m k then some w else find_window k ws)
  find-set k m w [] = refl
  find-set k m w ((key, old) ∷ ws) =
      ground (arith, eq_iff key m, eq_iff key k, eq_iff m k, find-set k m w ws)

abbrev pub or_new : {F : Type 0} → Floats F → Option (TokenWindowState F) → TokenWindowState F
or_new fl none = new_window fl
or_new fl (some w) = w

-- An update of one key, seen from a key.
abbrev seen_at {ℓ} : {A : Type ℓ} → String → String → A → A → A
seen_at m k new old = if str_eq m k then new else old

module _ {F : Type 0} (fl : Floats F) where
  get_window-window :
      (m : String) (ws : Windows F) → (get_window fl m ws).0 ≡ or_new fl (find_window m ws)
  unfolding get_window
  get_window-window m ws = elim (Option-cases (find_window m ws)) [
    | inl e ↦ rw (e, get_window)
    | inr (w, e) ↦ rw (e, get_window)
  ]

  pub same_window :
      (m k : String) (w : TokenWindowState F) (ws : Windows F)
      → find_window m ws ≡ some w
      → find_window k ws ≡ (if str_eq m k then some w else find_window k ws)
  same_window m k w ws e = elim (Bool-cases (str_eq m k)) [
    | inl h ↦ rw (h, sym ((eq_iff m k).0 h)) e
    | inr h ↦ rw h refl
  ]

  find-get_window :
      (m k : String) (ws : Windows F)
      → find_window k (get_window fl m ws).1
        ≡ (if str_eq m k then some (or_new fl (find_window m ws)) else find_window k ws)
  unfolding get_window
  find-get_window m k ws = elim (Option-cases (find_window m ws)) [
    | inl e ↦ rw (e, get_window) (find-set k m (new_window fl) ws)
    | inr (w, e) ↦ rw (e, get_window) (same_window m k w ws e)
  ]

  -- A window after the store has been asked.
  unfoldable pub seeded_by : Recent F → String → ℤ → TokenWindowState F → TokenWindowState F
  seeded_by none mint now_ts w = w
  seeded_by (some list_recent) mint now_ts w =
      if w.seeded then w else elim (list_recent mint (sub_int64 now_ts (pos 300))) [
        | err e ↦ w
        | ok metrics ↦ seed_window fl w metrics
      ]

  -- The write of a window after getWindow.
  find-set-get :
      (m k : String) (w : TokenWindowState F) (ws : Windows F)
      → find_window k (set_window m w (get_window fl m ws).1)
        ≡ (if str_eq m k then some w else find_window k ws)
  find-set-get m k w ws =
      ground (arith, find-set k m w (get_window fl m ws).1, find-get_window m k ws)

  find-record_trade :
      (m k : String) (t : Trade F) (ws : Windows F)
      → is_empty m ≡ false
      → find_window k (record_trade fl m t ws) ≡ (
          if str_eq m k
          then some (append_second_bucket fl (or_new fl (find_window m ws)) t)
          else find_window k ws)
  unfolding record_trade
  find-record_trade m k t ws h =
      rw (h, get_window-window m ws)
        (find-set-get m k (append_second_bucket fl (or_new fl (find_window m ws)) t) ws)

  -- The window that a mint has after the store has been asked: `before` if nothing came of it.
  find-ensure :
      (recent : Recent F) (m k : String) (now : ℤ) (ws : Windows F)
      → is_empty m ≡ false
      → or_new fl (find_window m (ensure_window_seeded fl recent m now ws))
        ≡ seeded_by recent m now (or_new fl (find_window m ws))
  unfolding ensure_window_seeded seeded_by
  find-ensure none m k now ws h = refl
  find-ensure (some list_recent) m k now ws h =
      rw (h, get_window-window m ws)
        (elim (Bool-cases (or_new fl (find_window m ws)).seeded) [
          | inl e ↦ rw (e, find-get_window m m ws, eq_refl m)
          | inr e ↦ rw e (elim (Result-cases (list_recent m (sub_int64 now (pos 300)))) [
            | inl (metrics, g) ↦ rw (
              g,
              find-set-get m m (seed_window fl (get_window fl m ws).0 metrics) ws,
              eq_refl m,
              get_window-window m ws,
            )
            | inr (e', g) ↦ rw (g, find-get_window m m ws, eq_refl m)
          ])
        ])

  find-ensure-other :
      (recent : Recent F) (m k : String) (now : ℤ) (ws : Windows F)
      → str_eq m k ≡ false
      → find_window k (ensure_window_seeded fl recent m now ws) ≡ find_window k ws
  unfolding ensure_window_seeded
  find-ensure-other none m k now ws h = refl
  find-ensure-other (some list_recent) m k now ws h =
      elim (Result-cases (list_recent m (sub_int64 now (pos 300)))) [
        | inl (metrics, g) ↦ ground (
          arith,
          g,
          h,
          find-get_window m k ws,
          find-set-get m k (seed_window fl (get_window fl m ws).0 metrics) ws,
        )
        | inr (e, g) ↦ ground (arith, g, h, find-get_window m k ws)
      ]

  -- A trade of m changes the window of m, and no other.
  find-seed_and_record :
      (recent : Recent F) (m k : String) (t : Trade F) (ws : Windows F)
      → is_empty m ≡ false
      → find_window k (seed_and_record fl recent m t ws) ≡ (
          if str_eq m k
          then some
              (append_second_bucket fl (seeded_by recent m t.ts (or_new fl (find_window m ws))) t)
          else find_window k ws)
  find-seed_and_record recent m k t ws h = elim (Bool-cases (str_eq m k)) [
    | inl e ↦
        find-record_trade m k t (ensure_window_seeded fl recent m t.ts ws) h
        ∙ rw (e, find-ensure recent m k t.ts ws h) refl
    | inr e ↦
        find-record_trade m k t (ensure_window_seeded fl recent m t.ts ws) h
        ∙ rw (e, find-ensure-other recent m k t.ts ws e) refl
  ]

module _ {F : Type 0} (fl : Floats F) (d : Decimals F) (codec : Codec) where
  abbrev named : String → Trade F → Option (String × Trade F)
  named mint trade = if is_empty mint then none else some (mint, trade)

  abbrev pumpfun_trade : Envelope → Option (String × Trade F)
  pumpfun_trade env = elim (codec.unmarshal_trade (payload_bytes codec env)) [
    | err e ↦ none
    | ok payload ↦ named payload.mint (
        trade_at fl d codec env (str_eq payload.side "buy") (d.parse_float payload.sol_amount).0
          (d.parse_float payload.token_amount).0)
  ]

  abbrev parsed_swap : Envelope → Option TradeMetrics → Option (String × Trade F)
  parsed_swap env none = none
  parsed_swap env (some m) =
      let (quote, quote_ok) = d.parse_float m.quote_amount_raw in
      let (token, token_ok) = d.parse_float m.token_amount_raw in
      if quote_ok && token_ok
      then named m.mint (trade_at fl d codec env m.is_buy quote token)
      else none

  abbrev pump_amm_trade : Envelope → Option (String × Trade F)
  pump_amm_trade env = elim (codec.unmarshal_swap (payload_bytes codec env)) [
    | err e ↦ none
    | ok payload ↦ parsed_swap env (pump_amm_trade_metrics env payload)
  ]

  -- The trade that an event is, with its mint, if it is one.
  unfoldable pub trade_of : Envelope → Option (String × Trade F)
  trade_of env =
      if is_pumpfun_trade_event env
      then pumpfun_trade env
      else if is_pump_amm_trade_event env
      then pump_amm_trade env
      else none

  -- The specification: the window of one mint, by the trades of that mint alone.
  abbrev counted : Recent F → String → Trade F → Option (TokenWindowState F) → TokenWindowState F
  counted recent mint trade window =
      append_second_bucket fl (seeded_by fl recent mint trade.ts (or_new fl window)) trade

  abbrev pub after_trade :
      Recent F
      → String
      → Option (String × Trade F)
      → Option (TokenWindowState F)
      → Option (TokenWindowState F)
  after_trade recent mint none window = window
  after_trade recent mint (some (m, trade)) window =
      if str_eq m mint then some (counted recent m trade window) else window

  no_mint :
      (recent : Recent F) (m : String) (t : Trade F) (ws : Windows F)
      → is_empty m ≡ true
      → seed_and_record fl recent m t ws ≡ ws
  unfolding record_trade ensure_window_seeded
  no_mint none m t ws e = rw e
  no_mint (some r) m t ws e = rw e

  named_lem :
      (recent : Recent F) (k m : String) (t : Trade F) (ws : Windows F)
      → find_window k (seed_and_record fl recent m t ws)
        ≡ after_trade recent k (named m t) (find_window k ws)
  named_lem recent k m t ws = elim (Bool-cases (is_empty m)) [
    | inl e ↦ rw (e, no_mint recent m t ws e) refl
    | inr e ↦
        find-seed_and_record fl recent m k t ws e
        ∙ elim (Bool-cases (str_eq m k)) [ inl h ↦ rw (e, h, (eq_iff m k).0 h) | inr h ↦ rw (e, h) ]
  ]

  pumpfun_lem :
      (recent : Recent F) (env : Envelope) (k : String) (ws : Windows F)
      → find_window k (handle_pumpfun_trade fl d codec recent env ws)
        ≡ after_trade recent k (pumpfun_trade env) (find_window k ws)
  unfolding handle_pumpfun_trade
  pumpfun_lem recent env k ws =
      elim (Result-cases (codec.unmarshal_trade (payload_bytes codec env))) [
        | inr (e, p) ↦ rw (p, handle_pumpfun_trade, pumpfun_trade)
        | inl (payload, p) ↦
            rw (p, handle_pumpfun_trade, pumpfun_trade) (named_lem recent k payload.mint _ ws)
      ]

  swap_lem :
      (recent : Recent F) (env : Envelope) (k : String) (ws : Windows F)
      → find_window k (handle_pump_amm_trade fl d codec recent env ws)
        ≡ after_trade recent k (pump_amm_trade env) (find_window k ws)
  unfolding handle_pump_amm_trade
  swap_lem recent env k ws = elim (Result-cases (codec.unmarshal_swap (payload_bytes codec env))) [
    | inr (e, p) ↦ rw (p, handle_pump_amm_trade, pump_amm_trade)
    | inl (payload, p) ↦
        rw (p, handle_pump_amm_trade, pump_amm_trade)
          (elim (Option-cases (pump_amm_trade_metrics env payload)) [
            | inl q ↦ rw q
            | inr (m, q) ↦
                rw q
                  (elim (Bool-cases (
                    (d.parse_float m.quote_amount_raw).1 && (d.parse_float m.token_amount_raw).1)) [
                      | inr b ↦ rw b
                      | inl b ↦ rw b (named_lem recent k m.mint _ ws)
                    ])
          ])
  ]

  handle_trade-after_trade :
      (recent : Recent F) (env : Envelope) (k : String) (ws : Windows F)
      → find_window k (handle_trade fl d codec recent env ws)
        ≡ after_trade recent k (trade_of env) (find_window k ws)
  unfolding handle_trade trade_of
  handle_trade-after_trade recent env k ws = elim (Bool-cases (is_pumpfun_trade_event env)) [
    | inl e ↦ rw (e, handle_trade) (pumpfun_lem recent env k ws)
    | inr e ↦ elim (Bool-cases (is_pump_amm_trade_event env)) [
      | inl e' ↦ rw (e, e', handle_trade) (swap_lem recent env k ws)
      | inr e' ↦ rw (e, e', handle_trade) refl
    ]
  ]

  unfoldable pub own_window :
      String
      → List (Recent F × Envelope)
      → Option (TokenWindowState F)
      → Option (TokenWindowState F)
  own_window mint [] window = window
  own_window mint ((recent, env) ∷ rest) window =
      own_window mint rest (after_trade recent mint (trade_of env) window)

  -- The window of a mint after any events is what the trades of that mint alone make of the window it
  -- had: each asks the store while the window is not seeded, and is then added. No other event, and
  -- no trade of another mint, changes it.
  pub handle_trades-own_window :
      (es : List (Recent F × Envelope)) (ws : Windows F) (mint : String)
      → find_window mint (handle_trades fl d codec es ws) ≡ own_window mint es (find_window mint ws)
  unfolding handle_trades own_window
  handle_trades-own_window [] ws mint = refl
  handle_trades-own_window ((recent, env) ∷ rest) ws mint =
      handle_trades-own_window rest (handle_trade fl d codec recent env ws) mint
      ∙ ap (own_window mint rest) (handle_trade-after_trade recent env mint ws)
