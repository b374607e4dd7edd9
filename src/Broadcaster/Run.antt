-- ===== src/Broadcaster/Run.antt =====
-- The loop of Run in internal/broadcaster/stats.go, as the steps it makes on the map of windows: an
-- event of the hub is handled, or the ticker fires and the windows are swept. The subscription to the
-- hub and its renewal, which do not touch the windows, are left out.
use solana_dashboard.Common.{
  refl, ◌∙◌, String, Bool, not, ◌&&◌, Option, none, some, List, [], ◌∷◌, str_eq, eq_iff, Bool-cases,
  Option-cases, inl, inr, arith,
}
use solana_dashboard.Common.Int.{ℤ, pos, sub_int64}
use solana_dashboard.Result.{Result, Result-cases}
use solana_dashboard.Events.{Envelope, RawMessage}
use solana_dashboard.Events.Decoder.{Codec}
use solana_dashboard.Projector.Values.{is_empty}
use solana_dashboard.Store.Metrics.{LongWindowMetricsRecord}
use solana_dashboard.Broadcaster.Window.{Floats, TokenWindowState, Trade, new_window}
use solana_dashboard.Broadcaster.Current.{TokenStatsPayload}
use solana_dashboard.Broadcaster.Feed.{
  Decimals, Recent, Windows, find_window, set_window, get_window, ensure_window_seeded,
  record_trade, handle_pumpfun_trade, handle_pump_amm_trade, handle_trade, seed_and_record,
  is_pumpfun_trade_event, is_pump_amm_trade_event, payload_bytes,
}
use solana_dashboard.Broadcaster.Swap.{pump_amm_trade_metrics}
use solana_dashboard.Broadcaster.Feed.Own.{find-set}
use solana_dashboard.Broadcaster.Sweep.{
  MetricsStore, RefreshTarget, recent_of, sweep, refresh, refresh_all, remove_windows, seed_target,
}
use solana_dashboard.Broadcaster.Sweep.Kept.{IsMap, remove-IsMap}

module _ {F : Type 0} (fl : Floats F) where
  set-IsMap :
      (m : String) (w : TokenWindowState F) (ws : Windows F) → IsMap ws → IsMap (set_window m w ws)
  set-IsMap m w [] u = (refl, tt)
  set-IsMap m w ((key, old) ∷ ws) (fresh, u) = elim (Bool-cases (str_eq key m)) [
    | inl e ↦ rw e (fresh, u)
    | inr e ↦ rw e (
      find-set key m w ws ∙ ground (arith, fresh, e, eq_iff key m, eq_iff m key),
      set-IsMap m w ws u,
    )
  ]

  get-IsMap : (m : String) (ws : Windows F) → IsMap ws → IsMap (get_window fl m ws).1
  unfolding get_window
  get-IsMap m ws u = elim (Option-cases (find_window m ws)) [
    | inl e ↦ rw (e, get_window) (set-IsMap m (new_window fl) ws u)
    | inr (w, e) ↦ rw (e, get_window) u
  ]

  record_trade-IsMap :
      (m : String) (t : Trade F) (ws : Windows F) → IsMap ws → IsMap (record_trade fl m t ws)
  unfolding record_trade
  record_trade-IsMap m t ws u = elim (Bool-cases (is_empty m)) [
    | inl e ↦ rw e u
    | inr e ↦ rw e (set-IsMap m _ _ (get-IsMap m ws u))
  ]

  ensure-IsMap :
      (recent : Recent F) (m : String) (now : ℤ) (ws : Windows F)
      → IsMap ws
      → IsMap (ensure_window_seeded fl recent m now ws)
  unfolding ensure_window_seeded
  ensure-IsMap none m now ws u = u
  ensure-IsMap (some list) m now ws u = elim (Bool-cases (is_empty m)) [
    | inl e ↦ rw e u
    | inr e ↦ rw e (elim (Bool-cases (get_window fl m ws).0.seeded) [
      | inl s ↦ rw s (get-IsMap m ws u)
      | inr s ↦ rw s (elim (Result-cases (list m (sub_int64 now (pos 300)))) [
        | inl (metrics, g) ↦ rw g (set-IsMap m _ _ (get-IsMap m ws u))
        | inr (e', g) ↦ rw g (get-IsMap m ws u)
      ])
    ])
  ]

  seed_and_record-IsMap :
      (recent : Recent F) (m : String) (t : Trade F) (ws : Windows F)
      → IsMap ws
      → IsMap (seed_and_record fl recent m t ws)
  seed_and_record-IsMap recent m t ws u = record_trade-IsMap m t _ (ensure-IsMap recent m t.ts ws u)

  module _ (d : Decimals F) (codec : Codec) where
    handle_pumpfun_trade-IsMap :
        (recent : Recent F) (env : Envelope) (ws : Windows F)
        → IsMap ws
        → IsMap (handle_pumpfun_trade fl d codec recent env ws)
    unfolding handle_pumpfun_trade
    handle_pumpfun_trade-IsMap recent env ws u =
        elim (Result-cases (codec.unmarshal_trade (payload_bytes codec env))) [
          | inl (payload, p) ↦
              rw (p, handle_pumpfun_trade) (seed_and_record-IsMap recent payload.mint _ ws u)
          | inr (e, p) ↦ rw (p, handle_pumpfun_trade) u
        ]

    handle_pump_amm_trade-IsMap :
        (recent : Recent F) (env : Envelope) (ws : Windows F)
        → IsMap ws
        → IsMap (handle_pump_amm_trade fl d codec recent env ws)
    unfolding handle_pump_amm_trade
    handle_pump_amm_trade-IsMap recent env ws u =
        elim (Result-cases (codec.unmarshal_swap (payload_bytes codec env))) [
          | inr (e, p) ↦ rw (p, handle_pump_amm_trade) u
          | inl (payload, p) ↦
              rw (p, handle_pump_amm_trade)
                (elim (Option-cases (pump_amm_trade_metrics env payload)) [
                  | inl q ↦ rw q u
                  | inr (m, q) ↦
                      rw q
                        (elim (Bool-cases (
                          (d.parse_float m.quote_amount_raw).1
                          && (d.parse_float m.token_amount_raw).1)) [
                            | inr b ↦ rw b u
                            | inl b ↦ rw b (seed_and_record-IsMap recent m.mint _ ws u)
                          ])
                ])
        ]

    handle_trade-IsMap :
        (recent : Recent F) (env : Envelope) (ws : Windows F)
        → IsMap ws
        → IsMap (handle_trade fl d codec recent env ws)
    unfolding handle_trade
    handle_trade-IsMap recent env ws u = elim (Bool-cases (is_pumpfun_trade_event env)) [
      | inl e ↦ rw (e, handle_trade) (handle_pumpfun_trade-IsMap recent env ws u)
      | inr e ↦ elim (Bool-cases (is_pump_amm_trade_event env)) [
        | inl e' ↦ rw (e, e', handle_trade) (handle_pump_amm_trade-IsMap recent env ws u)
        | inr e' ↦ rw (e, e', handle_trade) u
      ]
    ]

  module _ (marshal : TokenStatsPayload F → Result RawMessage) (store : Option (MetricsStore F))
      (now : ℤ) where
    remove_windows-IsMap :
        (ms : List String) (ws : Windows F) → IsMap ws → IsMap (remove_windows ms ws)
    unfolding remove_windows
    remove_windows-IsMap [] ws u = u
    remove_windows-IsMap (m ∷ ms) ws u = remove_windows-IsMap ms _ (remove-IsMap m ws u)

    seed_target-IsMap :
        (t : RefreshTarget) (w : TokenWindowState F) (ws : Windows F)
        → IsMap ws
        → IsMap (seed_target fl marshal store now t w ws)
    unfolding seed_target
    seed_target-IsMap t w ws u = elim (Bool-cases (t.subscribed && not w.seeded)) [
      | inl e ↦ rw e (ensure-IsMap (recent_of store) t.mint now ws u)
      | inr e ↦ rw e u
    ]

    module _ (longs : String → LongWindowMetricsRecord F) where
      refresh-IsMap :
          (t : RefreshTarget) (ws : Windows F)
          → IsMap ws
          → IsMap (refresh fl marshal store now longs t ws).0
      unfolding refresh
      refresh-IsMap t ws u = elim (Option-cases (find_window t.mint ws)) [
        | inl e ↦ rw (e, refresh) u
        | inr (w, e) ↦
            rw (e, refresh)
              (elim (Option-cases (find_window t.mint (seed_target fl marshal store now t w ws))) [
                | inl g ↦ rw g (seed_target-IsMap t w ws u)
                | inr (v, g) ↦ rw g (set-IsMap t.mint _ _ (seed_target-IsMap t w ws u))
              ])
      ]

      refresh_all-IsMap :
          (ts : List RefreshTarget) (ws : Windows F)
          → IsMap ws
          → IsMap (refresh_all fl marshal store now longs ts ws).0
      unfolding refresh_all
      refresh_all-IsMap [] ws u = u
      refresh_all-IsMap (t ∷ ts) ws u = refresh_all-IsMap ts _ (refresh-IsMap t ws u)

    sweep-IsMap :
        (has_subscribers : String → Bool) (ws : Windows F)
        → IsMap ws
        → IsMap (sweep fl marshal store now has_subscribers ws).0
    unfolding sweep
    sweep-IsMap has_subscribers ws u = refresh_all-IsMap _ _ _ (remove_windows-IsMap _ ws u)

-- The windows that the loop can come to.
data Reached {F : Type 0} (fl : Floats F) (d : Decimals F) (codec : Codec)
    (marshal : TokenStatsPayload F → Result RawMessage) : Windows F → Type 0 where
  started : Reached fl d codec marshal []
  handled :
      (recent : Recent F) (env : Envelope) {ws : Windows F}
      → Reached fl d codec marshal ws
      → Reached fl d codec marshal (handle_trade fl d codec recent env ws)
  ticked :
      (store : Option (MetricsStore F)) (now : ℤ) (has_subscribers : String → Bool) {ws : Windows F}
      → Reached fl d codec marshal ws
      → Reached fl d codec marshal (sweep fl marshal store now has_subscribers ws).0

-- The association list stands for a map: no mint has two windows in any state that the loop can come
-- to.
Reached-IsMap :
    {F : Type 0} (fl : Floats F) (d : Decimals F) (codec : Codec)
    (marshal : TokenStatsPayload F → Result RawMessage) {ws : Windows F}
    → Reached fl d codec marshal ws
    → IsMap ws
Reached-IsMap fl d codec marshal started = tt
Reached-IsMap fl d codec marshal (handled recent env r) =
    handle_trade-IsMap fl d codec recent env _ (Reached-IsMap fl d codec marshal r)
Reached-IsMap fl d codec marshal (ticked store now has_subscribers r) =
    sweep-IsMap fl marshal store now has_subscribers _ (Reached-IsMap fl d codec marshal r)
