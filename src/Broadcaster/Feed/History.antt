-- ===== src/Broadcaster/Feed/History.antt =====
-- The trades that a window of internal/broadcaster/stats.go has taken in, and the numbers published
-- from them.
use solana_dashboard.Common.{
  ◌≡◌, refl, ap, ◌∙◌, String, Bool, true, false, Option, none, some, List, [], ◌∷◌, ◌++◌, str_eq,
  if◌then◌else◌, Bool-cases, inl, inr, arith, map,
}
use solana_dashboard.Common.Int.{ℤ, pos, leb_ℤ, sub_int64, IsTime}
use solana_dashboard.Result.{Result, ok, err, Result-cases}
use solana_dashboard.Store.Metrics.{LongWindowMetricsRecord}
use solana_dashboard.Events.{Envelope}
use solana_dashboard.Events.Decoder.{Codec}
use solana_dashboard.Broadcaster.Window.{
  Floats, TokenWindowState, Trade, new_window, append_second_bucket, append_all,
  summarize_second_buckets,
}
use solana_dashboard.Broadcaster.Window.Seconds.{OnTime}
use solana_dashboard.Broadcaster.Window.Counts.{AllFit, trades_between}
use solana_dashboard.Broadcaster.Current.{TokenStatsPayload, build_current_record, current_of}
use solana_dashboard.Broadcaster.Current.Totals.{published, Counts, IsLive, published-Counts}
use solana_dashboard.Broadcaster.Feed.{
  Decimals, Recent, TradeMetricPoint, find_window, seed_window, stored_trade, handle_trades,
}
use solana_dashboard.Broadcaster.Feed.Own.{
  trade_of, seeded_by, own_window, after_trade, or_new, handle_trades-own_window,
}

module _ {F : Type 0} (fl : Floats F) where
  -- The same window with another mark.
  unfoldable pub marked : Bool → TokenWindowState F → TokenWindowState F
  marked b w = record w { seeded = b }

  pub append_all-marked :
      (xs : List (Trade F)) (b : Bool) (w : TokenWindowState F)
      → append_all fl (marked b w) xs ≡ marked b (append_all fl w xs)
  unfolding append_all append_second_bucket marked
  append_all-marked [] b w = refl
  append_all-marked (x ∷ xs) b w = append_all-marked xs b (append_second_bucket fl w x)

  append_all-append :
      (xs ys : List (Trade F)) (w : TokenWindowState F)
      → append_all fl (append_all fl w xs) ys ≡ append_all fl w (xs ++ ys)
  unfolding append_all
  append_all-append [] ys w = refl
  append_all-append (x ∷ xs) ys w = append_all-append xs ys (append_second_bucket fl w x)

  -- What the store gives to a window, and whether it has given by then.
  abbrev stored : Recent F → String → ℤ → Bool → List (Trade F) × Bool
  stored none mint ts seeded = ([], seeded)
  stored (some list_recent) mint ts true = ([], true)
  stored (some list_recent) mint ts false = elim (list_recent mint (sub_int64 ts (pos 300))) [
    | err e ↦ ([], false)
    | ok metrics ↦ (map (stored_trade fl) metrics, true)
  ]

  ask-stored :
      (list_recent : String → ℤ → Result (List (TradeMetricPoint F))) (mint : String) (ts : ℤ)
      (b : Bool) (w : TokenWindowState F)
      → w.seeded ≡ b
      → (if b then w else elim (list_recent mint (sub_int64 ts (pos 300))) [
        | err e ↦ w
        | ok metrics ↦ seed_window fl w metrics
      ])
        ≡ marked
            (stored (some list_recent) mint ts b).1
            (append_all fl w (stored (some list_recent) mint ts b).0)
  unfolding marked append_all
  ask-stored list_recent mint ts true w h = ap (λ b. marked b w) h
  ask-stored list_recent mint ts false w h =
      elim (Result-cases (list_recent mint (sub_int64 ts (pos 300)))) [
        | inl (ms, g) ↦ rw (g, stored) refl
        | inr (e, g) ↦ rw (g, stored) (ap (λ b. marked b w) h)
      ]

  -- seeded_by as a list of trades.
  seeded_by-stored :
      (recent : Recent F) (mint : String) (ts : ℤ) (w : TokenWindowState F)
      → seeded_by fl recent mint ts w
        ≡ marked
            (stored recent mint ts w.seeded).1
            (append_all fl w (stored recent mint ts w.seeded).0)
  unfolding seeded_by marked append_all
  seeded_by-stored none mint ts w = refl
  seeded_by-stored (some list_recent) mint ts w = ask-stored list_recent mint ts w.seeded w refl

  append_stored :
      (recent : Recent F) (mint : String) (t : Trade F) (w : TokenWindowState F)
      → append_second_bucket fl (seeded_by fl recent mint t.ts w) t
        ≡ marked
            (stored recent mint t.ts w.seeded).1
            (append_all fl w ((stored recent mint t.ts w.seeded).0 ++ t ∷ []))
  unfolding append_all
  append_stored recent mint t w =
      let given = stored recent mint t.ts w.seeded in
      ap (λ v. append_all fl v (t ∷ [])) (seeded_by-stored recent mint t.ts w)
      ∙ append_all-marked (t ∷ []) given.1 (append_all fl w given.0)
      ∙ ap (marked given.1) (append_all-append given.0 (t ∷ []) w)

module _ {F : Type 0} (fl : Floats F) (d : Decimals F) (codec : Codec) where
  abbrev next_history :
      Recent F → String → Option (String × Trade F) → List (Trade F) × Bool → List (Trade F) × Bool
  next_history recent mint none h = h
  next_history recent mint (some (m, t)) (xs, seeded) =
      if str_eq m mint
      then (
        xs ++ ((stored fl recent m t.ts seeded).0 ++ t ∷ []),
        (stored fl recent m t.ts seeded).1,
      )
      else (xs, seeded)

  -- The trades that a window takes in, in order, and whether it is seeded: those that the store
  -- gives at the first trade that it answers, and those of the mint's own events.
  abbrev pub history_from :
      String → List (Recent F × Envelope) → List (Trade F) × Bool → List (Trade F) × Bool
  history_from mint [] h = h
  history_from mint ((recent, env) ∷ rest) h =
      history_from mint rest (next_history recent mint (trade_of fl d codec env) h)

  abbrev pub history : String → List (Recent F × Envelope) → List (Trade F)
  history mint es = (history_from mint es ([], false)).0

  abbrev made : List (Trade F) × Bool → TokenWindowState F
  made (xs, seeded) = marked fl seeded (append_all fl (new_window fl) xs)

  after_trade-made :
      (recent : Recent F) (mint : String) (trade : Option (String × Trade F))
      (h : List (Trade F) × Bool) (o : Option (TokenWindowState F))
      → or_new fl o ≡ made h
      → or_new fl (after_trade fl d codec recent mint trade o)
        ≡ made (next_history recent mint trade h)
  unfolding marked
  after_trade-made recent mint none h o e = e
  after_trade-made recent mint (some (m, t)) (xs, seeded) o e = elim (Bool-cases (str_eq m mint)) [
    | inr b ↦ rw b e
    | inl b ↦
        rw (b, e)
          (append_stored fl recent m t (made (xs, seeded))
            ∙ ap (marked fl (stored fl recent m t.ts seeded).1) (
                append_all-marked fl ((stored fl recent m t.ts seeded).0 ++ t ∷ []) seeded
                  (append_all fl (new_window fl) xs)
                ∙ ap (marked fl seeded) (
                    append_all-append fl xs ((stored fl recent m t.ts seeded).0 ++ t ∷ [])
                      (new_window fl))))
  ]

  own_window-made :
      (es : List (Recent F × Envelope)) (mint : String) (h : List (Trade F) × Bool)
      (o : Option (TokenWindowState F))
      → or_new fl o ≡ made h
      → or_new fl (own_window fl d codec mint es o) ≡ made (history_from mint es h)
  unfolding own_window
  own_window-made [] mint h o e = e
  own_window-made ((recent, env) ∷ rest) mint h o e =
      own_window-made rest mint (next_history recent mint (trade_of fl d codec env) h) _
        (after_trade-made recent mint (trade_of fl d codec env) h o e)

  published-marked :
      (mint : String) (b : Bool) (w : TokenWindowState F) (long : LongWindowMetricsRecord F)
      (now : ℤ)
      → published fl mint (marked fl b w) long now ≡ published fl mint w long now
  unfolding published build_current_record summarize_second_buckets current_of marked
  published-marked mint b w long now = refl

  -- A window that made something live is there.
  found :
      (o : Option (TokenWindowState F)) (h : List (Trade F) × Bool)
      → or_new fl o ≡ made h
      → IsLive fl (append_all fl (new_window fl) h.0)
      → o ≡ some (made h)
  unfolding new_window marked
  found none h e live = absurd (ground (arith, ap (λ w. leb_ℤ w.last_unix_ts (pos 0)) e ∙ live.1))
  found (some w) h e live = ap some e

  -- After any events from an empty map of windows, with `history` the trades that a mint's window has
  -- taken in (those that the store gave when it was first asked with success, and those of the mint's
  -- own events): if the history fits and its last trade is live, the mint has a window, its
  -- statistics are published, and the published counts are those of the history's trades in the last
  -- 60 and 300 seconds, with the stored counts for the longer spans.
  pub handle_trades-Counts :
      (side : Bool) (es : List (Recent F × Envelope)) (mint : String)
      (long : LongWindowMetricsRecord F) (now : ℤ)
      → fl.is_zero fl.zero ≡ true
      → IsTime now
      → OnTime (pos 0) (history mint es)
      → AllFit fl now (history mint es)
      → IsLive fl (append_all fl (new_window fl) (history mint es))
      → (w : TokenWindowState F) × (p : TokenStatsPayload F) × (find_window mint
            (handle_trades fl d codec es [])
          ≡ some w)
        × (published fl mint w long now ≡ some p)
        × Counts side long
            (trades_between side (sub_int64 now (pos 60)) now (history mint es))
            (trades_between side (sub_int64 now (pos 300)) now (history mint es))
            p
  unfolding marked new_window append_all
  handle_trades-Counts side es mint long now z time on_time fits live =
      let h = history_from mint es ([], false) in
      let (p, shown, price, at, counts) =
        published-Counts fl side mint h.0 long now z time on_time fits live in
      (
        made h,
        p,
        handle_trades-own_window fl d codec es [] mint
            ∙ found _ h (own_window-made es mint ([], false) none refl) live,
        published-marked mint h.1 (append_all fl (new_window fl) h.0) long now ∙ shown,
        counts,
      )
