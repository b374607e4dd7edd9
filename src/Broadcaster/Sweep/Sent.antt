-- ===== src/Broadcaster/Sweep/Sent.antt =====
-- What a Sweep of internal/broadcaster/stats.go stores and publishes, in terms of its windows.
use solana_dashboard.Common.{
  ℕ, ◌<◌, ◌≡◌, refl, ap, ◌∙◌, String, Bool, true, false, not, ◌&&◌, Option, none, some, List, [],
  ◌∷◌, ◌++◌, if◌then◌else◌, arith, map, Option-cases, inl, inr,
}
use solana_dashboard.Common.Int.{ℤ, pos, IsTime}
use solana_dashboard.Result.{Result, ok, err}
use solana_dashboard.Events.{Envelope, RawMessage}
use solana_dashboard.Store.Metrics.{LongWindowMetricsRecord, TokenMetricsCurrentRecord}
use solana_dashboard.Broadcaster.Window.{Floats, TokenWindowState}
use solana_dashboard.Broadcaster.Current.{TokenStatsPayload, build_current_record}
use solana_dashboard.Broadcaster.Current.Totals.{published}
use solana_dashboard.Broadcaster.Feed.{Windows}
use solana_dashboard.Broadcaster.Sweep.{
  MetricsStore, RefreshTarget, Outcome, no_long_metrics, long_or_zero, long_metrics, outcome_of,
  sweep,
}
use solana_dashboard.Broadcaster.Sweep.Refresh.{outcomes, targets_of}
use solana_dashboard.Broadcaster.Sweep.Kept.{IsMap, selected, longs_of, sweep-outcomes}
use solana_dashboard.Broadcaster.Sweep.Rule.{
  is_cold, is_due, is_evicted_lem, is_target_lem, read_window, asked-read_window,
}

taken :
    {A : Type 0} (cold due : Bool) (x y : A)
    → (if cold then y else if due then x else y) ≡ (if not cold && due then x else y)
taken cold due x y = ground arith

either : {A : Type 0} (b : Bool) (x : A) → (if b then x else x) ≡ x
either b x = ground arith

if_map :
    {A B : Type 0} (f : A → B) (b : Bool) (x y : A)
    → f (if b then x else y) ≡ (if b then f x else f y)
if_map f true x y = refl
if_map f false x y = refl

join_both : {A : Type 0} {x x' y y' : List A} → x ≡ x' → y ≡ y' → x ++ y ≡ x' ++ y'
join_both {x' = x'} {y = y} h h' = ap (λ z. z ++ y) h ∙ ap (λ z. x' ++ z) h'

if_both :
    {A : Type 0} (b : Bool) {x x' y y' : A}
    → x ≡ x'
    → y ≡ y'
    → (if b then x else y) ≡ (if b then x' else y')
if_both true h h' = h
if_both false h h' = h'

-- What is published of a token: its statistics at second n, and nothing else.
abbrev pub token_stat : RawMessage → ℕ → Envelope
token_stat payload n = record {
  log_id = pos 0;
  schema_version = pos 0;
  event_id = "";
  chain = "";
  protocol = "";
  event_type = "token_stat";
  commitment = "";
  slot = 0;
  tx_signature = "";
  tx_index = 0;
  instruction_path = record { source = ""; outer_index = pos 0; inner_index = none };
  event_source = "";
  event_unix_ts = pos n;
  refs = record {
    mint = none;
    pool = none;
    bonding_curve = none;
    user = none;
    creator = none;
    base_mint = none;
    quote_mint = none;
    lp_mint = none;
  };
  payload = payload;
}

module _ {F : Type 0} (fl : Floats F) (marshal : TokenStatsPayload F → Result RawMessage)
    (store : Option (MetricsStore F)) (n : ℕ) (has_subscribers : String → Bool) where
  abbrev pub AllTimed : Windows F → Type 0
  AllTimed [] = Unit
  AllTimed ((mint, w) ∷ ws) = IsTime w.last_active_ts × AllTimed ws

  -- The mints that a sweep at second n refreshes.
  abbrev pub due_mints : Windows F → List String
  due_mints [] = []
  due_mints ((mint, w) ∷ ws) =
      let rest = due_mints ws in
      if not (is_cold (has_subscribers mint) n w) && is_due (has_subscribers mint) n w
      then mint ∷ rest
      else rest

  -- The stored long metrics of a mint, as one query for all those mints gives them; zeros if there
  -- is no store, the query fails or has none for the mint.
  abbrev pub longs_at : Windows F → String → LongWindowMetricsRecord F
  longs_at ws mint = elim store [
    | none ↦ no_long_metrics fl
    | some s ↦ elim (s.list_long_window_metrics_by_mints (due_mints ws) (pos n)) [
      | err e ↦ no_long_metrics fl
      | ok items ↦ long_or_zero fl (items mint)
    ]
  ]

  long_metrics_lem :
      (st : Option (MetricsStore F)) (mints : List String) (now : ℤ)
      → long_metrics fl st mints now ≡ (λ mint. elim st [
        | none ↦ no_long_metrics fl
        | some s ↦ elim (s.list_long_window_metrics_by_mints mints now) [
          | err e ↦ no_long_metrics fl
          | ok items ↦ long_or_zero fl (items mint)
        ]
      ])
  unfolding long_metrics
  long_metrics_lem none mints now = refl
  long_metrics_lem (some s) mints now = refl

  selected-head :
      (mint : String) (w : TokenWindowState F) (ws : Windows F)
      → n < 4611686018427387904
      → IsTime w.last_active_ts
      → selected has_subscribers (pos n) ((mint, w) ∷ ws) ≡ (
          if not (is_cold (has_subscribers mint) n w) && is_due (has_subscribers mint) n w
          then (record { mint = mint; subscribed = has_subscribers mint }, w)
            ∷ selected has_subscribers (pos n) ws
          else selected has_subscribers (pos n) ws)
  selected-head mint w ws b t =
      rw
        (
          is_evicted_lem n b (has_subscribers mint) w t,
          is_target_lem n b (has_subscribers mint) w t,
        )
        (taken (is_cold (has_subscribers mint) n w) (is_due (has_subscribers mint) n w) _ _)

  module _ (longs : String → LongWindowMetricsRecord F) where
    abbrev row_of : String → TokenWindowState F → List (TokenMetricsCurrentRecord F)
    row_of mint w =
        elim (build_current_record fl mint (read_window fl marshal store n has_subscribers mint w)
          (longs mint) (pos n)) [ none ↦ [] | some metrics ↦ metrics ∷ [] ]

    -- The current record of every window that is refreshed and has one.
    abbrev pub stored_records : Windows F → List (TokenMetricsCurrentRecord F)
    stored_records [] = []
    stored_records ((mint, w) ∷ ws) =
        let rest = stored_records ws in
        if not (is_cold (has_subscribers mint) n w) && is_due (has_subscribers mint) n w
        then row_of mint w ++ rest
        else rest

    abbrev stat_of : String → TokenWindowState F → List (String × Envelope)
    stat_of mint w =
        elim (published fl mint (read_window fl marshal store n has_subscribers mint w) (longs mint)
          (pos n)) [
            | none ↦ []
            | some payload ↦ elim (marshal payload) [
              | err e ↦ []
              | ok bytes ↦ (mint, token_stat bytes n) ∷ []
            ]
          ]

    -- The statistics of every subscribed mint that has any.
    abbrev pub announced : Windows F → List (String × Envelope)
    announced [] = []
    announced ((mint, w) ∷ ws) =
        let rest = announced ws in if has_subscribers mint then stat_of mint w ++ rest else rest

    outcome_of-row :
        (mint : String) (subscribed : Bool) (w : TokenWindowState F)
        → (outcome_of fl marshal store
            (pos n)
            (record { mint = mint; subscribed = subscribed })
            (longs mint)
            w).records
          ≡ (elim (build_current_record fl mint w (longs mint) (pos n)) [
            | none ↦ []
            | some metrics ↦ metrics ∷ []
          ])
    unfolding outcome_of
    outcome_of-row mint subscribed w =
        elim (Option-cases (build_current_record fl mint w (longs mint) (pos n))) [
          | inl e ↦ rw (e, outcome_of) refl
          | inr (r, e) ↦ rw (e, outcome_of) refl
        ]

    outcome_of-stat :
        (mint : String) (subscribed : Bool) (w : TokenWindowState F)
        → (outcome_of fl marshal store
            (pos n)
            (record { mint = mint; subscribed = subscribed })
            (longs mint)
            w).publish_queue
          ≡ (if subscribed
              then (elim (published fl mint w (longs mint) (pos n)) [
                | none ↦ []
                | some payload ↦ elim (marshal payload) [
                  | err e ↦ []
                  | ok bytes ↦ (mint, token_stat bytes n) ∷ []
                ]
              ])
              else [])
    unfolding outcome_of published
    outcome_of-stat mint true w =
        elim (Option-cases (build_current_record fl mint w (longs mint) (pos n))) [
          | inl e ↦ rw (e, outcome_of) refl
          | inr (r, e) ↦ rw (e, outcome_of) refl
        ]
    outcome_of-stat mint false w =
        elim (Option-cases (build_current_record fl mint w (longs mint) (pos n))) [
          | inl e ↦ rw (e, outcome_of) refl
          | inr (r, e) ↦ rw (e, outcome_of) refl
        ]

    told :
        (subscribed : Bool) (w : TokenWindowState F) (s r : List (String × Envelope))
        → (if not (is_cold subscribed n w) && is_due subscribed n w
            then (if subscribed then s else []) ++ r
            else r)
          ≡ (if subscribed then s ++ r else r)
    told true w s r = refl
    told false w s r = either (not (is_cold false n w) && is_due false n w) r

    outcomes-stored :
        (ws : Windows F)
        → n < 4611686018427387904
        → AllTimed ws
        → (outcomes fl marshal store (pos n) longs (selected has_subscribers (pos n) ws)).records
          ≡ stored_records ws
    outcomes-stored [] b t = refl
    outcomes-stored ((mint, w) ∷ ws) b (t, ts) =
        let due = not (is_cold (has_subscribers mint) n w) && is_due (has_subscribers mint) n w in
        ap (λ es. (outcomes fl marshal store (pos n) longs es).records)
          (selected-head mint w ws b t)
        ∙ if_map (λ es. (outcomes fl marshal store (pos n) longs es).records) due _ _
        ∙ if_both due
            (join_both
              (ap
                  (λ v.
                    (outcome_of fl marshal store (pos n)
                      (record { mint = mint; subscribed = has_subscribers mint }) (longs mint)
                      v).records)
                  (asked-read_window fl marshal store n has_subscribers mint w)
                ∙ outcome_of-row mint (has_subscribers mint)
                    (read_window fl marshal store n has_subscribers mint w))
              (outcomes-stored ws b ts))
            (outcomes-stored ws b ts)

    outcomes-announced :
        (ws : Windows F)
        → n < 4611686018427387904
        → AllTimed ws
        → (outcomes fl marshal store
            (pos n)
            longs
            (selected has_subscribers (pos n) ws)).publish_queue
          ≡ announced ws
    outcomes-announced [] b t = refl
    outcomes-announced ((mint, w) ∷ ws) b (t, ts) =
        let due = not (is_cold (has_subscribers mint) n w) && is_due (has_subscribers mint) n w in
        ap (λ es. (outcomes fl marshal store (pos n) longs es).publish_queue)
          (selected-head mint w ws b t)
        ∙ if_map (λ es. (outcomes fl marshal store (pos n) longs es).publish_queue) due _ _
        ∙ if_both due
            (join_both
              (ap
                  (λ v.
                    (outcome_of fl marshal store (pos n)
                      (record { mint = mint; subscribed = has_subscribers mint }) (longs mint)
                      v).publish_queue)
                  (asked-read_window fl marshal store n has_subscribers mint w)
                ∙ outcome_of-stat mint (has_subscribers mint)
                    (read_window fl marshal store n has_subscribers mint w))
              (outcomes-announced ws b ts))
            (outcomes-announced ws b ts)
        ∙ told (has_subscribers mint) w (stat_of mint w) (announced ws)

  due_mints_lem :
      (ws : Windows F)
      → n < 4611686018427387904
      → AllTimed ws
      → map (λ (t : RefreshTarget). t.mint) (targets_of (selected has_subscribers (pos n) ws))
        ≡ due_mints ws
  due_mints_lem [] b t = refl
  due_mints_lem ((mint, w) ∷ ws) b (t, ts) =
      let due = not (is_cold (has_subscribers mint) n w) && is_due (has_subscribers mint) n w in
      ap (λ es. map (λ (t : RefreshTarget). t.mint) (targets_of es)) (selected-head mint w ws b t)
      ∙ if_map (λ es. map (λ (t : RefreshTarget). t.mint) (targets_of es)) due _ _
      ∙ if_both due (ap (λ ms. mint ∷ ms) (due_mints_lem ws b ts)) (due_mints_lem ws b ts)

  longs_of-longs_at :
      (ws : Windows F)
      → n < 4611686018427387904
      → AllTimed ws
      → longs_of fl marshal store (pos n) has_subscribers ws ≡ longs_at ws
  longs_of-longs_at ws b t =
      ap (λ ms. long_metrics fl store ms (pos n)) (due_mints_lem ws b t)
      ∙ long_metrics_lem store (due_mints ws) (pos n)

  -- A sweep at second n, on windows with distinct mints (as a Go map has them) whose last trades have
  -- times from 0 to 2^62, goes through the windows in their order. It gives the store the current
  -- record of every window that is refreshed and has one: not of one whose mint nobody subscribes to
  -- and whose last trade is more than a day old; of the others, of those that somebody subscribes to,
  -- whose last trade is at most five minutes old, or which carry the mark of another minute. It
  -- publishes one token_stat for every mint that somebody subscribes to and that has statistics which
  -- can be encoded, and nothing for any other. The long windows come from one query for the mints
  -- that are refreshed, or are zero.
  pub sweep-announced :
      (ws : Windows F)
      → n < 4611686018427387904
      → IsMap ws
      → AllTimed ws
      → let sent = (sweep fl marshal store (pos n) has_subscribers ws).1 in
        (sent.records ≡ stored_records (longs_at ws) ws)
        × (sent.publish_queue ≡ announced (longs_at ws) ws)
  sweep-announced ws b u t =
      let done = sweep-outcomes fl marshal store (pos n) has_subscribers ws u in
      let longs = longs_of-longs_at ws b t in
      (
        ap (λ (o : Outcome F). o.records) done
            ∙ outcomes-stored (longs_of fl marshal store (pos n) has_subscribers ws) ws b t
            ∙ ap (λ l. stored_records l ws) longs,
        ap (λ (o : Outcome F). o.publish_queue) done
            ∙ outcomes-announced (longs_of fl marshal store (pos n) has_subscribers ws) ws b t
            ∙ ap (λ l. announced l ws) longs,
      )
