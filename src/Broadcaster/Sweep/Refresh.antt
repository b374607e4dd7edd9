-- ===== src/Broadcaster/Sweep/Refresh.antt =====
-- What the second loop of Sweep in internal/broadcaster/stats.go does to its targets.
use solana_dashboard.Common.{
  ◌≡◌, refl, ap, ◌∙◌, String, false, not, ◌&&◌, Option, none, some, List, [], ◌∷◌, str_eq,
  if◌then◌else◌, eq_refl, inl, inr, arith,
}
use solana_dashboard.Common.Int.{ℤ, pos, sub_int64}
use solana_dashboard.Result.{Result, Result-cases}
use solana_dashboard.Events.{RawMessage}
use solana_dashboard.Store.Metrics.{LongWindowMetricsRecord}
use solana_dashboard.Projector.Values.{is_empty}
use solana_dashboard.Broadcaster.Window.{Floats, TokenWindowState}
use solana_dashboard.Broadcaster.Current.{TokenStatsPayload}
use solana_dashboard.Broadcaster.Feed.{
  Recent, Windows, find_window, set_window, get_window, seed_window, ensure_window_seeded,
}
use solana_dashboard.Broadcaster.Feed.Own.{find-set, same_window, seeded_by}
use solana_dashboard.Broadcaster.Sweep.{
  MetricsStore, recent_of, RefreshTarget, minute_of, Outcome, no_outcome, both, outcome_of,
  seed_target, refresh, refresh_all,
}

-- Targets with their windows, of which no two have the same mint.
abbrev pub Entries : Type 0 → Type 0
Entries F = List (RefreshTarget × TokenWindowState F)

module _ {F : Type 0} where
  abbrev pub Held : Entries F → Windows F → Type 0
  Held [] ws = Unit
  Held ((t, w) ∷ ts) ws = (find_window t.mint ws ≡ some w) × Held ts ws

  abbrev pub Lacks : String → Entries F → Type 0
  Lacks m [] = Unit
  Lacks m ((t, w) ∷ ts) = (str_eq m t.mint ≡ false) × Lacks m ts

  abbrev pub Apart : Entries F → Type 0
  Apart [] = Unit
  Apart ((t, w) ∷ ts) = Lacks t.mint ts × Apart ts

  abbrev pub targets_of : Entries F → List RefreshTarget
  targets_of [] = []
  targets_of ((t, w) ∷ ts) = t ∷ targets_of ts

module _ {F : Type 0} (fl : Floats F) (marshal : TokenStatsPayload F → Result RawMessage)
    (store : Option (MetricsStore F)) (now : ℤ) where
  -- The window of a target when its record is built, and after that.
  abbrev pub asked : RefreshTarget → TokenWindowState F → TokenWindowState F
  asked target w =
      if target.subscribed && not w.seeded
      then if is_empty target.mint then w else seeded_by fl (recent_of store) target.mint now w
      else w

  abbrev pub refreshed : RefreshTarget → TokenWindowState F → TokenWindowState F
  refreshed target w = record (asked target w) { last_persisted_minute = minute_of now }

  get_window-held :
      (m : String) (w : TokenWindowState F) (ws : Windows F)
      → find_window m ws ≡ some w
      → get_window fl m ws ≡ (w, ws)
  unfolding get_window
  get_window-held m w ws h = rw (h, get_window) refl

  find-ensure-held :
      (recent : Recent F) (m k : String) (w : TokenWindowState F) (ws : Windows F)
      → find_window m ws ≡ some w
      → find_window k (ensure_window_seeded fl recent m now ws) ≡ (
          if str_eq m k
          then some (if is_empty m then w else seeded_by fl recent m now w)
          else find_window k ws)
  unfolding ensure_window_seeded seeded_by
  find-ensure-held none m k w ws h = ground (arith, same_window fl m k w ws h)
  find-ensure-held (some list) m k w ws h = elim (Result-cases (list m (sub_int64 now (pos 300)))) [
    | inl (metrics, g) ↦ ground (
      arith,
      g,
      get_window-held m w ws h,
      same_window fl m k w ws h,
      find-set k m (seed_window fl w metrics) ws,
    )
    | inr (e, g) ↦ ground (arith, g, get_window-held m w ws h, same_window fl m k w ws h)
  ]

  find-seed_target :
      (t : RefreshTarget) (k : String) (w : TokenWindowState F) (ws : Windows F)
      → find_window t.mint ws ≡ some w
      → find_window k (seed_target fl marshal store now t w ws)
        ≡ (if str_eq t.mint k then some (asked t w) else find_window k ws)
  unfolding seed_target
  find-seed_target t k w ws h =
      ground
        (arith, find-ensure-held (recent_of store) t.mint k w ws h, same_window fl t.mint k w ws h)

  abbrev pub override :
      String → Entries F → Option (TokenWindowState F) → Option (TokenWindowState F)
  override k [] o = o
  override k ((t, w) ∷ ts) o = override k ts (if str_eq t.mint k then some (refreshed t w) else o)

  module _ (longs : String → LongWindowMetricsRecord F) where
    refresh-held :
        (t : RefreshTarget) (w : TokenWindowState F) (ws : Windows F)
        → find_window t.mint ws ≡ some w
        → refresh fl marshal store now longs t ws ≡ (
          set_window t.mint (refreshed t w) (seed_target fl marshal store now t w ws),
          outcome_of fl marshal store now t (longs t.mint) (asked t w),
        )
    unfolding refresh
    refresh-held t w ws h = rw (h, refresh, find-seed_target t t.mint w ws h, eq_refl t.mint) refl

    find-refresh :
        (t : RefreshTarget) (k : String) (w : TokenWindowState F) (ws : Windows F)
        → find_window t.mint ws ≡ some w
        → find_window k (refresh fl marshal store now longs t ws).0
          ≡ (if str_eq t.mint k then some (refreshed t w) else find_window k ws)
    find-refresh t k w ws h =
        ap (λ (r : Windows F × Outcome F). find_window k r.0) (refresh-held t w ws h)
        ∙ ground (
          arith,
          find-set k t.mint (refreshed t w) (seed_target fl marshal store now t w ws),
          find-seed_target t k w ws h,
        )

    abbrev pub outcomes : Entries F → Outcome F
    outcomes [] = no_outcome
    outcomes ((t, w) ∷ ts) =
        both fl marshal store now (outcome_of fl marshal store now t (longs t.mint) (asked t w))
          (outcomes ts)

    Held-refresh :
        (t : RefreshTarget) (w : TokenWindowState F) (ws : Windows F) (ts : Entries F)
        → find_window t.mint ws ≡ some w
        → Lacks t.mint ts
        → Held ts ws
        → Held ts (refresh fl marshal store now longs t ws).0
    Held-refresh t w ws [] h lacks held = tt
    Held-refresh t w ws ((u, v) ∷ ts) h (apart, lacks) (first, held) =
        (find-refresh t u.mint w ws h ∙ rw apart first, Held-refresh t w ws ts h lacks held)

    -- The second loop on its targets.
    pub refresh_all-windows :
        (ts : Entries F) (ws : Windows F) (k : String)
        → Held ts ws
        → Apart ts
        → find_window k (refresh_all fl marshal store now longs (targets_of ts) ws).0
          ≡ override k ts (find_window k ws)
    unfolding refresh_all
    refresh_all-windows [] ws k held apart = refl
    refresh_all-windows ((t, w) ∷ ts) ws k (h, held) (lacks, apart) =
        refresh_all-windows ts (refresh fl marshal store now longs t ws).0 k
          (Held-refresh t w ws ts h lacks held) apart
        ∙ ap (override k ts) (find-refresh t k w ws h)

    pub refresh_all-outcomes :
        (ts : Entries F) (ws : Windows F)
        → Held ts ws
        → Apart ts
        → (refresh_all fl marshal store now longs (targets_of ts) ws).1 ≡ outcomes ts
    unfolding refresh_all
    refresh_all-outcomes [] ws held apart = refl
    refresh_all-outcomes ((t, w) ∷ ts) ws (h, held) (lacks, apart) =
        rw
          (
            refresh_all-outcomes ts (refresh fl marshal store now longs t ws).0
                (Held-refresh t w ws ts h lacks held) apart,
            refresh-held t w ws h,
          )
          refl
