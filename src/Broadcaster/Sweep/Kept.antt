-- ===== src/Broadcaster/Sweep/Kept.antt =====
-- What a whole Sweep of internal/broadcaster/stats.go does to each window, and what it sends.
use solana_dashboard.Common.{
  ◌≡◌, refl, sym, ap, ◌∙◌, subst, String, Bool, false, ◌||◌, Option, none, some, List, [], ◌∷◌,
  str_eq, if◌then◌else◌, eq_iff, eq_refl, Bool-cases, inl, inr, arith, map,
}
use solana_dashboard.Common.Int.{ℤ}
use solana_dashboard.Result.{Result}
use solana_dashboard.Events.{RawMessage}
use solana_dashboard.Store.Metrics.{LongWindowMetricsRecord}
use solana_dashboard.Broadcaster.Window.{Floats, TokenWindowState}
use solana_dashboard.Broadcaster.Current.{TokenStatsPayload}
use solana_dashboard.Broadcaster.Feed.{Windows, find_window, remove_window}
use solana_dashboard.Broadcaster.Sweep.{
  MetricsStore, RefreshTarget, is_evicted, is_target, scan_windows, remove_windows, long_metrics,
  refresh_all, sweep,
}
use solana_dashboard.Broadcaster.Sweep.Refresh.{
  refreshed, Entries, Held, Lacks, Apart, targets_of, override, outcomes, refresh_all-windows,
  refresh_all-outcomes,
}

abbrev is_in : String → List String → Bool
is_in k [] = false
is_in k (m ∷ ms) = str_eq m k || is_in k ms

abbrev target_at : (String → Bool) → String → RefreshTarget
target_at has_subscribers m = record { mint = m; subscribed = has_subscribers m }

module _ {F : Type 0} where
  -- No two entries have the same mint.
  abbrev pub IsMap : Windows F → Type 0
  IsMap [] = Unit
  IsMap ((k, w) ∷ ws) = (find_window k ws ≡ none) × IsMap ws

  pub find-remove :
      (m k : String) (ws : Windows F)
      → IsMap ws
      → find_window k (remove_window m ws) ≡ (if str_eq m k then none else find_window k ws)
  find-remove m k [] u = ground arith
  find-remove m k ((key, w) ∷ ws) (fresh, u) =
      ground (arith, eq_iff key m, eq_iff key k, eq_iff m k, find-remove m k ws u)

  pub remove-IsMap : (m : String) (ws : Windows F) → IsMap ws → IsMap (remove_window m ws)
  remove-IsMap m [] u = tt
  remove-IsMap m ((key, w) ∷ ws) (fresh, u) = elim (Bool-cases (str_eq key m)) [
    | inl e ↦ rw e u
    | inr e ↦ rw e (find-remove m key ws u ∙ ground (arith, fresh), remove-IsMap m ws u)
  ]

  find-remove_windows :
      (ms : List String) (k : String) (ws : Windows F)
      → IsMap ws
      → find_window k (remove_windows ms ws) ≡ (if is_in k ms then none else find_window k ws)
  unfolding remove_windows
  find-remove_windows [] k ws u = refl
  find-remove_windows (m ∷ ms) k ws u = ground (
    arith,
    find-remove_windows ms k (remove_window m ws) (remove-IsMap m ws u),
    find-remove m k ws u,
  )

module _ {F : Type 0} (has_subscribers : String → Bool) (now : ℤ) where
  abbrev drops : String → TokenWindowState F → Bool
  drops m w = is_evicted (has_subscribers m) now w

  abbrev takes : String → TokenWindowState F → Bool
  takes m w = is_target (has_subscribers m) now w

  -- The windows that are refreshed, as a filter.
  abbrev pub selected : Windows F → Entries F
  selected [] = []
  selected ((m, w) ∷ ws) =
      let rest = selected ws in
      if drops m w
      then rest
      else if takes m w
      then (target_at has_subscribers m, w) ∷ rest
      else rest

  scan_windows-selected :
      (ws : Windows F) → (scan_windows has_subscribers now ws).0 ≡ targets_of (selected ws)
  unfolding scan_windows
  scan_windows-selected [] = refl
  scan_windows-selected ((m, w) ∷ ws) = elim (Bool-cases (drops m w)) [
    | inl e ↦ rw e (scan_windows-selected ws)
    | inr e ↦ elim (Bool-cases (takes m w)) [
      | inl e' ↦ rw (e, e') (ap (λ ts. target_at has_subscribers m ∷ ts) (scan_windows-selected ws))
      | inr e' ↦ rw (e, e') (scan_windows-selected ws)
    ]
  ]

  is_in-evictions :
      (ws : Windows F) (k : String)
      → IsMap ws
      → is_in k (scan_windows has_subscribers now ws).1
        ≡ (elim (find_window k ws) [ none ↦ false | some w ↦ drops k w ])
  unfolding scan_windows
  is_in-evictions [] k u = refl
  is_in-evictions ((m, w) ∷ ws) k (fresh, u) = elim (Bool-cases (str_eq m k)) [
    | inl e ↦
        let gone : find_window k ws ≡ none =
          subst (λ s. find_window s ws ≡ none) ((eq_iff m k).0 e) fresh in
        let rest : is_in k (scan_windows has_subscribers now ws).1 ≡ false =
          is_in-evictions ws k u ∙ rw gone refl in
        ground (arith, rest, ap (λ s. drops s w) ((eq_iff m k).0 e))
    | inr e ↦ ground (arith, is_in-evictions ws k u)
  ]

  -- Every entry of a list is the window of its mint.
  abbrev InMap : Windows F → Windows F → Type 0
  InMap [] ws = Unit
  InMap ((m, w) ∷ vs) ws = (find_window m ws ≡ some w) × InMap vs ws

  InMap-cons :
      (vs ws : Windows F) (k : String) (w : TokenWindowState F)
      → find_window k ws ≡ none
      → InMap vs ws
      → InMap vs ((k, w) ∷ ws)
  InMap-cons [] ws k w fresh h = tt
  InMap-cons ((m, v) ∷ vs) ws k w fresh (h, hs) = (
    elim (Bool-cases (str_eq k m)) [
      | inl e ↦
          absurd
            (ground (arith, sym h ∙ subst (λ s. find_window s ws ≡ none) ((eq_iff k m).0 e) fresh))
      | inr e ↦ rw e h
    ],
    InMap-cons vs ws k w fresh hs,
  )

  InMap-self : (ws : Windows F) → IsMap ws → InMap ws ws
  InMap-self [] u = tt
  InMap-self ((k, w) ∷ ws) (fresh, u) =
      (rw (eq_refl k) refl, InMap-cons ws ws k w fresh (InMap-self ws u))

  abbrev kept : Windows F → Windows F
  kept ws = remove_windows (scan_windows has_subscribers now ws).1 ws

  find-kept :
      (ws : Windows F) (k : String)
      → IsMap ws
      → find_window k (kept ws)
        ≡ (elim (find_window k ws) [ none ↦ none | some w ↦ if drops k w then none else some w ])
  find-kept ws k u = ground (
    arith,
    find-remove_windows (scan_windows has_subscribers now ws).1 k ws u,
    is_in-evictions ws k u,
  )

  selected-Held : (vs ws : Windows F) → IsMap ws → InMap vs ws → Held (selected vs) (kept ws)
  selected-Held [] ws u h = tt
  selected-Held ((m, w) ∷ vs) ws u (h, hs) = elim (Bool-cases (drops m w)) [
    | inl e ↦ rw e (selected-Held vs ws u hs)
    | inr e ↦ elim (Bool-cases (takes m w)) [
      | inl e' ↦ rw (e, e') (ground (arith, find-kept ws m u, h, e), selected-Held vs ws u hs)
      | inr e' ↦ rw (e, e') (selected-Held vs ws u hs)
    ]
  ]

  selected-Lacks : (vs : Windows F) (m : String) → find_window m vs ≡ none → Lacks m (selected vs)
  selected-Lacks [] m h = tt
  selected-Lacks ((k, w) ∷ vs) m h = elim (Bool-cases (str_eq k m)) [
    | inl b ↦ absurd (ground (arith, h, b))
    | inr b ↦
        let rest : Lacks m (selected vs) = selected-Lacks vs m (ground (arith, h, b)) in
        elim (Bool-cases (drops k w)) [
          | inl e ↦ rw e rest
          | inr e ↦ elim (Bool-cases (takes k w)) [
            | inl e' ↦ rw (e, e') (ground (arith, b, eq_iff k m, eq_iff m k), rest)
            | inr e' ↦ rw (e, e') rest
          ]
        ]
  ]

  selected-Apart : (vs : Windows F) → IsMap vs → Apart (selected vs)
  selected-Apart [] u = tt
  selected-Apart ((k, w) ∷ vs) (fresh, u) = elim (Bool-cases (drops k w)) [
    | inl e ↦ rw e (selected-Apart vs u)
    | inr e ↦ elim (Bool-cases (takes k w)) [
      | inl e' ↦ rw (e, e') (selected-Lacks vs k fresh, selected-Apart vs u)
      | inr e' ↦ rw (e, e') (selected-Apart vs u)
    ]
  ]

module _ {F : Type 0} (fl : Floats F) (marshal : TokenStatsPayload F → Result RawMessage)
    (store : Option (MetricsStore F)) (now : ℤ) (has_subscribers : String → Bool) where
  -- The specification of a sweep, for one window.
  abbrev pub swept : String → Option (TokenWindowState F) → Option (TokenWindowState F)
  swept mint none = none
  swept mint (some w) =
      if is_evicted (has_subscribers mint) now w
      then none
      else if is_target (has_subscribers mint) now w
      then some (refreshed fl marshal store now (target_at has_subscribers mint) w)
      else some w

  abbrev overridden :
      String
      → Option (TokenWindowState F)
      → Option (TokenWindowState F)
      → Option (TokenWindowState F)
  overridden k o none = o
  overridden k o (some w) =
      if is_evicted (has_subscribers k) now w
      then o
      else if is_target (has_subscribers k) now w
      then some (refreshed fl marshal store now (target_at has_subscribers k) w)
      else o

  abbrev override_all :
      String → Windows F → Option (TokenWindowState F) → Option (TokenWindowState F)
  override_all k ws o = override fl marshal store now k (selected has_subscribers now ws) o

  abbrev chosen :
      String
      → String
      → TokenWindowState F
      → Windows F
      → Option (TokenWindowState F)
      → Bool
      → Option (TokenWindowState F)
  chosen m k w ws o b =
      override_all k ws
        (if b then some (refreshed fl marshal store now (target_at has_subscribers m) w) else o)

  override-head :
      (k : String) (w : TokenWindowState F) (ws : Windows F) (o : Option (TokenWindowState F))
      → ((o : Option (TokenWindowState F)) → override_all k ws o ≡ o)
      → override_all k ((k, w) ∷ ws) o ≡ overridden k o (some w)
  override-head k w ws o idle = elim (Bool-cases (is_evicted (has_subscribers k) now w)) [
    | inl e ↦ rw e (idle o)
    | inr e ↦ elim (Bool-cases (is_target (has_subscribers k) now w)) [
      | inl e' ↦ rw (e, e') (ap (chosen k k w ws o) (eq_refl k) ∙ idle (some _))
      | inr e' ↦ rw (e, e') (idle o)
    ]
  ]

  override-tail :
      (m k : String) (w : TokenWindowState F) (ws : Windows F) (o : Option (TokenWindowState F))
      → str_eq m k ≡ false
      → override_all k ((m, w) ∷ ws) o ≡ override_all k ws o
  override-tail m k w ws o b = elim (Bool-cases (is_evicted (has_subscribers m) now w)) [
    | inl e ↦ rw e refl
    | inr e ↦ elim (Bool-cases (is_target (has_subscribers m) now w)) [
      | inl e' ↦ rw (e, e') (ap (chosen m k w ws o) b)
      | inr e' ↦ rw (e, e') refl
    ]
  ]

  override-selected :
      (ws : Windows F) (k : String) (o : Option (TokenWindowState F))
      → IsMap ws
      → override_all k ws o ≡ overridden k o (find_window k ws)
  override-selected [] k o u = refl
  override-selected ((m, w) ∷ ws) k o (fresh, u) = elim (Bool-cases (str_eq m k)) [
    | inr b ↦ override-tail m k w ws o b ∙ rw b (override-selected ws k o u)
    | inl b ↦
        let at = (eq_iff m k).0 b in
        let gone : find_window k ws ≡ none = subst (λ s. find_window s ws ≡ none) at fresh in
        rw b (
          subst (λ s. override_all k ((s, w) ∷ ws) o ≡ overridden k o (some w)) (sym at)
            (override-head k w ws o
              (λ o'. override-selected ws k o' u ∙ ap (overridden k o') gone)))
  ]

  overridden-swept :
      (k : String) (found : Option (TokenWindowState F))
      → overridden k
          (elim found [
            | none ↦ none
            | some w ↦ if is_evicted (has_subscribers k) now w then none else some w
          ])
          found
        ≡ swept k found
  overridden-swept k none = refl
  overridden-swept k (some w) = ground arith

  abbrev mints_of : List RefreshTarget → List String
  mints_of ts = map (λ (t : RefreshTarget). t.mint) ts

  -- The long metrics that a sweep asks for: once, for all its targets.
  abbrev pub longs_of : Windows F → String → LongWindowMetricsRecord F
  longs_of ws = long_metrics fl store (mints_of (targets_of (selected has_subscribers now ws))) now

  sweep-refresh :
      (ws : Windows F)
      → sweep fl marshal store now has_subscribers ws
        ≡ refresh_all fl marshal store now
            (longs_of ws)
            (targets_of (selected has_subscribers now ws))
            (kept has_subscribers now ws)
  unfolding sweep
  sweep-refresh ws = rw (scan_windows-selected has_subscribers now ws) refl

  -- A sweep of windows with distinct mints leaves each window as its own state says: gone if nobody
  -- subscribes to it and its last trade is more than 86400 seconds old; refreshed (seeded, if it is
  -- subscribed and was not, and marked with the minute) if it is subscribed, was active in the last 300
  -- seconds or carries another minute; else as it was. No mint gets a window that it had not.
  pub find_window-sweep :
      (ws : Windows F) (mint : String)
      → IsMap ws
      → find_window mint (sweep fl marshal store now has_subscribers ws).0
        ≡ swept mint (find_window mint ws)
  find_window-sweep ws mint u = rw (sweep-refresh ws) (
      refresh_all-windows fl marshal store now (longs_of ws) (selected has_subscribers now ws)
        (kept has_subscribers now ws) mint
        (selected-Held has_subscribers now ws ws u (InMap-self has_subscribers now ws u))
        (selected-Apart has_subscribers now ws u)
      ∙ override-selected ws mint _ u
      ∙ ap (λ o. overridden mint o (find_window mint ws)) (find-kept has_subscribers now ws mint u)
      ∙ overridden-swept mint (find_window mint ws))

  -- What a sweep of windows with distinct mints sends is what each selected window gives by itself, in
  -- the order of the windows: for one that is live its record, and if it is subscribed and its
  -- statistics can be encoded, one token_stat with them; from the window as it was, or as it is seeded.
  pub sweep-outcomes :
      (ws : Windows F)
      → IsMap ws
      → (sweep fl marshal store now has_subscribers ws).1
        ≡ outcomes fl marshal store now (longs_of ws) (selected has_subscribers now ws)
  sweep-outcomes ws u = rw (sweep-refresh ws) (
      refresh_all-outcomes fl marshal store now (longs_of ws) (selected has_subscribers now ws)
        (kept has_subscribers now ws)
        (selected-Held has_subscribers now ws ws u (InMap-self has_subscribers now ws u))
        (selected-Apart has_subscribers now ws u))
