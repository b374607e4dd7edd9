-- ===== src/Broadcaster/Sweep/Rule.antt =====
-- The rule of Sweep in internal/broadcaster/stats.go in seconds, beside what the code computes.
use solana_dashboard.Common.{
  ℕ, ◌+◌, ◌-◌, ◌%◌, ◌<◌, ◌≡◌, refl, ap, ◌∙◌, String, Bool, true, false, not, ◌&&◌, ◌||◌, Option,
  none, some, if◌then◌else◌, ltb, leb, arith,
}
use solana_dashboard.Common.Int.{ℤ, pos, pos_part, ltb_ℤ, leb_ℤ, eqb_ℤ, IsTime, sub_int64}
use solana_dashboard.Result.{Result}
use solana_dashboard.Events.{RawMessage}
use solana_dashboard.Projector.Values.{is_empty}
use solana_dashboard.Broadcaster.Window.{Floats, TokenWindowState}
use solana_dashboard.Broadcaster.Current.{TokenStatsPayload}
use solana_dashboard.Broadcaster.Feed.{Windows, find_window}
use solana_dashboard.Broadcaster.Feed.Own.{seeded_by}
use solana_dashboard.Broadcaster.Sweep.{
  MetricsStore, recent_of, is_evicted, is_short_active, is_target, minute_of, sweep,
}
use solana_dashboard.Broadcaster.Sweep.Refresh.{asked}
use solana_dashboard.Broadcaster.Sweep.Kept.{IsMap, swept, find_window-sweep}

-- Nobody subscribes, and the last trade is more than a day old.
abbrev pub is_cold : {F : Type 0} → Bool → ℕ → TokenWindowState F → Bool
is_cold subscribed n w =
    let last = pos_part w.last_active_ts in not subscribed && ltb 0 last && ltb (last + 86400) n

-- Somebody subscribes, or the last trade is at most five minutes old, or the window was last marked
-- in another minute.
abbrev pub is_due : {F : Type 0} → Bool → ℕ → TokenWindowState F → Bool
is_due subscribed n w =
    let last = pos_part w.last_active_ts in
    subscribed
    || ltb 0 last && leb n (last + 300)
    || not (eqb_ℤ w.last_persisted_minute (pos (n - n % 60)))

cold_seconds :
    (n : ℕ) (last : ℤ)
    → n < 4611686018427387904
    → IsTime last
    → (ltb_ℤ (pos 0) last && ltb_ℤ (pos 86400) (sub_int64 (pos n) last))
      ≡ (ltb 0 (pos_part last) && ltb (pos_part last + 86400) n)
unfolding sub_int64
cold_seconds n (pos l) b t = ground (arith, t.bounded)
cold_seconds n (ℤ.negsuc l) b t = absurd (omega (arith, t.nonneg))

active_seconds :
    (n : ℕ) (last : ℤ)
    → n < 4611686018427387904
    → IsTime last
    → (ltb_ℤ (pos 0) last && leb_ℤ (sub_int64 (pos n) last) (pos 300))
      ≡ (ltb 0 (pos_part last) && leb n (pos_part last + 300))
unfolding sub_int64
active_seconds n (pos l) b t = ground (arith, t.bounded)
active_seconds n (ℤ.negsuc l) b t = absurd (omega (arith, t.nonneg))

pub minute_of_lem : (n : ℕ) → minute_of (pos n) ≡ pos (n - n % 60)
unfolding minute_of
minute_of_lem n = ap pos (omega arith)

module _ {F : Type 0} (n : ℕ) (b : n < 4611686018427387904) where
  pub is_evicted_lem :
      (subscribed : Bool) (w : TokenWindowState F)
      → IsTime w.last_active_ts
      → is_evicted subscribed (pos n) w ≡ is_cold subscribed n w
  unfolding is_evicted
  is_evicted_lem true w t = refl
  is_evicted_lem false w t = cold_seconds n w.last_active_ts b t

  pub is_target_lem :
      (subscribed : Bool) (w : TokenWindowState F)
      → IsTime w.last_active_ts
      → is_target subscribed (pos n) w ≡ is_due subscribed n w
  unfolding is_target is_short_active
  is_target_lem true w t = refl
  is_target_lem false w t =
      ap (λ a. a || not (eqb_ℤ w.last_persisted_minute (minute_of (pos n))))
        (active_seconds n w.last_active_ts b t)
      ∙ ap
          (λ m.
            ltb 0 (pos_part w.last_active_ts) && leb n (pos_part w.last_active_ts + 300)
            || not (eqb_ℤ w.last_persisted_minute m))
          (minute_of_lem n)

-- Two tests in a row are one.
tested_once :
    {A : Type 0} (a b c : Bool) (x y : A)
    → (if a && b then (if c then x else y) else x) ≡ (if a && b && not c then y else x)
tested_once a b c x y = ground arith

module _ {F : Type 0} (fl : Floats F) (marshal : TokenStatsPayload F → Result RawMessage)
    (store : Option (MetricsStore F)) (n : ℕ) (has_subscribers : String → Bool) where
  -- A window when its statistics are read: a subscribed one that was never seeded is seeded first.
  abbrev pub read_window : String → TokenWindowState F → TokenWindowState F
  read_window mint w =
      if has_subscribers mint && not w.seeded && not (is_empty mint)
      then seeded_by fl (recent_of store) mint (pos n) w
      else w

  pub asked-read_window :
      (mint : String) (w : TokenWindowState F)
      → asked fl marshal store (pos n) (record { mint = mint; subscribed = has_subscribers mint }) w
        ≡ read_window mint w
  asked-read_window mint w =
      tested_once (has_subscribers mint) (not w.seeded) (is_empty mint) w
        (seeded_by fl (recent_of store) mint (pos n) w)

  -- A window after a sweep at second n.
  abbrev pub fate : String → Option (TokenWindowState F) → Option (TokenWindowState F)
  fate mint none = none
  fate mint (some w) =
      if is_cold (has_subscribers mint) n w
      then none
      else if is_due (has_subscribers mint) n w
      then some (record (read_window mint w) { last_persisted_minute = pos (n - n % 60) })
      else some w

  swept-fate :
      (mint : String) (found : Option (TokenWindowState F))
      → n < 4611686018427387904
      → ((w : TokenWindowState F) → found ≡ some w → IsTime w.last_active_ts)
      → swept fl marshal store (pos n) has_subscribers mint found ≡ fate mint found
  swept-fate mint none b timed = refl
  swept-fate mint (some w) b timed =
      rw
        (
          is_evicted_lem n b (has_subscribers mint) w (timed w refl),
          is_target_lem n b (has_subscribers mint) w (timed w refl),
          minute_of_lem n,
        )
        (ap
          (λ (v : TokenWindowState F).
            if is_cold (has_subscribers mint) n w
            then none
            else if is_due (has_subscribers mint) n w
            then some (record v { last_persisted_minute = pos (n - n % 60) })
            else some w)
          (asked-read_window mint w))

  -- A sweep at second n, on windows with distinct mints (as a Go map has them) whose last trades have
  -- times from 0 to 2^62: a window is gone if nobody subscribes to its mint and its last trade, if it
  -- has one, is more than 86400 seconds old. It is marked with the start of the minute of n if it is
  -- not gone and somebody subscribes, or its last trade is at most 300 seconds old, or it carries
  -- another mark; and if somebody subscribes to a window that was not seeded, it takes in the stored
  -- trades of its mint first. Every other window is as it was, and no mint gets a new one.
  pub sweep-fate :
      (ws : Windows F) (mint : String)
      → n < 4611686018427387904
      → IsMap ws
      → ((w : TokenWindowState F) → find_window mint ws ≡ some w → IsTime w.last_active_ts)
      → find_window mint (sweep fl marshal store (pos n) has_subscribers ws).0
        ≡ fate mint (find_window mint ws)
  sweep-fate ws mint b u timed =
      find_window-sweep fl marshal store (pos n) has_subscribers ws mint u
      ∙ swept-fate mint (find_window mint ws) b timed
