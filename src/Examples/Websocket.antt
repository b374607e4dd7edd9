-- ===== src/Examples/Websocket.antt =====
-- A token's log of three events, of which two are replayed, and a session that resumes.
use solana_dashboard.Common.{ℕ, ◌≡◌, refl, Bool, true, false, some, List, [], ◌∷◌, ◌++◌, arith}
use solana_dashboard.Common.Int.{pos}
use solana_dashboard.Events.{Envelope}
use solana_dashboard.Websocket.Replay.{of_mint, later, replay_topic}
use solana_dashboard.Websocket.Replay.Complete.{Rising, last_of, replay_topic_lem}
use solana_dashboard.Websocket.Session.{
  Input, live, replays, replay_done, start_session, run_session,
}
use solana_dashboard.Websocket.Session.Order.{lives, replayed, caught_up, run_session-Rising}
use solana_dashboard.Examples.Replay.{event}

abbrev logged : ℕ → Envelope
logged id =
    let e = event "swap" "a" in
    let r = e.refs in record e { log_id = pos id; refs = record r { mint = some "mint" } }

abbrev log : List Envelope
log = logged 2 ∷ logged 5 ∷ logged 7 ∷ []

abbrev room : ℕ → Bool
room n = true

replay_topic_example :
    replay_topic room 3 log "mint" (pos 2) []
    ≡ some (record {
      last = last_of (pos 2) (later (pos 2) (of_mint "mint" log));
      is_full = false;
      sent = later (pos 2) (of_mint "mint" log);
    })
unfolding of_mint later
replay_topic_example =
    replay_topic_lem room 3 log "mint" (pos 2) [] (λ n. refl)
      (omega arith, (omega arith, (omega arith, tt))) refl (omega arith)

-- The event 7 comes live while the replay has sent only 5.
abbrev inputs : List Input
inputs = replays (logged 5) ∷ live (logged 7) ∷ replays (logged 7) ∷ live (logged 9) ∷ []

run_session-Rising_example :
    (run_session room
        (inputs ++ replay_done (last_of (pos 2) (replayed inputs)) ∷ [])
        (start_session (some (pos 2)) true [])
      ≡ caught_up
          (last_of (pos 2) (replayed inputs))
          (replayed inputs ++ later (last_of (pos 2) (replayed inputs)) (lives inputs)))
    × Rising (pos 2) (replayed inputs ++ later (last_of (pos 2) (replayed inputs)) (lives inputs))
run_session-Rising_example =
    run_session-Rising room (λ n. refl) (pos 2) (pos 6) inputs refl refl
      (omega arith, (omega arith, tt)) (omega arith, (omega arith, tt))
