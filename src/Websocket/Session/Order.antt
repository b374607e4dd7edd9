-- ===== src/Websocket/Session/Order.antt =====
-- Up to the end of its replay a session sends nothing twice, and everything in order.
use solana_dashboard.Common.{
  ℕ, ◌≡◌, refl, sym, ap, ◌∙◌, Bool, true, false, some, List, [], ◌∷◌, ◌++◌, length, arith,
  append_assoc, append-nil,
}
use solana_dashboard.Common.Int.{ℤ, leb_ℤ}
use solana_dashboard.Events.{Envelope}
use solana_dashboard.Websocket.Replay.{later, enqueue_envelope}
use solana_dashboard.Websocket.Replay.Complete.{Rising, last_of, Rising-later}
use solana_dashboard.Websocket.Session.{
  Session, Input, live, replays, replay_done, overflows, ends, start_session, send, pass_buffered,
  take_turn, run_session,
}

-- The live events and the replayed ones of a run, and that it holds no other inputs.
abbrev pub lives : List Input → List Envelope
lives [] = []
lives (live event ∷ inputs) = event ∷ lives inputs
lives (_ ∷ inputs) = lives inputs

abbrev pub replayed : List Input → List Envelope
replayed [] = []
replayed (replays event ∷ inputs) = event ∷ replayed inputs
replayed (_ ∷ inputs) = replayed inputs

abbrev pub during_replay : List Input → Bool
during_replay [] = true
during_replay (live event ∷ inputs) = during_replay inputs
during_replay (replays event ∷ inputs) = during_replay inputs
during_replay (_ ∷ inputs) = false

-- A session in its replay, and one whose replay is over.
abbrev waiting : ℤ → List Envelope → List Envelope → Session
waiting max buffered sent = record {
  replay_ready = false;
  replay_max = max;
  buffered = buffered;
  sent = sent;
  is_done = false;
  is_closed = false;
}

abbrev pub caught_up : ℤ → List Envelope → Session
caught_up max sent = record {
  replay_ready = true;
  replay_max = max;
  buffered = [];
  sent = sent;
  is_done = false;
  is_closed = false;
}

Rising-append :
    (lo : ℤ) (xs ys : List Envelope)
    → Rising lo xs
    → Rising (last_of lo xs) ys
    → Rising lo (xs ++ ys)
Rising-append lo [] ys h k = k
Rising-append lo (x ∷ xs) ys (h, hs) k = (h, Rising-append x.log_id xs ys hs k)

module _ (room : ℕ → Bool) (free : (n : ℕ) → room n ≡ true) where
  send-free : (x : Envelope) (s : Session) → send room x s ≡ record s { sent = s.sent ++ x ∷ [] }
  unfolding send enqueue_envelope
  send-free x s = rw (free (length s.sent), send, enqueue_envelope)

  pass_buffered-later :
      (xs : List Envelope) (s : Session)
      → s.is_closed ≡ false
      → pass_buffered room xs s ≡ record s { buffered = []; sent = s.sent ++ later s.replay_max xs }
  unfolding pass_buffered later
  pass_buffered-later [] s h = rw (append-nil s.sent)
  pass_buffered-later (x ∷ xs) s h = rw (send-free x s) ground (
    arith,
    pass_buffered-later xs s h,
    pass_buffered-later xs (record s { sent = s.sent ++ x ∷ [] }) h,
    append_assoc s.sent (x ∷ []) (later s.replay_max xs),
  )

  replay_lem :
      (inputs : List Input) (max : ℤ) (buffered sent : List Envelope) (m : ℤ)
      → during_replay inputs ≡ true
      → run_session room (inputs ++ replay_done m ∷ []) (waiting max buffered sent)
        ≡ caught_up m ((sent ++ replayed inputs) ++ later m (buffered ++ lives inputs))
  unfolding run_session take_turn
  replay_lem [] max buffered sent m h =
      pass_buffered-later buffered _ refl
      ∙ (λ i. caught_up m (sym (append-nil sent) i ++ later m (sym (append-nil buffered) i)))
  replay_lem (live x ∷ inputs) max buffered sent m h =
      replay_lem inputs max (buffered ++ x ∷ []) sent m h
      ∙ ap (λ b. caught_up m ((sent ++ replayed inputs) ++ later m b))
          (append_assoc buffered (x ∷ []) (lives inputs))
  replay_lem (replays x ∷ inputs) max buffered sent m h =
      ap (run_session room (inputs ++ replay_done m ∷ [])) (send-free x (waiting max buffered sent))
      ∙ (replay_lem inputs max buffered (sent ++ x ∷ []) m h
          ∙ ap (λ b. caught_up m (b ++ later m (buffered ++ lives inputs)))
              (append_assoc sent (x ∷ []) (replayed inputs)))
  replay_lem (replay_done _ ∷ inputs) max buffered sent m h = absurd (ground arith)
  replay_lem (overflows ∷ inputs) max buffered sent m h = absurd (ground arith)
  replay_lem (ends ∷ inputs) max buffered sent m h = absurd (ground arith)

  -- A session that resumes the topic of a token after the log id `since`, whose channel never is
  -- full. However its replay's sends and the live events interleave, when the replay is done, having
  -- sent up to its last log id, the session has sent the replayed events and then those live events
  -- that are newer; if both came in the order of their log ids, so is all that was sent: nothing
  -- twice.
  pub run_session-Rising :
      (since lo : ℤ) (inputs : List Input)
      → leb_ℤ since (ℤ.pos 0) ≡ false
      → during_replay inputs ≡ true
      → Rising since (replayed inputs)
      → Rising lo (lives inputs)
      → let m = last_of since (replayed inputs) in
        (run_session room (inputs ++ replay_done m ∷ []) (start_session (some since) true [])
          ≡ caught_up m (replayed inputs ++ later m (lives inputs)))
        × Rising since (replayed inputs ++ later m (lives inputs))
  unfolding start_session
  run_session-Rising since lo inputs resumes during rising rising' =
      let m = last_of since (replayed inputs) in
      (
        rw resumes (replay_lem inputs since [] [] m during),
        Rising-append since (replayed inputs) (later m (lives inputs)) rising
            (Rising-later m lo (lives inputs) rising'),
      )
