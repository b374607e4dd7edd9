-- ===== src/Websocket/Session.antt =====
-- The goroutine of a subscribed topic in internal/httpapi/ws.go: it buffers live events while the
-- replay runs beside it, and passes them on after it. Both send into the session's channel.
pub mod Order
use solana_dashboard.Common.{
  ℕ, String, Bool, true, false, not, ◌||◌, Option, none, some, List, [], ◌∷◌, ◌++◌, if◌then◌else◌,
}
use solana_dashboard.Common.Int.{ℤ, leb_ℤ}
use solana_dashboard.Events.{Envelope}
use solana_dashboard.Websocket.Replay.{enqueue_envelope}

-- is_done: the goroutine has returned; is_closed: the connection is closed, and its context
-- cancelled.
pub record Session : Type 0 where
  pub replay_ready : Bool
  pub replay_max : ℤ
  pub buffered : List Envelope
  pub sent : List Envelope
  pub is_done : Bool
  pub is_closed : Bool

-- What the goroutine's select receives, and a send of the replay's goroutine.
pub data Input : Type 0 where
  live : Envelope → Input
  replays : Envelope → Input
  replay_done : ℤ → Input
  overflows : Input
  ends : Input

-- The state before the loop; `is_token` is strings.HasPrefix(topic, "token:").
unfoldable pub start_session : Option ℤ → Bool → List Envelope → Session
start_session none is_token sent = record {
  replay_ready = true;
  replay_max = ℤ.pos 0;
  buffered = [];
  sent = sent;
  is_done = false;
  is_closed = false;
}
start_session (some since) is_token sent =
    let ready = leb_ℤ since (ℤ.pos 0) || not is_token in
    record {
      replay_ready = ready;
      replay_max = if ready then ℤ.pos 0 else since;
      buffered = [];
      sent = sent;
      is_done = false;
      is_closed = false;
    }

module _ (room : ℕ → Bool) where
  -- A send; a full channel closes the connection.
  unfoldable pub send : Envelope → Session → Session
  send event s = elim (enqueue_envelope room event s.sent) [
    | none ↦ record s { is_closed = true }
    | some sent ↦ record s { sent = sent }
  ]

  -- The loop over the buffered events when the replay is done.
  unfoldable pub pass_buffered : List Envelope → Session → Session
  pass_buffered [] s = record s { buffered = [] }
  pass_buffered (event ∷ events) s =
      let skipped = pass_buffered events s in
      let s' = send event s in
      let passed = pass_buffered events s' in
      if leb_ℤ event.log_id s.replay_max then skipped else if s'.is_closed then s' else passed

  receive_live : Envelope → Session → Session
  receive_live event s =
      if s.replay_ready then send event s else record s { buffered = s.buffered ++ event ∷ [] }

  -- One turn of the loop, which ends when the connection is closed or the subscription is; or a
  -- send of the replay, which ends when the connection is closed.
  unfoldable pub take_turn : Input → Session → Session
  unfolding receive_live
  take_turn (replays event) s = if s.is_closed then s else send event s
  take_turn (live event) s = if s.is_closed || s.is_done then s else receive_live event s
  take_turn (replay_done max) s =
      if s.is_closed || s.is_done
      then s
      else pass_buffered s.buffered (record s { replay_max = max; replay_ready = true })
  take_turn overflows s = if s.is_closed || s.is_done then s else record s { is_closed = true }
  take_turn ends s = if s.is_closed || s.is_done then s else record s { is_done = true }

  unfoldable pub run_session : List Input → Session → Session
  run_session [] s = s
  run_session (input ∷ inputs) s = run_session inputs (take_turn input s)
