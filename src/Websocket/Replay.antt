-- ===== src/Websocket/Replay.antt =====
-- replayTopic and enqueueEnvelope of internal/httpapi/ws.go, with the query of the log by mint of
-- internal/store/service_event.go. Whether the session's channel has room for its n-th envelope is
-- up to the write loop and the other topics: `room` says it. The context is not cancelled.
pub mod Complete
use solana_dashboard.Common.{
  ℕ, zero, suc, ◌+◌, String, Bool, true, false, Option, none, some, List, [], ◌∷◌, ◌++◌, length,
  take, ltb, if◌then◌else◌, str_eq,
}
use solana_dashboard.Common.Int.{ℤ, ltb_ℤ}
use solana_dashboard.Events.{Envelope, EventRefs}

-- where refs->>'mint' = $1
abbrev is_of : String → Option String → Bool
is_of mint none = false
is_of mint (some m) = str_eq m mint

unfoldable pub of_mint : String → List Envelope → List Envelope
of_mint mint [] = []
of_mint mint (event ∷ log) =
    if is_of mint event.refs.mint then event ∷ of_mint mint log else of_mint mint log

-- and log_id > $2 order by log_id asc
unfoldable pub later : ℤ → List Envelope → List Envelope
later after [] = []
later after (event ∷ log) =
    if ltb_ℤ after event.log_id then event ∷ later after log else later after log

-- ListServiceEventsByMintAfterLogID, on a log in the order of log ids
unfoldable pub list_by_mint_after_log_id : List Envelope → String → ℤ → ℕ → List Envelope
list_by_mint_after_log_id log mint after limit = take limit (later after (of_mint mint log))

abbrev pub replay_batch_limit : ℕ
replay_batch_limit = 512

-- What was sent, and what replayTopic returns: the last log id, and whether the channel was full.
pub record Replay : Type 0 where
  pub last : ℤ
  pub is_full : Bool
  pub sent : List Envelope

module _ (room : ℕ → Bool) where
  -- enqueueEnvelope
  unfoldable pub enqueue_envelope : Envelope → List Envelope → Option (List Envelope)
  enqueue_envelope event sent = if room (length sent) then some (sent ++ event ∷ []) else none

  -- The loop over a batch.
  unfoldable pub send_batch : List Envelope → ℤ → List Envelope → Replay
  send_batch [] last sent = record { last = last; is_full = false; sent = sent }
  send_batch (event ∷ events) last sent =
      let last' = if ltb_ℤ last event.log_id then event.log_id else last in
      elim (enqueue_envelope event sent) [
        | none ↦ record { last = last'; is_full = true; sent = sent }
        | some sent' ↦ send_batch events last' sent'
      ]

  unfoldable pub after_batch : ℕ → (ℤ → List Envelope → Option Replay) → Replay → Option Replay
  after_batch size again r =
      if r.is_full
      then some r
      else if ltb size replay_batch_limit
      then some r
      else again r.last r.sent

  after_list :
      List Envelope → ℤ → List Envelope → (ℤ → List Envelope → Option Replay) → Option Replay
  after_list [] last sent again = some (record { last = last; is_full = false; sent = sent })
  after_list (event ∷ events) last sent again =
      after_batch (length (event ∷ events)) again (send_batch (event ∷ events) last sent)

  -- The loop over the batches, with fuel; none is the end of the fuel.
  unfoldable pub replay_loop : ℕ → List Envelope → String → ℤ → List Envelope → Option Replay
  unfolding after_list
  replay_loop zero log mint last sent = none
  replay_loop (suc fuel) log mint last sent =
      after_list (list_by_mint_after_log_id log mint last replay_batch_limit) last sent
        (λ last' sent'. replay_loop fuel log mint last' sent')

  -- replayTopic for the topic "token:" ++ mint, on a log that does not fail
  unfoldable pub replay_topic : ℕ → List Envelope → String → ℤ → List Envelope → Option Replay
  replay_topic fuel log mint after sent =
      if str_eq mint ""
      then some (record { last = after; is_full = false; sent = sent })
      else replay_loop fuel log mint after sent
