-- ===== src/Examples/Connection.antt =====
-- A connection that subscribes to two tokens and leaves one of them, beside another connection.
use solana_dashboard.Common.{ℕ, ◌<◌, ◌≡◌, refl, String, true, false, List, [], ◌∷◌, map, arith}
use solana_dashboard.Realtime.Topics.{Topics, listed, add_sub, remove_sub, without}
use solana_dashboard.Websocket.Connection.{
  Event, WsMessage, reads, another_subscribes, another_leaves, find_sub, subscribe_topic,
  unsubscribe_topic, read_message, happen, happen_all, clean_up, unsubscribe_all, delete_sub,
  open_connection,
}
use solana_dashboard.Websocket.Connection.Cleanup.{clean_up_complete}
use solana_dashboard.Websocket.Connection.Others.{clean_up_others}

abbrev message : String → String → WsMessage
message action topic = record { action = action; topic = topic }

abbrev topics : Topics
topics = ("token:a", 0 ∷ []) ∷ []

abbrev messages : List WsMessage
messages =
    message "subscribe" "token:a"
    ∷ message "subscribe" "token:b"
    ∷ message "subscribe" "token:a"
    ∷ message "unsubscribe" "token:a"
    ∷ []

abbrev happenings : List Event
happenings =
    reads (message "subscribe" "token:a")
    ∷ another_subscribes "token:b"
    ∷ reads (message "subscribe" "token:b")
    ∷ reads (message "unsubscribe" "token:a")
    ∷ another_leaves 0
    ∷ []

numbered : (t : String) (j : ℕ) → listed t j topics ≡ true → j < 1
unfolding listed
numbered t j h = ground (arith, h)

-- The read loop takes up a message after the cleanup.
abbrev late : List Event
late = reads (message "subscribe" "token:c") ∷ another_subscribes "token:b" ∷ []

clean_up_complete_example :
    listed "token:b" 3
      (happen_all late (clean_up (happen_all happenings (open_connection topics 1)))).subscribers
    ≡ false
unfolding happen_all happen read_message subscribe_topic unsubscribe_topic find_sub open_connection
clean_up_complete_example = clean_up_complete topics 1 happenings late "token:b" 3 numbered refl

-- What that message subscribed to is left in the hub.
late-listed :
    listed "token:c" 4
      (happen_all late (clean_up (happen_all happenings (open_connection topics 1)))).subscribers
    ≡ true
unfolding happen_all happen read_message subscribe_topic unsubscribe_topic find_sub open_connection
    listed clean_up unsubscribe_all add_sub remove_sub delete_sub without
late-listed = refl

clean_up_others_example :
    listed "token:a" 0
      (clean_up (happen_all (map reads messages) (open_connection topics 1))).subscribers
    ≡ listed "token:a" 0 topics
clean_up_others_example = clean_up_others topics 1 messages "token:a" 0 (omega arith)
