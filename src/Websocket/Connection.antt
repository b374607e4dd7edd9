-- ===== src/Websocket/Connection.antt =====
-- The subscriptions of one websocket connection: the read loop of ServeWS and its deferred cleanup in
-- internal/httpapi/ws.go, on the hub's map of subscriptions. The channels of a subscription are
-- Realtime's, the goroutine of a topic is Websocket.Session's, and the first snapshot is left out.
pub mod Cleanup
pub mod Others
use solana_dashboard.Common.{
  ℕ, suc, String, Bool, true, false, not, ◌&&◌, Option, none, some, List, [], ◌∷◌, str_eq,
  if◌then◌else◌,
}
use solana_dashboard.Projector.Values.{is_empty}
use solana_dashboard.Realtime.Topics.{Topics, add_sub, remove_sub, remove_from}

-- subs: the connection's own map; subscribers, next: the hub's; made: what the hub gave this
-- connection so far.
pub record Connection : Type 0 where
  pub subs : List (String × ℕ)
  pub subscribers : Topics
  pub next : ℕ
  pub made : List ℕ

-- WSMessage, as far as the table of subscriptions depends on it.
pub record WsMessage : Type 0 where
  pub action : String
  pub topic : String

-- What happens to the hub while the connection is open: a message of the connection, or Subscribe,
-- Unsubscribe and an overflow in Publish that others cause.
pub data Event : Type 0 where
  reads : WsMessage → Event
  another_subscribes : String → Event
  another_leaves : ℕ → Event
  overflows : String → ℕ → Event

unfoldable pub find_sub : String → List (String × ℕ) → Option ℕ
find_sub topic [] = none
find_sub topic ((key, id) ∷ subs) = if str_eq key topic then some id else find_sub topic subs

-- delete(subs, topic)
unfoldable pub delete_sub : String → List (String × ℕ) → List (String × ℕ)
delete_sub topic [] = []
delete_sub topic ((key, id) ∷ subs) =
    let rest = delete_sub topic subs in if str_eq key topic then rest else (key, id) ∷ rest

-- The case of a subscribe message.
unfoldable pub subscribe_topic : String → Connection → Connection
subscribe_topic topic c = elim (find_sub topic c.subs) [
  | some id ↦ c
  | none ↦ record {
    subs = (topic, c.next) ∷ c.subs;
    subscribers = add_sub topic c.next c.subscribers;
    next = suc c.next;
    made = c.next ∷ c.made;
  }
]

-- The case of an unsubscribe message.
unfoldable pub unsubscribe_topic : String → Connection → Connection
unsubscribe_topic topic c = elim (find_sub topic c.subs) [
  | none ↦ c
  | some id ↦ record c { subs = delete_sub topic c.subs; subscribers = remove_sub id c.subscribers }
]

-- One round of the read loop.
unfoldable pub read_message : WsMessage → Connection → Connection
read_message msg c =
    if str_eq msg.action "subscribe" && not (is_empty msg.topic)
    then subscribe_topic msg.topic c
    else if str_eq msg.action "unsubscribe" && not (is_empty msg.topic)
    then unsubscribe_topic msg.topic c
    else c

unfoldable pub happen : Event → Connection → Connection
happen (reads msg) c = read_message msg c
happen (another_subscribes topic) c = record c {
  subscribers = add_sub topic c.next c.subscribers;
  next = suc c.next;
}
happen (another_leaves id) c = record c { subscribers = remove_sub id c.subscribers }
happen (overflows topic id) c = record c { subscribers = remove_from topic id c.subscribers }

unfoldable pub happen_all : List Event → Connection → Connection
happen_all [] c = c
happen_all (e ∷ es) c = happen_all es (happen e c)

-- The loop of the deferred cleanup.
unfoldable pub unsubscribe_all : List (String × ℕ) → Topics → Topics
unsubscribe_all [] topics = topics
unsubscribe_all ((topic, id) ∷ subs) topics = unsubscribe_all subs (remove_sub id topics)

unfoldable pub clean_up : Connection → Connection
clean_up c = record c { subscribers = unsubscribe_all c.subs c.subscribers }

-- A new connection on a hub.
unfoldable pub open_connection : Topics → ℕ → Connection
open_connection topics next = record { subs = []; subscribers = topics; next = next; made = [] }
