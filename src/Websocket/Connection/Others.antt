-- ===== src/Websocket/Connection/Others.antt =====
-- A connection leaves the subscriptions of others as they are.
use solana_dashboard.Common.{
  ℕ, ◌<◌, ◌≤◌, ◌≡◌, refl, String, true, not, ◌&&◌, List, [], ◌∷◌, map, str_eq, arith, Bool-cases,
  Option-cases, inl, inr,
}
use solana_dashboard.Projector.Values.{is_empty}
use solana_dashboard.Realtime.Topics.{Topics, listed, listed-add_sub, listed-remove_sub}
use solana_dashboard.Websocket.Connection.{
  Connection, WsMessage, reads, find_sub, delete_sub, subscribe_topic, unsubscribe_topic,
  read_message, happen, happen_all, clean_up, open_connection,
}
use solana_dashboard.Websocket.Connection.Cleanup.{keeps, find_sub-keeps, listed-unsubscribe_all}

-- The connection holds subscriptions from `n` on, and those below are as they were in the hub.
record Spares (n : ℕ) (topics : Topics) (c : Connection) : Type 0 where
  pub own : (j : ℕ) → keeps j c.subs ≡ true → n ≤ j
  pub above : n ≤ c.next
  pub same : (t : String) (j : ℕ) → j < n → listed t j c.subscribers ≡ listed t j topics

keeps-delete_sub :
    (j : ℕ) (topic : String) (subs : List (String × ℕ))
    → keeps j (delete_sub topic subs) ≡ true
    → keeps j subs ≡ true
unfolding delete_sub
keeps-delete_sub j topic [] h = h
keeps-delete_sub j topic ((key, id) ∷ subs) h = ground (arith, h, keeps-delete_sub j topic subs)

module _ (n : ℕ) (topics : Topics) where
  subscribe_topic-Spares :
      (topic : String) (c : Connection)
      → Spares n topics c
      → Spares n topics (subscribe_topic topic c)
  unfolding subscribe_topic
  subscribe_topic-Spares topic c sp = elim (Option-cases (find_sub topic c.subs)) [
    | inr (id, e) ↦ rw (e, subscribe_topic) sp
    | inl e ↦
        rw (e, subscribe_topic)
          (record {
            own = λ j h. ground (arith, h, sp.own j, sp.above);
            above = omega (arith, sp.above);
            same = λ t j h.
                ground
                  (arith, h, sp.above, listed-add_sub t j topic c.next c.subscribers, sp.same t j);
          })
  ]

  unsubscribe_topic-Spares :
      (topic : String) (c : Connection)
      → Spares n topics c
      → Spares n topics (unsubscribe_topic topic c)
  unfolding unsubscribe_topic
  unsubscribe_topic-Spares topic c sp = elim (Option-cases (find_sub topic c.subs)) [
    | inl e ↦ rw (e, unsubscribe_topic) sp
    | inr (id, e) ↦
        rw (e, unsubscribe_topic)
          (record {
            own = λ j h. sp.own j (keeps-delete_sub j topic c.subs h);
            above = sp.above;
            same = λ t j h. ground (
              arith,
              h,
              sp.own id (find_sub-keeps topic id c.subs e),
              listed-remove_sub t j id c.subscribers,
              sp.same t j,
            );
          })
  ]

  read_message-Spares :
      (msg : WsMessage) (c : Connection) → Spares n topics c → Spares n topics (read_message msg c)
  unfolding read_message
  read_message-Spares msg c sp =
      elim (Bool-cases (str_eq msg.action "subscribe" && not (is_empty msg.topic))) [
        | inl s ↦ rw s (subscribe_topic-Spares msg.topic c sp)
        | inr s ↦
            rw s (elim (Bool-cases (str_eq msg.action "unsubscribe" && not (is_empty msg.topic))) [
              | inl u ↦ rw u (unsubscribe_topic-Spares msg.topic c sp)
              | inr u ↦ rw u sp
            ])
      ]

  messages-Spares :
      (msgs : List WsMessage) (c : Connection)
      → Spares n topics c
      → Spares n topics (happen_all (map reads msgs) c)
  unfolding happen_all happen
  messages-Spares [] c sp = sp
  messages-Spares (msg ∷ msgs) c sp =
      messages-Spares msgs (read_message msg c) (read_message-Spares msg c sp)

  open_connection-Spares : Spares n topics (open_connection topics n)
  unfolding open_connection
  open_connection-Spares = record {
    own = λ j h. ground (arith, h);
    above = omega arith;
    same = λ t j h. refl;
  }

-- A connection is opened on a hub whose subscriptions are numbered below `next`. Whatever messages it
-- sends, each of those subscriptions is in the set of a topic after the connection's cleanup exactly if it was before,
-- while nobody else changes the hub.
pub clean_up_others :
    (topics : Topics) (next : ℕ) (msgs : List WsMessage) (t : String) (j : ℕ)
    → j < next
    → listed t j (clean_up (happen_all (map reads msgs) (open_connection topics next))).subscribers
      ≡ listed t j topics
unfolding clean_up
clean_up_others topics next msgs t j old =
    let c = happen_all (map reads msgs) (open_connection topics next) in
    let sp =
      messages-Spares next topics msgs (open_connection topics next)
        (open_connection-Spares next topics) in
    ground (arith, old, listed-unsubscribe_all t j c.subs c.subscribers, sp.own j, sp.same t j)
