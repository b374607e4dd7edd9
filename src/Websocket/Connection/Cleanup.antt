-- ===== src/Websocket/Connection/Cleanup.antt =====
-- A connection that ends leaves no subscription of its own in the hub.
use solana_dashboard.Common.{
  ℕ, ◌<◌, ◌≡◌, String, Bool, true, false, not, ◌&&◌, ◌||◌, none, some, List, [], ◌∷◌, ◌==◌, str_eq,
  eq_iff, if◌then◌else◌, arith, Bool-cases, Option-cases, inl, inr,
}
use solana_dashboard.Projector.Values.{is_empty}
use solana_dashboard.Realtime.Topics.{
  Topics, contains, listed, remove_sub, listed-add_sub, listed-remove_sub, listed-remove_from,
}
use solana_dashboard.Websocket.Connection.{
  Connection, Event, WsMessage, reads, another_subscribes, another_leaves, overflows, find_sub,
  delete_sub, subscribe_topic, unsubscribe_topic, read_message, happen, happen_all, unsubscribe_all,
  clean_up, open_connection,
}

-- The hub numbers its subscriptions upwards, and a subscription of the connection that is in the set
-- of a topic is the one that the connection holds for the topic.
record Tracks (c : Connection) : Type 0 where
  pub below : (t : String) (j : ℕ) → listed t j c.subscribers ≡ true → j < c.next
  pub made_below : (j : ℕ) → contains j c.made ≡ true → j < c.next
  pub held :
      (t : String) (j : ℕ)
      → contains j c.made ≡ true
      → listed t j c.subscribers ≡ true
      → find_sub t c.subs ≡ some j

find-delete_sub :
    (t topic : String) (subs : List (String × ℕ))
    → find_sub t (delete_sub topic subs) ≡ (if str_eq topic t then none else find_sub t subs)
unfolding find_sub delete_sub
find-delete_sub t topic [] = ground arith
find-delete_sub t topic ((key, id) ∷ subs) =
    ground (arith, eq_iff key t, eq_iff key topic, eq_iff topic t, find-delete_sub t topic subs)

subscribe_topic-Tracks :
    (topic : String) (c : Connection) → Tracks c → Tracks (subscribe_topic topic c)
unfolding subscribe_topic find_sub
subscribe_topic-Tracks topic c tr = elim (Option-cases (find_sub topic c.subs)) [
  | inr (id, e) ↦ rw (e, subscribe_topic) tr
  | inl e ↦
      rw (e, subscribe_topic)
        (record {
          below = λ t j h.
              ground (arith, listed-add_sub t j topic c.next c.subscribers, h, tr.below t j);
          made_below = λ j h. ground (arith, h, tr.made_below j);
          held = λ t j m h. ground (
            arith,
            m,
            h,
            e,
            eq_iff topic t,
            listed-add_sub t j topic c.next c.subscribers,
            tr.below t j,
            tr.made_below j,
            tr.held t j,
          );
        })
]

unsubscribe_topic-Tracks :
    (topic : String) (c : Connection) → Tracks c → Tracks (unsubscribe_topic topic c)
unfolding unsubscribe_topic
unsubscribe_topic-Tracks topic c tr = elim (Option-cases (find_sub topic c.subs)) [
  | inl e ↦ rw (e, unsubscribe_topic) tr
  | inr (id, e) ↦
      rw (e, unsubscribe_topic)
        (record {
          below = λ t j h. ground (arith, listed-remove_sub t j id c.subscribers, h, tr.below t j);
          made_below = tr.made_below;
          held = λ t j m h. ground (
            arith,
            m,
            h,
            e,
            eq_iff topic t,
            listed-remove_sub t j id c.subscribers,
            find-delete_sub t topic c.subs,
            tr.held t j,
          );
        })
]

read_message-Tracks : (msg : WsMessage) (c : Connection) → Tracks c → Tracks (read_message msg c)
unfolding read_message
read_message-Tracks msg c tr =
    elim (Bool-cases (str_eq msg.action "subscribe" && not (is_empty msg.topic))) [
      | inl s ↦ rw s (subscribe_topic-Tracks msg.topic c tr)
      | inr s ↦
          rw s (elim (Bool-cases (str_eq msg.action "unsubscribe" && not (is_empty msg.topic))) [
            | inl u ↦ rw u (unsubscribe_topic-Tracks msg.topic c tr)
            | inr u ↦ rw u tr
          ])
    ]

happen-Tracks : (e : Event) (c : Connection) → Tracks c → Tracks (happen e c)
unfolding happen
happen-Tracks (reads msg) c tr = read_message-Tracks msg c tr
happen-Tracks (another_subscribes topic) c tr = record {
  below = λ t j h. ground (arith, listed-add_sub t j topic c.next c.subscribers, h, tr.below t j);
  made_below = λ j h. ground (arith, h, tr.made_below j);
  held = λ t j m h.
      ground
        (arith, m, h, listed-add_sub t j topic c.next c.subscribers, tr.made_below j, tr.held t j);
}
happen-Tracks (another_leaves id) c tr = record {
  below = λ t j h. ground (arith, listed-remove_sub t j id c.subscribers, h, tr.below t j);
  made_below = tr.made_below;
  held = λ t j m h. ground (arith, m, h, listed-remove_sub t j id c.subscribers, tr.held t j);
}
happen-Tracks (overflows topic id) c tr = record {
  below = λ t j h. ground (arith, listed-remove_from t j topic id c.subscribers, h, tr.below t j);
  made_below = tr.made_below;
  held =
      λ t j m h. ground (arith, m, h, listed-remove_from t j topic id c.subscribers, tr.held t j);
}

happen_all-Tracks : (es : List Event) (c : Connection) → Tracks c → Tracks (happen_all es c)
unfolding happen_all
happen_all-Tracks [] c tr = tr
happen_all-Tracks (e ∷ es) c tr = happen_all-Tracks es (happen e c) (happen-Tracks e c tr)

-- Is a subscription in the connection's map?
abbrev pub keeps : ℕ → List (String × ℕ) → Bool
keeps j [] = false
keeps j ((topic, id) ∷ subs) = j == id || keeps j subs

pub find_sub-keeps :
    (t : String) (j : ℕ) (subs : List (String × ℕ)) → find_sub t subs ≡ some j → keeps j subs ≡ true
unfolding find_sub
find_sub-keeps t j [] h = ground (arith, h)
find_sub-keeps t j ((key, id) ∷ subs) h = ground (arith, h, find_sub-keeps t j subs)

pub listed-unsubscribe_all :
    (t : String) (j : ℕ) (subs : List (String × ℕ)) (topics : Topics)
    → listed t j (unsubscribe_all subs topics) ≡ (listed t j topics && not (keeps j subs))
unfolding unsubscribe_all
listed-unsubscribe_all t j [] topics = ground arith
listed-unsubscribe_all t j ((topic, id) ∷ subs) topics =
    ground (
      arith,
      listed-unsubscribe_all t j subs (remove_sub id topics),
      listed-remove_sub t j id topics,
    )

open_connection-Tracks :
    (topics : Topics) (next : ℕ)
    → ((t : String) (j : ℕ) → listed t j topics ≡ true → j < next)
    → Tracks (open_connection topics next)
unfolding open_connection
open_connection-Tracks topics next fresh = record {
  below = fresh;
  made_below = λ j h. ground (arith, h);
  held = λ t j m h. ground (arith, m);
}

-- Nothing lists a subscription.
Gone : ℕ → Connection → Type 0
Gone j c = (t : String) → listed t j c.subscribers ≡ false

subscribe_topic-Gone :
    (topic : String) (c : Connection) (j : ℕ)
    → j < c.next
    → Gone j c
    → Gone j (subscribe_topic topic c) × (j < (subscribe_topic topic c).next)
unfolding subscribe_topic Gone
subscribe_topic-Gone topic c j old gone = elim (Option-cases (find_sub topic c.subs)) [
  | inr (id, e) ↦ rw (e, subscribe_topic) (gone, old)
  | inl e ↦
      rw (e, subscribe_topic)
        (
          λ t. ground (arith, listed-add_sub t j topic c.next c.subscribers, gone t, old),
          omega (arith, old),
        )
]

unsubscribe_topic-Gone :
    (topic : String) (c : Connection) (j : ℕ)
    → j < c.next
    → Gone j c
    → Gone j (unsubscribe_topic topic c) × (j < (unsubscribe_topic topic c).next)
unfolding unsubscribe_topic Gone
unsubscribe_topic-Gone topic c j old gone = elim (Option-cases (find_sub topic c.subs)) [
  | inl e ↦ rw (e, unsubscribe_topic) (gone, old)
  | inr (id, e) ↦
      rw (e, unsubscribe_topic)
        (λ t. ground (arith, listed-remove_sub t j id c.subscribers, gone t), old)
]

-- Only a new subscription is listed anew, and its number is new.
happen-Gone :
    (e : Event) (c : Connection) (j : ℕ)
    → j < c.next
    → Gone j c
    → Gone j (happen e c) × (j < (happen e c).next)
unfolding happen Gone read_message subscribe_topic unsubscribe_topic
happen-Gone (reads msg) c j old gone =
    elim (Bool-cases (str_eq msg.action "subscribe" && not (is_empty msg.topic))) [
      | inl s ↦ rw s (subscribe_topic-Gone msg.topic c j old gone)
      | inr s ↦
          rw s (elim (Bool-cases (str_eq msg.action "unsubscribe" && not (is_empty msg.topic))) [
            | inl u ↦ rw u (unsubscribe_topic-Gone msg.topic c j old gone)
            | inr u ↦ rw u (gone, old)
          ])
    ]
happen-Gone (another_subscribes topic) c j old gone = (
  λ t. ground (arith, listed-add_sub t j topic c.next c.subscribers, gone t, old),
  omega (arith, old),
)
happen-Gone (another_leaves id) c j old gone =
    (λ t. ground (arith, listed-remove_sub t j id c.subscribers, gone t), old)
happen-Gone (overflows topic id) c j old gone =
    (λ t. ground (arith, listed-remove_from t j topic id c.subscribers, gone t), old)

happen_all-Gone :
    (es : List Event) (c : Connection) (j : ℕ) → j < c.next → Gone j c → Gone j (happen_all es c)
unfolding happen_all
happen_all-Gone [] c j old gone = gone
happen_all-Gone (e ∷ es) c j old gone =
    let (gone', old') = happen-Gone e c j old gone in happen_all-Gone es (happen e c) j old' gone'

clean_up-Gone :
    (c : Connection) (j : ℕ)
    → Tracks c
    → contains j c.made ≡ true
    → Gone j (clean_up c) × (j < (clean_up c).next)
unfolding Gone clean_up
clean_up-Gone c j tr m = (
  λ t. ground (
    arith,
    m,
    listed-unsubscribe_all t j c.subs c.subscribers,
    find_sub-keeps t j c.subs,
    tr.held t j,
  ),
  tr.made_below j m,
)

-- A connection is opened on a hub whose subscriptions are numbered below `next`. Whatever messages it
-- sends, and whatever others subscribe, leave or overflow meanwhile, when its cleanup runs it takes
-- every subscription that the connection made until then out of every topic; and they stay out,
-- whatever happens later, also if its read loop takes up messages after the cleanup. Nothing is said
-- of a subscription that such a late message makes.
pub clean_up_complete :
    (topics : Topics) (next : ℕ) (before after : List Event) (t : String) (j : ℕ)
    → ((u : String) (i : ℕ) → listed u i topics ≡ true → i < next)
    → contains j (happen_all before (open_connection topics next)).made ≡ true
    → listed t j
        (happen_all after (clean_up (happen_all before (open_connection topics next)))).subscribers
      ≡ false
unfolding Gone
clean_up_complete topics next before after t j fresh m =
    let c = happen_all before (open_connection topics next) in
    let tr =
      happen_all-Tracks before (open_connection topics next)
        (open_connection-Tracks topics next fresh) in
    let (gone, old) = clean_up-Gone c j tr m in happen_all-Gone after (clean_up c) j old gone t
