-- ===== src/Realtime/System.antt =====
-- The hub as a system of goroutines. Each step is one critical section, or one send of Publish:
-- Publish sends one by one under the read lock, gives it up, takes the write lock, and removes and
-- marks the full subscriptions one by one; Unsubscribe leaves the map under the write lock and
-- closes the subscription after it. sync.RWMutex is taken at its word: a writer excludes everybody.
use solana_dashboard.Common.{
  ℕ, suc, ◌<◌, ◌≡◌, Bool, true, false, Option, none, some, String, List, [], ◌∷◌, ◌++◌, ◌==◌,
  if◌then◌else◌,
}
use solana_dashboard.Realtime.Subscription.{
  sent, full, panicked, try_send, receive, Subscription, new_subscription, mark_overflow,
  close_subscription,
}
use solana_dashboard.Realtime.Topics.{Topics, find_topic, add_sub, remove_sub, remove_from}

abbrev pub update {ℓ} : {A : Type ℓ} → (ℕ → A) → ℕ → A → ℕ → A
update f i a j = if j == i then a else f j

-- The subscriptions that were made so far are numbered below `next`.
pub record Hub (E : Type 0) : Type 0 where
  pub subscribers : Topics
  pub subs : ℕ → Subscription E
  pub next : ℕ

-- Where a goroutine stands in Publish or Unsubscribe.
pub data Thread (E : Type 0) : Type 0 where
  idle : Thread E
  sending : String → E → List ℕ → List ℕ → Thread E
  waiting : String → List ℕ → Thread E
  marking : String → List ℕ → Thread E
  closing : ℕ → Thread E

abbrev pub reads : {E : Type 0} → Thread E → Bool
reads (sending _ _ _ _) = true
reads _ = false

abbrev pub writes : {E : Type 0} → Thread E → Bool
writes (marking _ _) = true
writes _ = false

pub record System (E : Type 0) : Type 0 where
  pub hub : Hub E
  pub threads : ℕ → Thread E

-- sync.RWMutex: who may take the read lock and the write lock.
abbrev pub NoWriter : {E : Type 0} → System E → Type 0
NoWriter s = (i : ℕ) → writes (s.threads i) ≡ false

abbrev pub NoHolder : {E : Type 0} → System E → Type 0
NoHolder s = (i : ℕ) → (writes (s.threads i) ≡ false) × (reads (s.threads i) ≡ false)

module _ {E : Type 0} where
  abbrev pub with_thread : System E → ℕ → Thread E → System E
  with_thread s i th = record s { threads = update s.threads i th }

  abbrev pub with_sub : Hub E → ℕ → Subscription E → Hub E
  with_sub h id sub = record h { subs = update h.subs id sub }

  -- Subscribe
  unfoldable pub subscribe : String → ℕ → Hub E → Hub E
  subscribe topic buffer h = record {
    subscribers = add_sub topic h.next h.subscribers;
    subs = update h.subs h.next (new_subscription buffer);
    next = suc h.next;
  }

  -- One send of Publish: the hub, and the subscription if its channel is full.
  unfoldable pub send_one : E → ℕ → Hub E → Option (Hub E × List ℕ)
  send_one e id h =
      let sub = h.subs id in
      elim (try_send sub.events e) [
        | sent events ↦ some (with_sub h id (record sub { events = events }), [])
        | full ↦ some (h, id ∷ [])
        | panicked ↦ none
      ]

  -- One round of the loop over the full subscriptions.
  unfoldable pub mark_one : String → ℕ → Hub E → Option (Hub E)
  mark_one topic id h = elim (mark_overflow (h.subs id)) [
    | none ↦ none
    | some (sub, _) ↦
        let h' = with_sub h id sub in
        some (record h' { subscribers = remove_from topic id h.subscribers })
  ]

  -- sub.close() at the end of Unsubscribe.
  unfoldable pub close_one : ℕ → Hub E → Option (Hub E)
  close_one id h = elim (close_subscription (h.subs id)) [
    | none ↦ none
    | some (sub, _) ↦ some (with_sub h id sub)
  ]

  abbrev pub take_event : Subscription E → Subscription E
  take_event sub = record sub { events = receive sub.events }

  abbrev pub take_token : Subscription E → Subscription E
  take_token sub = record sub { overflow = receive sub.overflow }

  abbrev pub after_sends : String → List ℕ → Thread E
  after_sends topic [] = idle
  after_sends topic (id ∷ ids) = waiting topic (id ∷ ids)

  pub data Step (s : System E) : System E → Type 0 where
    subscribes :
        (topic : String) (buffer : ℕ)
        → NoHolder s
        → Step s (record s { hub = subscribe topic buffer s.hub })
    leaves :
        (i id : ℕ)
        → s.threads i ≡ idle
        → NoHolder s
        → id < s.hub.next
        → Step s (record {
          hub = record {
            subscribers = remove_sub id s.hub.subscribers;
            subs = s.hub.subs;
            next = s.hub.next;
          };
          threads = update s.threads i (closing id);
        })
    closes :
        (i id : ℕ) {h : Hub E}
        → s.threads i ≡ closing id
        → close_one id s.hub ≡ some h
        → Step s (record { hub = h; threads = update s.threads i idle })
    publishes :
        (i : ℕ) (topic : String) (e : E) (ids : List ℕ)
        → s.threads i ≡ idle
        → NoWriter s
        → find_topic topic s.hub.subscribers ≡ some ids
        → Step s (with_thread s i (sending topic e ids []))
    sends :
        (i : ℕ) (topic : String) (e : E) (id : ℕ) (left marked over : List ℕ) {h : Hub E}
        → s.threads i ≡ sending topic e (id ∷ left) marked
        → send_one e id s.hub ≡ some (h, over)
        → Step s (record {
          hub = h;
          threads = update s.threads i (sending topic e left (marked ++ over));
        })
    sent_all :
        (i : ℕ) (topic : String) (e : E) (marked : List ℕ)
        → s.threads i ≡ sending topic e [] marked
        → Step s (with_thread s i (after_sends topic marked))
    locks :
        (i : ℕ) (topic : String) (marked : List ℕ)
        → s.threads i ≡ waiting topic marked
        → NoHolder s
        → Step s (with_thread s i (marking topic marked))
    marks :
        (i : ℕ) (topic : String) (id : ℕ) (left : List ℕ) {h : Hub E}
        → s.threads i ≡ marking topic (id ∷ left)
        → mark_one topic id s.hub ≡ some h
        → Step s (record { hub = h; threads = update s.threads i (marking topic left) })
    unlocks :
        (i : ℕ) (topic : String) → s.threads i ≡ marking topic [] → Step s (with_thread s i idle)
    -- A consumer takes an event, or the overflow token.
    receives : (id : ℕ) → Step s (record s { hub = with_sub s.hub id (take_event (s.hub.subs id)) })
    takes_token :
        (id : ℕ) → Step s (record s { hub = with_sub s.hub id (take_token (s.hub.subs id)) })

  -- A goroutine's next operation on a channel panics.
  pub data Panics (s : System E) : Type 0 where
    send_panics :
        (i : ℕ) (topic : String) (e : E) (id : ℕ) (left marked : List ℕ)
        → s.threads i ≡ sending topic e (id ∷ left) marked
        → send_one e id s.hub ≡ none
        → Panics s
    mark_panics :
        (i : ℕ) (topic : String) (id : ℕ) (left : List ℕ)
        → s.threads i ≡ marking topic (id ∷ left)
        → mark_one topic id s.hub ≡ none
        → Panics s
    close_panics : (i id : ℕ) → s.threads i ≡ closing id → close_one id s.hub ≡ none → Panics s

  pub data Reach (s : System E) : System E → Type 0 where
    here : Reach s s
    step : {t u : System E} → Reach s t → Step t u → Reach s u

  -- NewHub, with nothing running.
  unfoldable pub new_system : System E
  new_system = record {
    hub = record { subscribers = []; subs = λ _. new_subscription 0; next = 0 };
    threads = λ _. idle;
  }
