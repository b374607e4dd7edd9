-- ===== src/Realtime/Safety/Steps.antt =====
-- Every step keeps the invariant, and under it no operation panics.
use solana_dashboard.Common.{
  ℕ, ◌<◌, ◌≡◌, refl, inl, inr, ◌⊎◌, Bool, true, false, some, String, List, [], ◌∷◌, ◌++◌, arith,
  eq_iff, Option-cases, ltb, length, Bool-cases,
}
use solana_dashboard.Realtime.Subscription.{
  Subscription, new_subscription, mark_overflow, close_subscription,
}
use solana_dashboard.Realtime.Topics.{
  remove_sub, remove_from, listed, listed-add_sub, listed-remove_sub, listed-remove_from,
}
use solana_dashboard.Realtime.System.{
  Hub, Thread, idle, closing, reads, writes, System, NoHolder, subscribe, send_one, mark_one,
  close_one, update, with_thread, with_sub,
}
use solana_dashboard.Realtime.Safety.{
  IsSound, Inv, Knows, Exclusive, Knows-shrink, Knows-subscribe, new_subscription-IsSound,
}

-- A goroutine that moves on, with the hub as it is.
module _ {E : Type 0} (home : ℕ → String) (s : System E) (v : Inv home s) (i : ℕ)
    (th : Thread E) where
  pub moved-Inv :
      Knows home s.hub.subscribers s.hub.next th
      → Exclusive (update s.threads i th)
      → Inv home (with_thread s i th)
  moved-Inv k x = record {
    sound = v.sound;
    open_listed = v.open_listed;
    knows = λ j. ground (arith, v.knows j, k);
    exclusive = x;
  }

module _ {E : Type 0} (home : ℕ → String) (s : System E) (v : Inv home s) where
  -- The lock stays exclusive if a goroutine takes nothing that it did not hold.
  pub keeps_Exclusive :
      (i : ℕ) (th : Thread E)
      → (reads th ≡ true → reads (s.threads i) ≡ true)
      → (writes th ≡ true → writes (s.threads i) ≡ true)
      → Exclusive (update s.threads i th)
  keeps_Exclusive i th r w j k h =
      ground (arith, v.exclusive j k, v.exclusive i k, v.exclusive j i, v.exclusive i i)

  pub subscribes-Inv :
      (topic : String) (buffer : ℕ)
      → NoHolder s
      → Inv (update home s.hub.next topic) (record s { hub = subscribe topic buffer s.hub })
  unfolding subscribe new_subscription
  subscribes-Inv topic buffer free = record {
    sound = λ id. ground (arith, v.sound id, new_subscription-IsSound {E = E} buffer);
    open_listed = λ t id h. ground (
      arith,
      listed-add_sub t id topic s.hub.next s.hub.subscribers,
      eq_iff topic t,
      v.open_listed t id,
    );
    knows = λ j.
        Knows-subscribe home s.hub.subscribers s.hub.next topic (s.threads j) (free j).1
          (v.knows j);
    exclusive = v.exclusive;
  }

  pub leaves-Inv :
      (i id : ℕ)
      → s.threads i ≡ idle
      → NoHolder s
      → id < s.hub.next
      → Inv home (record {
        hub = record {
          subscribers = remove_sub id s.hub.subscribers;
          subs = s.hub.subs;
          next = s.hub.next;
        };
        threads = update s.threads i (closing id);
      })
  leaves-Inv i id at free below = record {
    sound = v.sound;
    open_listed =
        λ t j h. ground (arith, listed-remove_sub t j id s.hub.subscribers, v.open_listed t j);
    knows = λ j. ground (
      arith,
      Knows-shrink home s.hub.subscribers (remove_sub id s.hub.subscribers) s.hub.next (s.threads j)
          (λ t k h. ground (arith, listed-remove_sub t k id s.hub.subscribers)) (free j).1
          (v.knows j),
      gone,
    );
    exclusive = keeps_Exclusive i (closing id) (λ e. ground arith) (λ e. ground arith);
  }
    where
      gone :
          (id < s.hub.next) × ((t : String) → listed t id (remove_sub id s.hub.subscribers) ≡ false)
      gone = (below, λ t. ground (arith, listed-remove_sub t id id s.hub.subscribers))

  -- A change of one subscription, which stays open where it is listed.
  pub with_sub-Inv :
      (id : ℕ) (sub : Subscription E)
      → IsSound sub
      → ((t : String) → listed t id s.hub.subscribers ≡ true → sub.events.closed ≡ false)
      → Inv home (record s { hub = with_sub s.hub id sub })
  with_sub-Inv id sub sd op = record {
    sound = λ j. ground (arith, v.sound j, sd);
    open_listed = λ t j h. ground (arith, v.open_listed t j, op t);
    knows = v.knows;
    exclusive = v.exclusive;
  }

  -- A change of one subscription that leaves the map while a goroutine holds the write lock.
  pub removed-Inv :
      (topic : String) (id : ℕ) (sub : Subscription E)
      → ((j : ℕ) → reads (s.threads j) ≡ false)
      → IsSound sub
      → home id ≡ topic
      → Inv home (record s {
        hub = record {
          subscribers = remove_from topic id s.hub.subscribers;
          subs = update s.hub.subs id sub;
          next = s.hub.next;
        };
      })
  removed-Inv topic id sub free sd hm = record {
    sound = λ j. ground (arith, v.sound j, sd);
    open_listed = λ t j h. ground (
      arith,
      listed-remove_from t j topic id s.hub.subscribers,
      v.open_listed t j,
      eq_iff topic t,
    );
    knows = λ j.
        Knows-shrink home s.hub.subscribers (remove_from topic id s.hub.subscribers) s.hub.next
          (s.threads j) (λ t k h. ground (arith, listed-remove_from t k topic id s.hub.subscribers))
          (free j) (v.knows j);
    exclusive = v.exclusive;
  }

abbrev grown : {E : Type 0} → Subscription E → E → Subscription E
grown sub e = let c = sub.events in record sub { events = record c { buffer = c.buffer ++ e ∷ [] } }

-- The outcomes of the three operations on channels.
module _ {E : Type 0} (h : Hub E) (id : ℕ) where
  pub close_one-cases :
      {h' : Hub E}
      → close_one id h ≡ some h'
      → (sub : Subscription E) × (b : Bool) × (close_subscription (h.subs id) ≡ some (sub, b))
        × (h' ≡ with_sub h id sub)
  unfolding close_one
  close_one-cases {h'} e = elim (Option-cases (close_subscription (h.subs id))) [
    | inl n ↦ absurd (ground arith)
    | inr ((sub, b), q) ↦ (sub, b, q, ground arith)
  ]

  pub mark_one-cases :
      (topic : String) {h' : Hub E}
      → mark_one topic id h ≡ some h'
      → (sub : Subscription E) × (b : Bool) × (mark_overflow (h.subs id) ≡ some (sub, b))
        × (h' ≡ record {
          subscribers = remove_from topic id h.subscribers;
          subs = update h.subs id sub;
          next = h.next;
        })
  unfolding mark_one
  mark_one-cases topic {h'} e = elim (Option-cases (mark_overflow (h.subs id))) [
    | inl n ↦ absurd (ground arith)
    | inr ((sub, b), q) ↦ (sub, b, q, ground arith)
  ]

  -- A send changes no flag: the events channel is open after it, if it was open before.
  pub send_one-cases :
      (e : E) {h' : Hub E} {over : List ℕ}
      → send_one e id h ≡ some (h', over)
      → IsSound (h.subs id)
      → (sub : Subscription E) × (IsSound sub)
        × (sub.events.closed ≡ (h.subs id).events.closed)
        × ((over ≡ []) × (h' ≡ with_sub h id sub) ⊎ (over ≡ id ∷ []) × (h' ≡ h))
  unfolding send_one
  send_one-cases e {h'} {over} eq sd = elim (Bool-cases (h.subs id).events.closed) [
    | inl c ↦ absurd (ground arith)
    | inr c ↦
        elim (Bool-cases (ltb (length (h.subs id).events.buffer) (h.subs id).events.capacity)) [
          | inl r ↦ (
            grown (h.subs id) e,
            record { events_closed = sd.events_closed; overflow_closed = sd.overflow_closed },
            refl,
            inl (ground arith, ground arith),
          )
          | inr r ↦ (h.subs id, sd, refl, inr (ground arith, ground arith))
        ]
  ]
