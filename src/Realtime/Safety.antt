-- ===== src/Realtime/Safety.antt =====
-- No goroutine of the hub ever sends on a closed channel or closes a channel twice: the invariant.
pub mod Steps
pub mod NoPanic
use solana_dashboard.Common.{
  ℕ, suc, ◌<◌, ◌≡◌, ◌≢◌, refl, sym, inl, inr, Bool, true, false, not, ◌&&◌, ◌||◌, Option, none,
  some, String, List, [], ◌∷◌, ◌++◌, ◌==◌, if◌then◌else◌, arith, eq_iff, str_eq,
}
use solana_dashboard.Realtime.Subscription.{
  Channel, Subscription, new_subscription, mark_overflow, close_subscription, make_channel,
  try_send,
}
use solana_dashboard.Realtime.Topics.{
  Topics, contains, find_topic, add_sub, remove_sub, remove_from, listed, listed-add_sub,
  listed-remove_sub, listed-remove_from, listed-find_topic,
}
use solana_dashboard.Realtime.System.{
  Hub, Thread, idle, sending, waiting, marking, closing, reads, writes, System, NoWriter, NoHolder,
  subscribe, send_one, mark_one, close_one, Step, subscribes, leaves, closes, publishes, sends,
  sent_all, locks, marks, unlocks, receives, takes_token, Panics, send_panics, mark_panics,
  close_panics, Reach, here, step, new_system, update, with_thread, with_sub, after_sends,
}

-- The flags of a subscription say which of its channels are closed.
pub record IsSound {E : Type 0} (s : Subscription E) : Type 0 where
  pub events_closed : s.events.closed ≡ (s.closed || s.overflowed)
  pub overflow_closed : s.overflow.closed ≡ s.closed

module _ {E : Type 0} where
  new_subscription-IsSound : (n : ℕ) → IsSound {E = E} (new_subscription n)
  unfolding new_subscription
  new_subscription-IsSound n = ground arith

  mark_overflow-IsSound :
      (s : Subscription E) {s' : Subscription E} {b : Bool}
      → IsSound s
      → mark_overflow s ≡ some (s', b)
      → IsSound s'
  unfolding mark_overflow
  mark_overflow-IsSound s v h = ground arith

  mark_overflow-ne-none : (s : Subscription E) → IsSound s → mark_overflow s ≢ none
  unfolding mark_overflow
  mark_overflow-ne-none s v h = ground arith

  close_subscription-IsSound :
      (s : Subscription E) {s' : Subscription E} {b : Bool}
      → IsSound s
      → close_subscription s ≡ some (s', b)
      → IsSound s'
  unfolding close_subscription
  close_subscription-IsSound s v h = ground arith

  close_subscription-ne-none : (s : Subscription E) → IsSound s → close_subscription s ≢ none
  unfolding close_subscription
  close_subscription-ne-none s v h = ground arith

-- What a goroutine knows of the map where it stands.
abbrev Pending : (ℕ → String) → ℕ → String → List ℕ → Type 0
Pending home next topic ids = (id : ℕ) → contains id ids ≡ true → (id < next) × (home id ≡ topic)

abbrev Knows : {E : Type 0} → (ℕ → String) → Topics → ℕ → Thread E → Type 0
Knows home topics next idle = Unit
Knows home topics next (sending topic e left marked) =
    ((id : ℕ) → contains id left ≡ true → listed topic id topics ≡ true)
    × Pending home next topic marked
Knows home topics next (waiting topic marked) = Pending home next topic marked
Knows home topics next (marking topic marked) = Pending home next topic marked
Knows home topics next (closing id) = (id < next) × ((t : String) → listed t id topics ≡ false)

abbrev Exclusive : {E : Type 0} → (ℕ → Thread E) → Type 0
Exclusive f = (i j : ℕ) → writes (f i) ≡ true → reads (f j) ≡ false

-- A listed subscription has been made, under that topic, and its events channel is open.
abbrev OpenListed : {E : Type 0} → (ℕ → String) → Hub E → Type 0
OpenListed home h =
    (t : String) (id : ℕ)
    → listed t id h.subscribers ≡ true
    → (id < h.next) × (home id ≡ t) × ((h.subs id).events.closed ≡ false)

record Inv {E : Type 0} (home : ℕ → String) (s : System E) : Type 0 where
  sound : (id : ℕ) → IsSound (s.hub.subs id)
  open_listed : OpenListed home s.hub
  knows : (i : ℕ) → Knows home s.hub.subscribers s.hub.next (s.threads i)
  exclusive : Exclusive s.threads

module _ {E : Type 0} (home : ℕ → String) where
  -- While the map only shrinks, whoever does not read it keeps what he knows.
  Knows-shrink :
      (topics topics' : Topics) (n : ℕ) (th : Thread E)
      → ((t : String) (j : ℕ) → listed t j topics' ≡ true → listed t j topics ≡ true)
      → reads th ≡ false
      → Knows home topics n th
      → Knows home topics' n th
  Knows-shrink topics topics' n idle h r k = tt
  Knows-shrink topics topics' n (sending topic e left marked) h r k = ground arith
  Knows-shrink topics topics' n (waiting topic marked) h r k = k
  Knows-shrink topics topics' n (marking topic marked) h r k = k
  Knows-shrink topics topics' n (closing id) h r k = (k.0, λ t. ground (arith, h t id, k.1 t))

  Knows-subscribe :
      (topics : Topics) (n : ℕ) (topic : String) (th : Thread E)
      → reads th ≡ false
      → Knows home topics n th
      → Knows (update home n topic) (add_sub topic n topics) (suc n) th
  Knows-subscribe topics n topic idle r k = tt
  Knows-subscribe topics n topic (sending t e left marked) r k = ground arith
  Knows-subscribe topics n topic (waiting t marked) r k = λ id c. ground (arith, k id c)
  Knows-subscribe topics n topic (marking t marked) r k = λ id c. ground (arith, k id c)
  Knows-subscribe topics n topic (closing id) r k =
      (omega arith, λ t. ground (arith, k.1 t, listed-add_sub t id topic n topics))
