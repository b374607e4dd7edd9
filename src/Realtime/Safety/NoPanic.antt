-- ===== src/Realtime/Safety/NoPanic.antt =====
-- No goroutine of the hub ever sends on a closed channel or closes a channel twice.
use solana_dashboard.Common.{
  ℕ, ◌≡◌, refl, inl, inr, ◌⊎◌, true, ◌||◌, some, String, List, [], ◌∷◌, ◌++◌, arith, subst,
}
use solana_dashboard.Realtime.Topics.{contains, find_topic, remove_from, listed, listed-find_topic}
use solana_dashboard.Realtime.System.{
  Hub, Thread, idle, sending, waiting, marking, closing, System, NoWriter, NoHolder, send_one,
  mark_one, close_one, Step, subscribes, leaves, closes, publishes, sends, sent_all, locks, marks,
  unlocks, receives, takes_token, Panics, send_panics, mark_panics, close_panics, Reach, here, step,
  new_system, update, with_thread, with_sub, after_sends, take_event, take_token,
}
use solana_dashboard.Realtime.Safety.{
  Inv, Knows, Exclusive, new_subscription-IsSound, mark_overflow-IsSound, mark_overflow-ne-none,
  close_subscription-IsSound, close_subscription-ne-none,
}
use solana_dashboard.Realtime.Safety.Steps.{
  moved-Inv, keeps_Exclusive, subscribes-Inv, leaves-Inv, with_sub-Inv, removed-Inv,
  close_one-cases, mark_one-cases, send_one-cases,
}

contains-append :
    (j : ℕ) (xs ys : List ℕ) → contains j (xs ++ ys) ≡ (contains j xs || contains j ys)
contains-append j [] ys = refl
contains-append j (x ∷ xs) ys = ground (arith, contains-append j xs ys)

-- The invariant, whatever the topics of the subscriptions are.
abbrev Kept : {E : Type 0} → System E → Type 0
Kept s = (home : ℕ → String) × Inv home s

at_hub :
    {E : Type 0} {home : ℕ → String} {threads : ℕ → Thread E} {h h' : Hub E}
    → h ≡ h'
    → Inv home (record { hub = h'; threads = threads })
    → Inv home (record { hub = h; threads = threads })
at_hub e v = rw e v

module _ {E : Type 0} (home : ℕ → String) (s : System E) (v : Inv home s) (i : ℕ) where
  known : {th : Thread E} → s.threads i ≡ th → Knows home s.hub.subscribers s.hub.next th
  known e = subst (Knows home s.hub.subscribers s.hub.next) e (v.knows i)

  closes-Inv :
      (id : ℕ) {h : Hub E}
      → s.threads i ≡ closing id
      → close_one id s.hub ≡ some h
      → Inv home (record { hub = h; threads = update s.threads i idle })
  closes-Inv id at eq =
      let (sub, b, q, e) = close_one-cases s.hub id eq in
      at_hub e (
        moved-Inv home (record s { hub = with_sub s.hub id sub })
          (with_sub-Inv home s v id sub (close_subscription-IsSound (s.hub.subs id) (v.sound id) q)
            (λ t l. ground (arith, (known at).1 t)))
          i idle tt (keeps_Exclusive home s v i idle (λ e. ground arith) (λ e. ground arith)))

  publishes-Inv :
      (topic : String) (e : E) (ids : List ℕ)
      → s.threads i ≡ idle
      → NoWriter s
      → find_topic topic s.hub.subscribers ≡ some ids
      → Inv home (with_thread s i (sending topic e ids []))
  publishes-Inv topic e ids at free found =
      moved-Inv home s v i (sending topic e ids []) (k, λ j h. ground arith) x
    where
      k : (id : ℕ) → contains id ids ≡ true → listed topic id s.hub.subscribers ≡ true
      k id c = listed-find_topic topic id s.hub.subscribers ids found c

      x : Exclusive (update s.threads i (sending topic e ids []))
      x j k h = ground (arith, free j)

  sent_all-Inv :
      (topic : String) (e : E) (marked : List ℕ)
      → s.threads i ≡ sending topic e [] marked
      → Inv home (with_thread s i (after_sends topic marked))
  sent_all-Inv topic e [] at =
      moved-Inv home s v i idle tt
        (keeps_Exclusive home s v i idle (λ e. ground arith) (λ e. ground arith))
  sent_all-Inv topic e (m ∷ ms) at =
      moved-Inv home s v i (waiting topic (m ∷ ms)) (known at).1 (
        keeps_Exclusive home s v i (waiting topic (m ∷ ms)) (λ e. ground arith) (λ e. ground arith))

  locks-Inv :
      (topic : String) (marked : List ℕ)
      → s.threads i ≡ waiting topic marked
      → NoHolder s
      → Inv home (with_thread s i (marking topic marked))
  locks-Inv topic marked at free =
      moved-Inv home s v i (marking topic marked) (known at) (λ j k h. ground (arith, free k))

  marks-Inv :
      (topic : String) (id : ℕ) (left : List ℕ) {h : Hub E}
      → s.threads i ≡ marking topic (id ∷ left)
      → mark_one topic id s.hub ≡ some h
      → Inv home (record { hub = h; threads = update s.threads i (marking topic left) })
  marks-Inv topic id left at eq =
      let (sub, b, q, e) = mark_one-cases s.hub id topic eq in
      at_hub e (
        moved-Inv home
          (record s {
            hub = record {
              subscribers = remove_from topic id s.hub.subscribers;
              subs = update s.hub.subs id sub;
              next = s.hub.next;
            };
          })
          (removed-Inv home s v topic id sub (λ j. v.exclusive i j (ground arith))
            (mark_overflow-IsSound (s.hub.subs id) (v.sound id) q) (ground (arith, known at id)))
          i (marking topic left) (λ j c. ground (arith, known at j))
          (keeps_Exclusive home s v i (marking topic left) (λ e. ground arith) (λ e. ground arith)))

  -- The list of full subscriptions grows by one that is listed under the topic.
  sends-Knows :
      (topic : String) (e : E) (id : ℕ) (left marked over : List ℕ)
      → s.threads i ≡ sending topic e (id ∷ left) marked
      → (over ≡ []) ⊎ (over ≡ id ∷ [])
      → Knows home s.hub.subscribers s.hub.next (sending topic e left (marked ++ over))
  sends-Knows topic e id left marked over at which =
      let (k, p) = known at in
      let w = v.open_listed topic id (k id (ground (arith))) in
      (λ j c. k j (ground arith), λ j c. ground (arith, p j, w, contains-append j marked over))

  sends-Inv :
      (topic : String) (e : E) (id : ℕ) (left marked over : List ℕ) {h : Hub E}
      → s.threads i ≡ sending topic e (id ∷ left) marked
      → send_one e id s.hub ≡ some (h, over)
      → Inv home
          (record { hub = h; threads = update s.threads i (sending topic e left (marked ++ over)) })
  sends-Inv topic e id left marked over at eq =
      let th = sending topic e left (marked ++ over) in
      let x = keeps_Exclusive home s v i th (λ e. ground arith) (λ e. ground arith) in
      let (sub, sd, q, w) = send_one-cases s.hub id e eq (v.sound id) in
      elim w [
        | inl (o, e') ↦ at_hub e' (
            moved-Inv home (record s { hub = with_sub s.hub id sub })
              (with_sub-Inv home s v id sub sd (λ t l. ground (arith, v.open_listed t id))) i th
              (sends-Knows topic e id left marked over at (inl o)) x)
        | inr (o, e') ↦
            at_hub e'
              (moved-Inv home s v i th (sends-Knows topic e id left marked over at (inr o)) x)
      ]

module _ {E : Type 0} where
  Step-Inv : {s t : System E} → Step s t → Kept s → Kept t
  Step-Inv {s} (subscribes topic buffer free) (home, v) =
      (update home s.hub.next topic, subscribes-Inv home s v topic buffer free)
  Step-Inv {s} (leaves i id at free below) (home, v) =
      (home, leaves-Inv home s v i id at free below)
  Step-Inv {s} (closes i id at eq) (home, v) = (home, closes-Inv home s v i id at eq)
  Step-Inv {s} (publishes i topic e ids at free found) (home, v) =
      (home, publishes-Inv home s v i topic e ids at free found)
  Step-Inv {s} (sends i topic e id left marked over at eq) (home, v) =
      (home, sends-Inv home s v i topic e id left marked over at eq)
  Step-Inv {s} (sent_all i topic e marked at) (home, v) =
      (home, sent_all-Inv home s v i topic e marked at)
  Step-Inv {s} (locks i topic marked at free) (home, v) =
      (home, locks-Inv home s v i topic marked at free)
  Step-Inv {s} (marks i topic id left at eq) (home, v) =
      (home, marks-Inv home s v i topic id left at eq)
  Step-Inv {s} (unlocks i topic at) (home, v) = (
    home,
    moved-Inv home s v i idle tt
        (keeps_Exclusive home s v i idle (λ e. ground arith) (λ e. ground arith)),
  )
  Step-Inv {s} (receives id) (home, v) = (
    home,
    with_sub-Inv home s v id (take_event (s.hub.subs id))
        (record {
          events_closed = (v.sound id).events_closed;
          overflow_closed = (v.sound id).overflow_closed;
        })
        (λ t l. (v.open_listed t id l).2),
  )
  Step-Inv {s} (takes_token id) (home, v) = (
    home,
    with_sub-Inv home s v id (take_token (s.hub.subs id))
        (record {
          events_closed = (v.sound id).events_closed;
          overflow_closed = (v.sound id).overflow_closed;
        })
        (λ t l. (v.open_listed t id l).2),
  )

  Reach-Kept : {s t : System E} → Reach s t → Kept s → Kept t
  Reach-Kept here k = k
  Reach-Kept (step r x) k = Step-Inv x (Reach-Kept r k)

  new_system-Kept : Kept {E = E} new_system
  unfolding new_system listed
  new_system-Kept = (
    λ _. "",
    record {
      sound = λ _. new_subscription-IsSound 0;
      open_listed = λ t id h. ground arith;
      knows = λ _. tt;
      exclusive = λ i j h. ground arith;
    },
  )

  Inv-Panics : (home : ℕ → String) (s : System E) → Inv home s → ¬ Panics s
  unfolding send_one mark_one close_one
  Inv-Panics home s v (send_panics i topic e id left marked at eq) =
      let (k, p) = known home s v i at in
      ground (arith, v.open_listed topic id (k id (ground arith)))
  Inv-Panics home s v (mark_panics i topic id left at eq) =
      ground (arith, mark_overflow-ne-none (s.hub.subs id) (v.sound id))
  Inv-Panics home s v (close_panics i id at eq) =
      ground (arith, close_subscription-ne-none (s.hub.subs id) (v.sound id))

  -- In no state that the hub's goroutines can reach, by any interleaving of Subscribe, Publish,
  -- Unsubscribe and the consumers' receives, is the next operation of a goroutine on a channel one
  -- that panics: Publish never sends on a closed channel, and neither markOverflow nor close closes
  -- a channel twice or signals on a closed one.
  pub new_system-safe : {s : System E} → Reach new_system s → ¬ Panics s
  new_system-safe {s} r = let (home, v) = Reach-Kept r new_system-Kept in Inv-Panics home s v
