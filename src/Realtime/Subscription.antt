-- ===== src/Realtime/Subscription.antt =====
-- Subscriptions and their two channels. A send on a closed channel and a close of a closed channel
-- panic: `none`, or `panicked`.
use solana_dashboard.Common.{
  ℕ, Bool, true, false, ◌||◌, Option, none, some, List, [], ◌∷◌, ◌++◌, length, ltb, if◌then◌else◌,
}

-- A Go channel of A, by its buffered values.
pub record Channel (A : Type 0) : Type 0 where
  pub buffer : List A
  pub capacity : ℕ
  pub closed : Bool

abbrev pub make_channel : {A : Type 0} → ℕ → Channel A
make_channel n = record { buffer = []; capacity = n; closed = false }

-- `select { case c <- a: default: }`
pub data Sent (A : Type 0) : Type 0 where
  sent : Channel A → Sent A
  full : Sent A
  panicked : Sent A

abbrev pub try_send : {A : Type 0} → Channel A → A → Sent A
try_send c a =
    if c.closed
    then panicked
    else if ltb (length c.buffer) c.capacity
    then sent (record c { buffer = c.buffer ++ a ∷ [] })
    else full

abbrev pub close_channel : {A : Type 0} → Channel A → Option (Channel A)
close_channel c = if c.closed then none else some (record c { closed = true })

-- A receive by a consumer: the channel without its first value.
abbrev pub dropped {ℓ} : {A : Type ℓ} → List A → List A
dropped [] = []
dropped (x ∷ xs) = xs

abbrev pub receive : {A : Type 0} → Channel A → Channel A
receive c = record c { buffer = dropped c.buffer }

pub record Subscription (E : Type 0) : Type 0 where
  pub events : Channel E
  pub overflow : Channel (Unit {0})
  pub closed : Bool
  pub overflowed : Bool

-- newSubscription
unfoldable pub new_subscription : {E : Type 0} → ℕ → Subscription E
new_subscription buffer = record {
  events = make_channel buffer;
  overflow = make_channel 1;
  closed = false;
  overflowed = false;
}

-- The send of the overflow token, which a full channel drops.
signal : Channel (Unit {0}) → Option (Channel (Unit {0}))
signal c = elim (try_send c tt) [ sent c' ↦ some c' | full ↦ some c | panicked ↦ none ]

module _ {E : Type 0} where
  -- markOverflow
  unfoldable pub mark_overflow : Subscription E → Option (Subscription E × Bool)
  unfolding signal
  mark_overflow s = if s.closed || s.overflowed then some (s, false) else elim (signal s.overflow) [
    | none ↦ none
    | some overflow ↦ elim (close_channel s.events) [
      | none ↦ none
      | some events ↦
          some (record s { overflowed = true; overflow = overflow; events = events }, true)
    ]
  ]

  -- close
  unfoldable pub close_subscription : Subscription E → Option (Subscription E × Bool)
  close_subscription s =
      if s.closed
      then some (s, false)
      else elim (if s.overflowed then some s.events else close_channel s.events) [
        | none ↦ none
        | some events ↦ elim (close_channel s.overflow) [
          | none ↦ none
          | some overflow ↦
              some (record s { closed = true; events = events; overflow = overflow }, true)
        ]
      ]
