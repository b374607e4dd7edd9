-- ===== src/Websocket/Replay/Complete.antt =====
-- A replay that finds room sends each event of the mint after the given log id, once and in order.
use solana_dashboard.Common.{
  ℕ, zero, suc, ◌<◌, ◌≡◌, refl, sym, ap, ◌∙◌, String, Bool, true, false, Option, some, List, [],
  ◌∷◌, ◌++◌, length, take, drop, ltb, if◌then◌else◌, str_eq, arith, append_assoc, append-nil,
  take-append-drop, length-drop-le, inl, inr, Bool-cases, ltb→lt,
}
use solana_dashboard.Common.Int.{ℤ, ltb_ℤ, ◌<ℤ◌, ◌≤ℤ◌}
use solana_dashboard.Events.{Envelope}
use solana_dashboard.Websocket.Replay.{
  of_mint, later, list_by_mint_after_log_id, replay_batch_limit, Replay, enqueue_envelope,
  send_batch, after_batch, after_list, replay_loop, replay_topic,
}

-- The events stand in the order of their log ids, all above a bound.
abbrev pub Rising : ℤ → List Envelope → Type 0
Rising lo [] = Unit
Rising lo (event ∷ log) = (lo <ℤ event.log_id) × Rising event.log_id log

abbrev pub last_of : ℤ → List Envelope → ℤ
last_of lo [] = lo
last_of lo (event ∷ log) = last_of event.log_id log

le-last_of : (n : ℕ) (lo : ℤ) (xs : List Envelope) → Rising lo xs → lo ≤ℤ last_of lo (take n xs)
le-last_of zero lo xs h = omega arith
le-last_of (suc n) lo [] h = omega arith
le-last_of (suc n) lo (x ∷ xs) (h, hs) = omega (arith, h, le-last_of n x.log_id xs hs)

Rising-weaken : (lo lo' : ℤ) (xs : List Envelope) → lo ≤ℤ lo' → Rising lo' xs → Rising lo xs
Rising-weaken lo lo' [] l h = tt
Rising-weaken lo lo' (x ∷ xs) l (h, hs) = (omega arith, hs)

Rising-of_mint :
    (mint : String) (lo : ℤ) (xs : List Envelope) → Rising lo xs → Rising lo (of_mint mint xs)
unfolding of_mint
Rising-of_mint mint lo [] h = tt
Rising-of_mint mint lo (x ∷ xs) (h, hs) =
    ground (arith, Rising-of_mint mint x.log_id xs hs, Rising-weaken lo x.log_id (of_mint mint xs))

later-all : (lo : ℤ) (xs : List Envelope) → Rising lo xs → later lo xs ≡ xs
unfolding later
later-all lo [] h = refl
later-all lo (x ∷ xs) (h, hs) = ground (arith, later-all lo xs, Rising-weaken lo x.log_id xs)

pub Rising-later :
    (after lo : ℤ) (xs : List Envelope) → Rising lo xs → Rising after (later after xs)
unfolding later
Rising-later after lo [] h = tt
Rising-later after lo (x ∷ xs) (h, hs) = elim (Bool-cases (ltb_ℤ after x.log_id)) [
  | inl b ↦ rw b (
    ground arith,
    rw (later-all after xs (Rising-weaken after x.log_id xs (omega (arith, ltb→lt _ _ b)) hs)) hs,
  )
  | inr b ↦ rw b (Rising-later after x.log_id xs hs)
]

later-later : (a b : ℤ) (xs : List Envelope) → a ≤ℤ b → later b (later a xs) ≡ later b xs
unfolding later
later-later a b [] l = refl
later-later a b (x ∷ xs) l = ground (arith, later-later a b xs l)

later-take :
    (n : ℕ) (lo : ℤ) (xs : List Envelope)
    → Rising lo xs
    → later (last_of lo (take n xs)) xs ≡ drop n xs
unfolding later
later-take zero lo xs h = later-all lo xs h
later-take (suc n) lo [] h = refl
later-take (suc n) lo (x ∷ xs) (h, hs) =
    ground (arith, later-take n x.log_id xs hs, le-last_of n x.log_id xs hs)

newer : (a b : ℤ) → a <ℤ b → ltb_ℤ a b ≡ true
newer a b h = ground arith

Rising-take : (n : ℕ) (lo : ℤ) (xs : List Envelope) → Rising lo xs → Rising lo (take n xs)
Rising-take zero lo xs h = tt
Rising-take (suc n) lo [] h = tt
Rising-take (suc n) lo (x ∷ xs) (h, hs) = (h, Rising-take n x.log_id xs hs)

Rising-drop :
    (n : ℕ) (lo : ℤ) (xs : List Envelope)
    → Rising lo xs
    → Rising (last_of lo (take n xs)) (drop n xs)
Rising-drop zero lo xs h = h
Rising-drop (suc n) lo [] h = tt
Rising-drop (suc n) lo (x ∷ xs) (h, hs) = Rising-drop n x.log_id xs hs

take_short : (n : ℕ) (xs : List Envelope) → ltb (length (take n xs)) n ≡ true → take n xs ≡ xs
take_short zero xs h = absurd (ground arith)
take_short (suc n) [] h = refl
take_short (suc n) (x ∷ xs) h = ap (λ ys. x ∷ ys) (take_short n xs (ground arith))

drop_shorter :
    (n : ℕ) (xs : List Envelope)
    → ltb (length (take (suc n) xs)) (suc n) ≡ false
    → length (drop (suc n) xs) < length xs
drop_shorter n [] h = absurd (ground arith)
drop_shorter n (x ∷ xs) h = omega (arith, length-drop-le n xs)

last_of-append :
    (lo : ℤ) (xs ys : List Envelope) → last_of lo (xs ++ ys) ≡ last_of (last_of lo xs) ys
last_of-append lo [] ys = refl
last_of-append lo (x ∷ xs) ys = last_of-append x.log_id xs ys

module _ (room : ℕ → Bool) (free : (n : ℕ) → room n ≡ true) where
  send_batch-all :
      (xs : List Envelope) (lo : ℤ) (sent : List Envelope)
      → Rising lo xs
      → send_batch room xs lo sent
        ≡ record { last = last_of lo xs; is_full = false; sent = sent ++ xs }
  unfolding send_batch enqueue_envelope
  send_batch-all [] lo sent h = rw (append-nil sent)
  send_batch-all (x ∷ xs) lo sent (h, hs) =
      rw (free (length sent), send_batch, enqueue_envelope)
        (rw (newer lo x.log_id h) (
          send_batch-all xs x.log_id (sent ++ x ∷ []) hs
          ∙ ap (λ s. record { last = last_of x.log_id xs; is_full = false; sent = s })
              (append_assoc sent (x ∷ []) xs)))

  sent_by : ℤ → List Envelope → List Envelope → Replay
  sent_by last sent batch = record {
    last = last_of last batch;
    is_full = false;
    sent = sent ++ batch;
  }

  batch_lem :
      (batch : List Envelope) (last : ℤ) (sent : List Envelope)
      (again : ℤ → List Envelope → Option Replay)
      → Rising last batch
      → after_list room batch last sent again ≡ (
          if ltb (length batch) replay_batch_limit
          then some (sent_by last sent batch)
          else again (last_of last batch) (sent ++ batch))
  unfolding after_list after_batch sent_by
  batch_lem [] last sent again h = rw (append-nil sent)
  batch_lem (x ∷ xs) last sent again h = rw (send_batch-all (x ∷ xs) last sent h, after_batch)

  joined :
      (sent : List Envelope) (last : ℤ) (batch rest : List Envelope)
      → some (sent_by (last_of last batch) (sent ++ batch) rest)
        ≡ some (sent_by last sent (batch ++ rest))
  unfolding sent_by
  joined sent last batch rest = rw (last_of-append last batch rest, append_assoc sent batch rest)

  loop_lem :
      (fuel : ℕ) (log : List Envelope) (mint : String) (last : ℤ) (sent ys : List Envelope)
      → Rising last ys
      → later last (of_mint mint log) ≡ ys
      → length ys < fuel
      → replay_loop room fuel log mint last sent ≡ some (sent_by last sent ys)
  unfolding replay_loop list_by_mint_after_log_id
  loop_lem zero log mint last sent ys h e enough = elim enough [ ]
  loop_lem (suc fuel) log mint last sent ys h e enough =
      let batch = take replay_batch_limit ys in
      let rest = drop replay_batch_limit ys in
      let again : ℤ → List Envelope → Option Replay =
        λ last' sent'. replay_loop room fuel log mint last' sent' in
      ap (λ l. after_list room l last sent again) (ap (take replay_batch_limit) e)
      ∙ batch_lem batch last sent again (Rising-take replay_batch_limit last ys h)
      ∙ elim (Bool-cases (ltb (length batch) replay_batch_limit)) [
        | inl short ↦
            rw short (ap (λ l. some (sent_by last sent l)) (take_short replay_batch_limit ys short))
        | inr long ↦ rw long (
            loop_lem fuel log mint (last_of last batch) (sent ++ batch) rest
              (Rising-drop replay_batch_limit last ys h)
              (sym (
                  later-later last (last_of last batch) (of_mint mint log)
                    (le-last_of replay_batch_limit last ys h))
                ∙ ap (later (last_of last batch)) e
                ∙ later-take replay_batch_limit last ys h)
              (omega (arith, drop_shorter 511 ys long))
            ∙ joined sent last batch rest
            ∙ ap (λ l. some (sent_by last sent l)) (take-append-drop replay_batch_limit ys))
      ]

-- The replay of a topic "token:" ++ mint, over a log in ascending order of positive log ids and into a
-- channel that never is full: it sends each event of the mint after the given log id once and in the
-- log's order, behind what was sent before, and returns the log id of the last. It ends with more
-- rounds of fuel than there are such events.
pub replay_topic_lem :
    (room : ℕ → Bool) (fuel : ℕ) (log : List Envelope) (mint : String) (after : ℤ)
    (sent : List Envelope)
    → ((n : ℕ) → room n ≡ true)
    → Rising (ℤ.pos 0) log
    → str_eq mint "" ≡ false
    → length (later after (of_mint mint log)) < fuel
    → replay_topic room fuel log mint after sent
      ≡ some (record {
        last = last_of after (later after (of_mint mint log));
        is_full = false;
        sent = sent ++ later after (of_mint mint log);
      })
unfolding replay_topic sent_by
replay_topic_lem room fuel log mint after sent free h named enough = rw named (
    loop_lem room free fuel log mint after sent _
      (Rising-later after (ℤ.pos 0) (of_mint mint log) (Rising-of_mint mint (ℤ.pos 0) log h)) refl
      enough)
