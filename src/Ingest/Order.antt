-- ===== src/Ingest/Order.antt =====
-- What the topic "global" carries against the log.
use solana_dashboard.Common.{
  ℕ, ◌+◌, ◌≡◌, ◌⊎◌, if◌then◌else◌, Option, none, some, refl, sym, ap, ◌∙◌, String, Bool, true,
  false, not, ◌&&◌, ◌||◌, List, [], ◌∷◌, ◌++◌, str_eq, subst, arith, inl, inr, Bool-cases, eq_iff,
  eq_refl,
}
use solana_dashboard.Common.Int.{ℤ, pos, ◌<ℤ◌}
use solana_dashboard.Result.{
  Result, Error, ok, err, ◌>>=◌, insert_failed, unsupported_event, Result-cases,
}
use solana_dashboard.Events.{RawMessage, Envelope, Payload}
use solana_dashboard.Store.{ServiceEventLogEntry}
use solana_dashboard.Store.ServiceEvents.{Ascending, final_id}
use solana_dashboard.Projector.Values.{is_empty}
use solana_dashboard.Ingest.{
  Topic, token, global, Feed, is_logged, stamped, row, announcements, insert_service_event,
  publish_inserted, Delivery, envelope_with_payload, handle_decoded_event, handle_all, extract_mint,
  supported,
}

-- What the topic "global" carried.
unfoldable pub on_global : List (Topic × Envelope) → List Envelope
on_global [] = []
on_global ((token mint, event) ∷ published) = on_global published
on_global ((global, event) ∷ published) = event ∷ on_global published

unfoldable pub logged_events : List ServiceEventLogEntry → List Envelope
logged_events [] = []
logged_events (entry ∷ log) = entry.event ∷ logged_events log

-- No event id stands twice in the log.
unfoldable pub distinct : List ServiceEventLogEntry → Bool
distinct [] = true
distinct (entry ∷ log) = not (is_logged entry.event.event_id log) && distinct log

pub record IsFaithful (feed : Feed) : Type 0 where
  pub carried : on_global feed.published ≡ logged_events feed.log
  pub ascending : Ascending (pos 0) feed.log
  pub behind : final_id (pos 0) feed.log <ℤ pos feed.next_id
  pub once : distinct feed.log ≡ true

on_global-append :
    (xs ys : List (Topic × Envelope)) → on_global (xs ++ ys) ≡ on_global xs ++ on_global ys
unfolding on_global
on_global-append [] ys = refl
on_global-append ((token mint, event) ∷ xs) ys = on_global-append xs ys
on_global-append ((global, event) ∷ xs) ys = ap (λ zs. event ∷ zs) (on_global-append xs ys)

logged_events-append :
    (xs ys : List ServiceEventLogEntry)
    → logged_events (xs ++ ys) ≡ logged_events xs ++ logged_events ys
unfolding logged_events
logged_events-append [] ys = refl
logged_events-append (x ∷ xs) ys = ap (λ zs. x.event ∷ zs) (logged_events-append xs ys)

announcements-global :
    (event : Envelope) (payload : Payload) → on_global (announcements event payload) ≡ event ∷ []
unfolding on_global
announcements-global event payload =
    elim (Bool-cases (is_empty (extract_mint event.refs payload))) [
      | inl b ↦ rw b refl
      | inr b ↦ rw b refl
    ]

Ascending-append :
    (lo : ℤ) (xs : List ServiceEventLogEntry) (x : ServiceEventLogEntry)
    → Ascending lo xs
    → final_id lo xs <ℤ x.log_id
    → Ascending lo (xs ++ x ∷ [])
Ascending-append lo [] x h l = (l, tt)
Ascending-append lo (y ∷ xs) x (h, hs) l = (h, Ascending-append y.log_id xs x hs l)

final_id-last :
    (lo : ℤ) (xs : List ServiceEventLogEntry) (x : ServiceEventLogEntry)
    → final_id lo (xs ++ x ∷ []) ≡ x.log_id
final_id-last lo [] x = refl
final_id-last lo (y ∷ xs) x = final_id-last y.log_id xs x

is_logged-append :
    (id : String) (xs : List ServiceEventLogEntry) (x : ServiceEventLogEntry)
    → is_logged id (xs ++ x ∷ []) ≡ (is_logged id xs || str_eq x.event.event_id id)
unfolding is_logged
is_logged-append id [] x = ground arith
is_logged-append id (y ∷ xs) x = ground (arith, is_logged-append id xs x)

distinct-append :
    (xs : List ServiceEventLogEntry) (x : ServiceEventLogEntry)
    → distinct xs ≡ true
    → is_logged x.event.event_id xs ≡ false
    → distinct (xs ++ x ∷ []) ≡ true
unfolding distinct is_logged
distinct-append [] x h l = refl
distinct-append (y ∷ xs) x h l = ground (
  arith,
  distinct-append xs x,
  is_logged-append y.event.event_id xs x,
  eq_iff y.event.event_id x.event.event_id,
  eq_iff x.event.event_id y.event.event_id,
)

-- A new row and its announcements.
inserted-IsFaithful :
    (event : Envelope) (payload : Payload) (feed : Feed)
    → IsFaithful feed
    → is_logged event.event_id feed.log ≡ false
    → IsFaithful (record feed {
      log = feed.log ++ row event feed.next_id (feed.created feed.next_id) ∷ [];
      next_id = feed.next_id + 1;
      published = feed.published ++ announcements (stamped event feed.next_id) payload;
    })
unfolding logged_events
inserted-IsFaithful event payload feed v new =
    let x = row event feed.next_id (feed.created feed.next_id) in
    record {
      carried =
          on_global-append feed.published (announcements (stamped event feed.next_id) payload)
          ∙ ap (λ zs. on_global feed.published ++ zs)
              (announcements-global (stamped event feed.next_id) payload)
          ∙ ap (λ zs. zs ++ stamped event feed.next_id ∷ []) v.carried
          ∙ sym (logged_events-append feed.log (x ∷ []));
      ascending = Ascending-append (pos 0) feed.log x v.ascending v.behind;
      behind = rw (final_id-last (pos 0) feed.log x) (omega arith);
      once = distinct-append feed.log x v.once new;
    }

-- What a call leaves whose insert does not fail.
taken_in : Envelope → Payload → Feed → Feed
taken_in event payload feed =
    if is_logged event.event_id feed.log
    then record feed { next_id = feed.next_id + 1 }
    else record feed {
      log = feed.log ++ row event feed.next_id (feed.created feed.next_id) ∷ [];
      next_id = feed.next_id + 1;
      published = feed.published ++ announcements (stamped event feed.next_id) payload;
    }

inserted-taken_in :
    (event : Envelope) (payload : Payload) (feed : Feed)
    → (insert_service_event none event feed >>= λ inserted.
        ok (publish_inserted event payload inserted))
      ≡ ok (taken_in event payload feed)
unfolding insert_service_event publish_inserted taken_in
inserted-taken_in event payload feed = elim (Bool-cases (is_logged event.event_id feed.log)) [
  | inl b ↦ rw b refl
  | inr b ↦ rw b refl
]

taken_in-IsFaithful :
    (event : Envelope) (payload : Payload) (feed : Feed)
    → IsFaithful feed
    → IsFaithful (taken_in event payload feed)
unfolding taken_in
taken_in-IsFaithful event payload feed v = elim (Bool-cases (is_logged event.event_id feed.log)) [
  | inl b ↦ rw b (record {
    carried = v.carried;
    ascending = v.ascending;
    behind = omega (arith, v.behind);
    once = v.once;
  })
  | inr b ↦ rw b (inserted-IsFaithful event payload feed v b)
]

taken_in-logged :
    (event : Envelope) (payload : Payload) (feed : Feed)
    → is_logged event.event_id (taken_in event payload feed).log ≡ true
unfolding taken_in
taken_in-logged event payload feed = ground (
  arith,
  is_logged-append event.event_id feed.log (row event feed.next_id (feed.created feed.next_id)),
  eq_refl event.event_id,
)

module _ (encode : Payload → Result RawMessage) where
  with_payload-id :
      (event : Envelope) (payload : Payload) {event' : Envelope}
      → envelope_with_payload encode event payload ≡ ok event'
      → event'.event_id ≡ event.event_id
  unfolding envelope_with_payload
  with_payload-id event payload h = elim (Result-cases (encode payload)) [
    | inl (bytes, e) ↦ ground (arith, e)
    | inr (error, e) ↦ ground (arith, e)
  ]

  -- How a call ended: with the event in the log, or with the error of one of its steps.
  abbrev pub IsAnswered : Option Error → Envelope → Payload → Result Feed → Type 0
  IsAnswered answer event payload (ok feed') =
      (answer ≡ none) × (supported payload ≡ true) × (is_logged event.event_id feed'.log ≡ true)
  IsAnswered answer event payload (err e) =
      (supported payload ≡ false)
      ⊎ (envelope_with_payload encode event payload ≡ err e)
      ⊎ ((error : Error) × (answer ≡ some error) × (e ≡ insert_failed error))

  -- Each way that a call can go.
  Fails : Option Error → Envelope → Payload → Feed → Type 0
  Fails answer event payload feed =
      (e : Error) × (handle_decoded_event encode answer event payload feed ≡ err e)
      × IsAnswered answer event payload (err e)

  Succeeds : Option Error → Envelope → Payload → Feed → Type 0
  Succeeds answer event payload feed =
      (event' : Envelope) × (event'.event_id ≡ event.event_id)
      × (answer ≡ none)
      × (supported payload ≡ true)
      × (handle_decoded_event encode answer event payload feed ≡ ok (taken_in event' payload feed))

  after_encoding :
      (answer : Option Error) (event event' : Envelope) (payload : Payload) (feed : Feed)
      → supported payload ≡ true
      → envelope_with_payload encode event payload ≡ ok event'
      → Fails answer event payload feed ⊎ Succeeds answer event payload feed
  unfolding handle_decoded_event insert_service_event Fails Succeeds
  after_encoding none event event' payload feed s p = inr (
    event',
    with_payload-id event payload p,
    refl,
    s,
    rw (s, p) (inserted-taken_in event' payload feed),
  )
  after_encoding (some e) event event' payload feed s p =
      inl (insert_failed e, rw (s, p) refl, inr (inr (e, refl, refl)))

  handled :
      (answer : Option Error) (event : Envelope) (payload : Payload) (feed : Feed)
      → Fails answer event payload feed ⊎ Succeeds answer event payload feed
  unfolding handle_decoded_event Fails
  handled answer event payload feed = elim (Bool-cases (supported payload)) [
    | inr s ↦ inl (unsupported_event event.protocol event.event_type, rw s refl, inl s)
    | inl s ↦ elim (Result-cases (envelope_with_payload encode event payload)) [
      | inl (event', p) ↦ after_encoding answer event event' payload feed s p
      | inr (e, p) ↦ inl (e, rw (s, p) refl, inr (inl p))
    ]
  ]

  -- HandleDecodedEvent, whatever the database answers to the insert: if it returns no error, the
  -- insert did not fail, the payload is of a kind that is supported, and the event, by its id, is in
  -- the log afterwards. If it returns an error, the payload is of no such kind, or it could not be
  -- encoded and the error is that one, or the insert failed and the error is that one, wrapped.
  pub handle_decoded_event-IsAnswered :
      (answer : Option Error) (event : Envelope) (payload : Payload) (feed : Feed)
      → IsAnswered answer event payload (handle_decoded_event encode answer event payload feed)
  unfolding Fails Succeeds
  handle_decoded_event-IsAnswered answer event payload feed =
      elim (handled answer event payload feed) [
        | inl (e, h, a) ↦ rw h a
        | inr (event', i, none_failed, s, h) ↦ rw h (
          none_failed,
          s,
          subst (λ id. is_logged id (taken_in event' payload feed).log ≡ true) i
              (taken_in-logged event' payload feed),
        )
      ]

  skipped-IsFaithful :
      (used : ℕ) (feed : Feed)
      → IsFaithful feed
      → IsFaithful (record feed { next_id = feed.next_id + used })
  skipped-IsFaithful used feed v = record {
    carried = v.carried;
    ascending = v.ascending;
    behind = omega (arith, v.behind);
    once = v.once;
  }

  -- Whatever events are handled one after the other, redelivered or failing ones among them, from a
  -- state where it holds, as on an empty log: the topic "global" has carried exactly the events of
  -- the log, each with its log id and in the order of the log; no event id is logged twice; and the
  -- log ids ascend from a positive one and stay below the next.
  pub handle_all-IsFaithful :
      (ds : List Delivery) (feed : Feed) → IsFaithful feed → IsFaithful (handle_all encode ds feed)
  unfolding handle_all Fails Succeeds
  handle_all-IsFaithful [] feed v = v
  handle_all-IsFaithful (d ∷ ds) feed v = elim (handled d.answer d.event d.payload feed) [
    | inl (e, h, a) ↦ rw h (handle_all-IsFaithful ds _ (skipped-IsFaithful d.used feed v))
    | inr (event', i, none_failed, s, h) ↦
        rw h (handle_all-IsFaithful ds _ (taken_in-IsFaithful event' d.payload feed v))
  ]
