-- ===== src/Projector/Runner/Equivalence.antt =====
-- The runner behaves alike on a store that batches and on one that does not.
use solana_dashboard.Common.{
  ℕ, ◌≡◌, refl, sym, ◌∙◌, ap, inl, inr, Option, none, some, List, [], ◌∷◌, arith, ◌⊎◌,
}
use solana_dashboard.Common.Int.{ℤ}
use solana_dashboard.Result.{Result, Error, ok, err, ◌>>=◌, Result-cases}
use solana_dashboard.Events.Decoder.{Codec}
use solana_dashboard.Store.{ServiceEventLogEntry}
use solana_dashboard.Projector.Batch.{
  BatchWriter, WriteBatch, new_write_batch, batching, flush, row_by_row, for_each,
}
use solana_dashboard.Projector.Batch.Simulation.{value, bind}
use solana_dashboard.Projector.Batch.Tables.{Tables, table_writer, batching-Simulation}
use solana_dashboard.Projector.Runner.{
  replay_with, settle, LogReader, ModelStore, plain, batch_capable, Runner, Progress, Replayed,
  replay_entry, write_entries, transaction, run_in_transaction, replay_listed, replay_batch,
}
use solana_dashboard.Projector.Runner.Passes.{
  replay_entries-result, replay_entries-progress, entries-Simulates,
}

-- Two passes that both fail, or that succeed with the same state and the same progress.
abbrev pub Agrees : {S : Type 0} → Progress S → Progress S → Type 0
Agrees {S} p q =
    ((e : Error) × (e' : Error) × (p.result ≡ err e) × (q.result ≡ err e'))
    ⊎ ((s : S) × (p.result ≡ ok s)
        × (q.result ≡ ok s)
        × (p.last_log_id ≡ q.last_log_id)
        × (p.processed ≡ q.processed))

value-none {ℓ} : {A : Type ℓ} (r : Result A) → value r ≡ none → (e : Error) × (r ≡ err e)
value-none (ok a) h = ground arith
value-none (err e) h = (e, refl)

pub value-some {ℓ} : {A : Type ℓ} (r : Result A) {a : A} → value r ≡ some a → r ≡ ok a
value-some (ok a) h = ground arith
value-some (err e) h = ground arith

module _ {A B C : Type 0} (t : Tables A B C) (codec : Codec) where
  abbrev store : BatchWriter (A × B × C)
  store = row_by_row (table_writer t)

  abbrev direct : List ServiceEventLogEntry → A × B × C → Result (A × B × C)
  direct = for_each (replay_entry codec (table_writer t))

  abbrev pub collected : List ServiceEventLogEntry → Result WriteBatch
  collected entries = for_each (replay_entry codec batching) entries new_write_batch

  direct_lem :
      (entries : List ServiceEventLogEntry) (a : A) (b : B) (c : C)
      → value (direct entries (a, b, c))
        ≡ bind (value (collected entries)) (λ w. value (flush store w (a, b, c)))
  unfolding flush row_by_row
  direct_lem entries a b c =
      (entries-Simulates (batching-Simulation t a b c) codec entries).at new_write_batch

  -- A pass over entries that all project is the flush of the batch that they make.
  pub direct-collected :
      (entries : List ServiceEventLogEntry) (a : A) (b : B) (c : C) {s : A × B × C}
      → for_each (replay_entry codec (table_writer t)) entries (a, b, c) ≡ ok s
      → (w : WriteBatch) × (collected entries ≡ ok w)
        × (flush (row_by_row (table_writer t)) w (a, b, c) ≡ ok s)
  direct-collected entries a b c {s} h = elim (Result-cases (collected entries)) [
    | inl (w, g) ↦ (w, g, value-some _ {a = s} (sym (rw (h, g) at (direct_lem entries a b c))))
    | inr (e, g) ↦ absurd (ground (arith, rw (h, g) at (direct_lem entries a b c)))
  ]

  pub collected-direct :
      (entries : List ServiceEventLogEntry) (a : A) (b : B) (c : C) {w : WriteBatch} {s : A × B × C}
      → collected entries ≡ ok w
      → flush (row_by_row (table_writer t)) w (a, b, c) ≡ ok s
      → for_each (replay_entry codec (table_writer t)) entries (a, b, c) ≡ ok s
  collected-direct entries a b c {w} {s} g f =
      value-some _ {a = s} (rw (g, f) at (direct_lem entries a b c))

  module _ (entries : List ServiceEventLogEntry) (after : ℤ) (a : A) (b : B) (c : C) where
    abbrev batched_pass : Progress (A × B × C)
    batched_pass = write_entries codec (batch_capable store) entries after (a, b, c)

    abbrev direct_pass : Progress (A × B × C)
    direct_pass = write_entries codec (plain (table_writer t)) entries after (a, b, c)

    fails :
        {e : Error}
        → value (direct entries (a, b, c)) ≡ none
        → batched_pass.result ≡ err e
        → Agrees batched_pass direct_pass
    unfolding write_entries
    fails {e} h r =
        let (e', q) = value-none (direct entries (a, b, c)) h in
        inl (e, e', r, replay_entries-result codec (table_writer t) entries after 0 (a, b, c) ∙ q)

    succeeds :
        (w : WriteBatch) {s : A × B × C}
        → collected entries ≡ ok w
        → value (direct entries (a, b, c)) ≡ some s
        → batched_pass.result ≡ ok s
        → Agrees batched_pass direct_pass
    unfolding write_entries
    succeeds w {s} g h r =
        let q = value-some (direct entries (a, b, c)) h in
        let p = replay_entries-progress codec batching entries after 0 new_write_batch g in
        let p' = replay_entries-progress codec (table_writer t) entries after 0 (a, b, c) q in
        inr (
          s,
          r,
          replay_entries-result codec (table_writer t) entries after 0 (a, b, c) ∙ q,
          p.0 ∙ sym p'.0,
          p.1 ∙ sym p'.1,
        )

    batched_result : batched_pass.result ≡ (collected entries >>= λ w. flush store w (a, b, c))
    unfolding write_entries
    batched_result = rw (replay_entries-result codec batching entries after 0 new_write_batch)

    -- Collecting the writes of a pass and flushing them at its end has the outcome of writing at once.
    pub write_entries-Agrees : Agrees batched_pass direct_pass
    write_entries-Agrees = elim (Result-cases (collected entries)) [
      | inr (e, g) ↦ fails (rw g at (direct_lem entries a b c)) (rw g at batched_result)
      | inl (w, g) ↦ elim (Result-cases (flush store w (a, b, c))) [
        | inr (e, f) ↦ fails (rw (g, f) at (direct_lem entries a b c)) (rw (g, f) at batched_result)
        | inl (s, f) ↦
            succeeds w g (rw (g, f) at (direct_lem entries a b c)) (rw (g, f) at batched_result)
      ]
    ]

-- What a caller of ReplayBatch sees: the database, and how far it got if there was no error.
unfoldable pub seen : {D : Type 0} → Replayed D → D × Option (ℤ × ℕ)
seen round = (
  round.db,
  elim round.error [ some _ ↦ none | none ↦ some (round.next_log_id, round.processed) ],
)

module _ {D : Type 0} (reader : LogReader D) where
  pub settle-ok :
      (d : D) (p : Progress D) {s d' : D}
      → p.result ≡ ok s
      → reader.commit s ≡ ok d'
      → settle reader d p
        ≡ record { next_log_id = p.last_log_id; processed = p.processed; error = none; db = d' }
  unfolding settle
  settle-ok d p h c = ground arith

  pub settle-err :
      (d : D) (p : Progress D) {e : Error}
      → (p.result >>= reader.commit) ≡ err e
      → settle reader d p
        ≡ record { next_log_id = p.last_log_id; processed = p.processed; error = some e; db = d }
  unfolding settle
  settle-err d p h = ground arith

  settle-Agrees :
      (d : D) (p q : Progress D) → Agrees p q → seen (settle reader d p) ≡ seen (settle reader d q)
  unfolding seen
  settle-Agrees d p q (inl (e, e', hp, hq)) =
      ap seen (settle-err d p {e = e} (rw hp)) ∙ sym (ap seen (settle-err d q {e = e'} (rw hq)))
  settle-Agrees d p q (inr (s, hp, hq, l, n)) = elim (Result-cases (reader.commit s)) [
    | inl (d', c) ↦ ap seen (settle-ok d p hp c) ∙ ground arith ∙ sym (ap seen (settle-ok d q hq c))
    | inr (e, c) ↦
        ap seen (settle-err d p {e = e} (rw hp c))
        ∙ sym (ap seen (settle-err d q {e = e} (rw hq c)))
  ]

  pub run_in_transaction-ok :
      (after : ℤ) (f : D → Progress D) (d : D) {d' : D}
      → reader.begin d ≡ ok d'
      → run_in_transaction reader after f d ≡ settle reader d (f d')
  unfolding run_in_transaction
  run_in_transaction-ok after f d b = rw (b, run_in_transaction)

  run_in_transaction-Agrees :
      (after : ℤ) (f g : D → Progress D) (d : D)
      → ((d' : D) → Agrees (f d') (g d'))
      → seen (run_in_transaction reader after f d) ≡ seen (run_in_transaction reader after g d)
  run_in_transaction-Agrees after f g d h = elim (Result-cases (reader.begin d)) [
    | inl (d', b) ↦
        rw (run_in_transaction-ok after f d b, run_in_transaction-ok after g d b)
          (settle-Agrees d (f d') (g d') (h d'))
    | inr (e, b) ↦ ap seen (begin_fails f b) ∙ sym (ap seen (begin_fails g b))
  ]
    where
      begin_fails :
          (f : D → Progress D) {e : Error}
          → reader.begin d ≡ err e
          → run_in_transaction reader after f d
            ≡ record { next_log_id = after; processed = 0; error = some e; db = d }
      begin_fails f b = unfold run_in_transaction in rw (b, run_in_transaction)

module _ {D : Type 0} (codec : Codec) (r : Runner D) (m : ModelStore D) (after : ℤ) (d : D) where
  pub replay_with-ok :
      {entries : List ServiceEventLogEntry}
      → r.reader.list_service_events_after_log_id after r.batch_size d ≡ ok entries
      → replay_with codec (some m) r after d ≡ replay_listed codec r m entries after d
  unfolding replay_with
  replay_with-ok e = rw (e, replay_with)

  pub replay_with-err :
      {e : Error}
      → r.reader.list_service_events_after_log_id after r.batch_size d ≡ err e
      → replay_with codec (some m) r after d
        ≡ record { next_log_id = after; processed = 0; error = some e; db = d }
  unfolding replay_with
  replay_with-err e = rw (e, replay_with)

module _ {A B C : Type 0} (t : Tables A B C) (codec : Codec) (r : Runner (A × B × C)) where
  abbrev pub with_store : ModelStore (A × B × C) → Runner (A × B × C)
  with_store m = record r { projector = some m }

  abbrev pub batching_store : ModelStore (A × B × C)
  batching_store = batch_capable (row_by_row (table_writer t))

  abbrev pub direct_store : ModelStore (A × B × C)
  direct_store = plain (table_writer t)

  transaction-Agrees :
      (entries : List ServiceEventLogEntry) (after : ℤ) (d : A × B × C)
      → Agrees
          (transaction codec (with_store batching_store) batching_store entries after d)
          (transaction codec (with_store direct_store) direct_store entries after d)
  unfolding transaction
  transaction-Agrees entries after (a, b, c) =
      elim (write_entries-Agrees t codec entries after a b c) [
        | inl (e, e', p, q) ↦ inl (e, e', rw p, rw q)
        | inr (s, p, q, l, n) ↦
            elim (Result-cases (
              r.reader.save_projection_checkpoint r.name
                (write_entries codec direct_store entries after (a, b, c)).last_log_id s)) [
                  | inl (s', v) ↦ inr (s', rw (p, l) v, rw q v, l, n)
                  | inr (e, v) ↦ inl (e, e, rw (p, l) v, rw q v)
                ]
      ]

  listed-Agrees :
      (entries : List ServiceEventLogEntry) (after : ℤ) (d : A × B × C)
      → seen (replay_listed codec (with_store batching_store) batching_store entries after d)
        ≡ seen (replay_listed codec (with_store direct_store) direct_store entries after d)
  unfolding replay_listed
  listed-Agrees [] after d = refl
  listed-Agrees (entry ∷ entries) after d =
      run_in_transaction-Agrees r.reader after _ _ d (transaction-Agrees (entry ∷ entries) after)

  -- ReplayBatch leaves the same database, and reports the same progress, whether its writes are
  -- collected in a batch that is flushed at the end of the transaction or made one by one, for
  -- every read model of separate tables; and it fails in both or in neither.
  pub replay_batch-batching :
      (after : ℤ) (d : A × B × C)
      → seen (replay_batch codec (with_store batching_store) after d)
        ≡ seen (replay_batch codec (with_store direct_store) after d)
  unfolding replay_batch
  replay_batch-batching after d =
      elim (Result-cases (r.reader.list_service_events_after_log_id after r.batch_size d)) [
        | inl (entries, e) ↦
            ap seen (replay_with-ok codec (with_store batching_store) batching_store after d e)
            ∙ listed-Agrees entries after d
            ∙ sym (ap seen (replay_with-ok codec (with_store direct_store) direct_store after d e))
        | inr (e', e) ↦
            ap seen (replay_with-err codec (with_store batching_store) batching_store after d e)
            ∙ sym (ap seen (replay_with-err codec (with_store direct_store) direct_store after d e))
      ]
