-- ===== src/Projector/Runner.antt =====
-- The runner: internal/projector/runner.go, with RunInTransaction of
-- internal/store/service_event.go. Logging, metrics and the poll timer are left out; D is the
-- database.
pub mod Passes
pub mod Equivalence
pub mod Sql
pub mod Replay
pub mod Recovery
use solana_dashboard.Common.{ℕ, zero, suc, ◌+◌, String, Option, none, some, List, [], ◌∷◌}
use solana_dashboard.Common.Int.{ℤ}
use solana_dashboard.Result.{Result, ok, err, Error, ◌>>=◌, map_err, decode_failed, project_failed}
use solana_dashboard.Events.Decoder.{Codec, decode_payload}
use solana_dashboard.Store.{ServiceEventLogEntry}
use solana_dashboard.Projector.{project}
use solana_dashboard.Projector.ReadModel.{Writer}
use solana_dashboard.Projector.Batch.{BatchWriter, WriteBatch, new_write_batch, batching, flush}

-- logReader, with the pool's Begin and the transaction's Commit. A rolled back or failed
-- transaction leaves the database as it was.
pub record LogReader (D : Type 0) : Type 0 where
  pub list_service_events_after_log_id : ℤ → ℕ → D → Result (List ServiceEventLogEntry)
  pub load_projection_checkpoint : String → D → Result ℤ
  pub save_projection_checkpoint : String → ℤ → D → Result D
  pub begin : D → Result D
  pub commit : D → Result D

-- The projector's store: one that can batch, or one that cannot.
pub data ModelStore (D : Type 0) : Type 0 where
  plain : Writer D → ModelStore D
  batch_capable : BatchWriter D → ModelStore D

pub record Runner (D : Type 0) : Type 0 where
  pub name : String
  pub reader : LogReader D
  pub projector : Option (ModelStore D)
  pub batch_size : ℕ

-- defaultReplayBatchSize
abbrev pub default_replay_batch_size : ℕ
default_replay_batch_size = 256

-- NewRunner
unfoldable pub new_runner : {D : Type 0} → String → LogReader D → Option (ModelStore D) → Runner D
new_runner name reader projector = record {
  name = name;
  reader = reader;
  projector = projector;
  batch_size = default_replay_batch_size;
}

-- What the closure of ReplayBatch leaves behind: its two captured variables and its result.
pub record Progress (S : Type 0) : Type 0 where
  pub last_log_id : ℤ
  pub processed : ℕ
  pub result : Result S

module _ {S : Type 0} (codec : Codec) (w : Writer S) where
  -- The body of the loop over the entries, and the loop.
  unfoldable pub replay_entry : ServiceEventLogEntry → S → Result S
  replay_entry entry s = do
    payload ←
        map_err (decode_failed entry.log_id entry.event.event_id) (decode_payload codec entry.event)
    map_err (project_failed entry.log_id entry.event.event_id)
        (project codec w entry.event payload s)

  unfoldable pub replay_entries : List ServiceEventLogEntry → ℤ → ℕ → S → Progress S
  replay_entries [] last processed s = record {
    last_log_id = last;
    processed = processed;
    result = ok s;
  }
  replay_entries (entry ∷ entries) last processed s = elim (replay_entry entry s) [
    | err e ↦ record { last_log_id = last; processed = processed; result = err e }
    | ok s' ↦ replay_entries entries entry.log_id (processed + 1) s'
  ]

-- What ReplayBatch returns, and the database after it.
pub record Replayed (D : Type 0) : Type 0 where
  pub next_log_id : ℤ
  pub processed : ℕ
  pub error : Option Error
  pub db : D

-- RunInTransaction: begin, the function, then commit or roll back. `after` is the log id that the
-- function's variables hold before it runs. That a transaction which is rolled back, or whose commit
-- fails, leaves the database as it was is Postgres' part and taken at its word; a commit whose outcome
-- is unknown is not modelled.
unfoldable pub settle : {D : Type 0} → LogReader D → D → Progress D → Replayed D
settle reader d p = elim (p.result >>= reader.commit) [
  | ok d' ↦ record { next_log_id = p.last_log_id; processed = p.processed; error = none; db = d' }
  | err e ↦ record { next_log_id = p.last_log_id; processed = p.processed; error = some e; db = d }
]

unfoldable pub run_in_transaction :
    {D : Type 0} → LogReader D → ℤ → (D → Progress D) → D → Replayed D
unfolding settle
run_in_transaction reader after fn d = elim (reader.begin d) [
  | err e ↦ record { next_log_id = after; processed = 0; error = some e; db = d }
  | ok d' ↦ settle reader d (fn d')
]

module _ {D : Type 0} (codec : Codec) where
  -- The loop and the flush, on either kind of store.
  unfoldable pub write_entries : ModelStore D → List ServiceEventLogEntry → ℤ → D → Progress D
  write_entries (plain w) entries after d = replay_entries codec w entries after 0 d
  write_entries (batch_capable store) entries after d =
      let p = replay_entries codec batching entries after 0 new_write_batch in
      record {
        last_log_id = p.last_log_id;
        processed = p.processed;
        result = p.result >>= λ batch. flush store batch d;
      }

  -- The function given to RunInTransaction, with the checkpoint at its end.
  unfoldable pub transaction :
      Runner D → ModelStore D → List ServiceEventLogEntry → ℤ → D → Progress D
  transaction r store entries after d =
      let p = write_entries store entries after d in
      record p { result = p.result >>= r.reader.save_projection_checkpoint r.name p.last_log_id }

  unfoldable pub replay_listed :
      Runner D → ModelStore D → List ServiceEventLogEntry → ℤ → D → Replayed D
  replay_listed r store [] after d = record {
    next_log_id = after;
    processed = 0;
    error = none;
    db = d;
  }
  replay_listed r store (entry ∷ entries) after d =
      run_in_transaction r.reader after (transaction r store (entry ∷ entries) after) d

  unfoldable pub replay_with : Option (ModelStore D) → Runner D → ℤ → D → Replayed D
  replay_with none r after d = record { next_log_id = after; processed = 0; error = none; db = d }
  replay_with (some store) r after d =
      elim (r.reader.list_service_events_after_log_id after r.batch_size d) [
        | err e ↦ record { next_log_id = after; processed = 0; error = some e; db = d }
        | ok entries ↦ replay_listed r store entries after d
      ]

  -- ReplayBatch
  unfoldable pub replay_batch : Runner D → ℤ → D → Replayed D
  replay_batch r = replay_with r.projector r

-- The loop of ReplayFromStart. A round that processes nothing ends it; `none` is the end of the fuel.
pub record Finished (D : Type 0) : Type 0 where
  pub last_log_id : ℤ
  pub error : Option Error
  pub db : D

unfoldable pub after_round :
    {D : Type 0} → ℤ → (ℤ → D → Option (Finished D)) → Replayed D → Option (Finished D)
after_round last again round = elim round.error [
  | some e ↦ some (record { last_log_id = last; error = some e; db = round.db })
  | none ↦ elim round.processed [
    | zero ↦ some (record { last_log_id = round.next_log_id; error = none; db = round.db })
    | suc _ ↦ again round.next_log_id round.db
  ]
]

unfoldable pub replay_rounds : {D : Type 0} → Codec → ℕ → Runner D → ℤ → D → Option (Finished D)
replay_rounds codec zero r last d = none
replay_rounds codec (suc fuel) r last d =
    after_round last (λ last' d'. replay_rounds codec fuel r last' d') (replay_batch codec r last d)

-- ReplayFromStart, with fuel for the rounds.
unfoldable pub replay_from_start : {D : Type 0} → Codec → ℕ → Runner D → D → Option (Finished D)
unfolding replay_rounds
replay_from_start codec fuel r d = replay_rounds codec fuel r (ℤ.pos 0) d

-- A pass of Run's select when a round found nothing: the context is done, or the poll interval has
-- passed, in which the rest of the system may have changed the database.
pub data Turn (D : Type 0) : Type 0 where
  done : Turn D
  poll : (D → D) → Turn D

-- The loop of Run. It ends by a failed round, by the context, or at the end of the fuel.
unfoldable pub after_turn :
    {D : Type 0}
    → List (Turn D)
    → (List (Turn D) → ℤ → D → Option (Option Error × D))
    → Replayed D
    → Option (Option Error × D)
after_turn turns again round = elim round.error [
  | some e ↦ some (some e, round.db)
  | none ↦ elim round.processed [
    | suc _ ↦ again turns round.next_log_id round.db
    | zero ↦ elim turns [
      | [] ↦ none
      | done ∷ _ ↦ some (none, round.db)
      | poll change ∷ rest ↦ again rest round.next_log_id (change round.db)
    ]
  ]
]

unfoldable pub run_rounds :
    {D : Type 0} → Codec → ℕ → List (Turn D) → Runner D → ℤ → D → Option (Option Error × D)
run_rounds codec zero turns r last d = none
run_rounds codec (suc fuel) turns r last d =
    after_turn turns (λ turns' last' d'. run_rounds codec fuel turns' r last' d')
      (replay_batch codec r last d)

-- Run
unfoldable pub run :
    {D : Type 0} → Codec → ℕ → List (Turn D) → Runner D → D → Option (Option Error × D)
unfolding run_rounds
run codec fuel turns r d = elim (r.reader.load_projection_checkpoint r.name d) [
  | err e ↦ some (some e, d)
  | ok last ↦ run_rounds codec fuel turns r last d
]
