-- ===== src/Projector/Runner/Replay.antt =====
-- A replay of the whole log.
use solana_dashboard.Common.{
  ℕ, suc, ◌≡◌, refl, sym, ◌∙◌, ap, none, String, List, [], ◌∷◌, ◌++◌, append-nil, append_assoc,
  arith, inl, inr, length, take, drop, take-append-drop,
}
use solana_dashboard.Common.Int.{ℤ}
use solana_dashboard.Result.{Result, ok, ◌>>=◌, ok_steps}
use solana_dashboard.Events.Decoder.{Codec}
use solana_dashboard.Store.{ServiceEventLogEntry}
use solana_dashboard.Store.ServiceEvents.{
  Offsets, list_after_log_id, save_offset, save_offset_twice, Ascending, final_id, final_id-append,
  later_than-final_id,
}
use solana_dashboard.Projector.Batch.{for_each, row_by_row}
use solana_dashboard.Projector.Batch.Tables.{Tables, table_writer}
use solana_dashboard.Projector.Runner.{
  Progress, Runner, batch_capable, replay_entry, write_entries, transaction, replay_listed,
  replay_batch,
}
use solana_dashboard.Projector.Runner.Passes.{
  replay_entries-result, replay_entries-progress, entries-Simulates,
}
use solana_dashboard.Projector.Runner.Equivalence.{
  Agrees, write_entries-Agrees, settle-ok, run_in_transaction-ok, replay_with-ok, value-some,
}
use solana_dashboard.Projector.Runner.Sql.{
  Database, with_offsets, with_offsets-Simulation, sql_runner,
}

for_each-split :
    {X S : Type 0} (f : X → S → Result S) (xs ys : List X) (s : S) {s' : S}
    → for_each f (xs ++ ys) s ≡ ok s'
    → (m : S) × (for_each f xs s ≡ ok m) × (for_each f ys m ≡ ok s')
for_each-split f [] ys s h = (s, refl, h)
for_each-split f (x ∷ xs) ys s h =
    let (m, p, q) = ok_steps (f x s) (for_each f (xs ++ ys)) h in
    let (m', p', q') = for_each-split f xs ys m q in (m', ap (λ r. r >>= for_each f xs) p ∙ p', q')

module _ {A B C : Type 0} (t : Tables A B C) (codec : Codec) where
  -- The specification: each entry of a log projected in turn, with no batches and no checkpoints.
  abbrev pub projected : List ServiceEventLogEntry → A × B × C → Result (A × B × C)
  projected = for_each (replay_entry codec (table_writer t))

  agreed :
      {S : Type 0} (p q : Progress S) {s : S}
      → Agrees p q
      → q.result ≡ ok s
      → (p.result ≡ ok s) × (p.last_log_id ≡ q.last_log_id) × (p.processed ≡ q.processed)
  agreed p q (inl (e, e', hp, hq)) h = ground arith
  agreed p q (inr (s, hp, hq, l, n)) h = (hp ∙ sym hq ∙ h, l, n)

  -- One pass with a batch, where every entry projects.
  batched_pass :
      (entries : List ServiceEventLogEntry) (after : ℤ) (a : A) (o : Offsets) (b : B) (c : C)
      {a' : A} {b' : B} {c' : C}
      → projected entries (a, b, c) ≡ ok (a', b', c')
      → let p =
          write_entries codec
            (batch_capable (row_by_row (table_writer (with_offsets t))))
            entries
            after
            ((a, o), b, c) in
        (p.result ≡ ok ((a', o), b', c'))
        × (p.last_log_id ≡ final_id after entries)
        × (p.processed ≡ length entries)
  unfolding write_entries
  batched_pass entries after a o b c {a'} {b'} {c'} h =
      let w = table_writer (with_offsets t) in
      let sim = (entries-Simulates (with_offsets-Simulation t o) codec entries).at (a, b, c) in
      let direct =
        value-some (for_each (replay_entry codec w) entries ((a, o), b, c)) {a = ((a', o), b', c')}
          (rw h at sim) in
      let r = replay_entries-result codec w entries after 0 ((a, o), b, c) ∙ direct in
      let (l, n) = replay_entries-progress codec w entries after 0 ((a, o), b, c) direct in
      let (br, bl, bn) =
        agreed _ _ (write_entries-Agrees (with_offsets t) codec entries after (a, o) b c) r in
      (br, bl ∙ l, bn ∙ n ∙ omega arith)

  module _ (name : String) (log : List ServiceEventLogEntry) (k : ℕ) where
    abbrev pub runner : Runner (Database A B C)
    runner = sql_runner name log t (suc k)

    -- A round over entries that all project.
    round_lem :
        (entry : ServiceEventLogEntry) (entries : List ServiceEventLogEntry) (after : ℤ) (a : A)
        (o : Offsets) (b : B) (c : C) {a' : A} {b' : B} {c' : C}
        → list_after_log_id log after (suc k) ≡ entry ∷ entries
        → projected (entry ∷ entries) (a, b, c) ≡ ok (a', b', c')
        → replay_batch codec runner after ((a, o), b, c) ≡ record {
          next_log_id = final_id entry.log_id entries;
          processed = suc (length entries);
          error = none;
          db = ((a', save_offset name (final_id entry.log_id entries) o), b', c');
        }
    unfolding replay_batch replay_listed transaction
    round_lem entry entries after a o b c {a'} {b'} {c'} listed h =
        let d : Database A B C = ((a, o), b, c) in
        let m = batch_capable (row_by_row (table_writer (with_offsets t))) in
        let f = transaction codec runner m (entry ∷ entries) after in
        let (r, l, n) = batched_pass (entry ∷ entries) after a o b c h in
        replay_with-ok codec runner m after d (ap ok listed)
        ∙ run_in_transaction-ok runner.reader after f d refl
        ∙ settle-ok runner.reader d (f d)
            (ap (λ r'. r' >>= runner.reader.save_projection_checkpoint name (f d).last_log_id) r)
            refl
        ∙ (λ i. record {
          next_log_id = l i;
          processed = n i;
          error = none;
          db = ((a', save_offset name (l i) o), b', c');
        })

    -- A round that finds nothing.
    pub idle_lem :
        (after : ℤ) (d : Database A B C)
        → list_after_log_id log after (suc k) ≡ []
        → replay_batch codec runner after d
          ≡ record { next_log_id = after; processed = 0; error = none; db = d }
    unfolding replay_batch replay_listed
    idle_lem after d listed =
        replay_with-ok codec runner (batch_capable (row_by_row (table_writer (with_offsets t))))
          after d (ap ok listed)

    -- The checkpoints after the rest of the log is replayed.
    abbrev pub checkpointed : List ServiceEventLogEntry → Offsets → Offsets
    checkpointed [] o = o
    checkpointed (entry ∷ entries) o = save_offset name (final_id entry.log_id entries) o

    pub checkpointed-drop :
        (id : ℤ) (xs ys : List ServiceEventLogEntry) (o : Offsets)
        → checkpointed ys (save_offset name (final_id id xs) o)
          ≡ save_offset name (final_id id (xs ++ ys)) o
    checkpointed-drop id xs [] o = rw append-nil
    checkpointed-drop id xs (y ∷ ys) o =
        save_offset_twice name _ _ o
        ∙ ap (λ i. save_offset name i o) (sym (final_id-append id xs (y ∷ ys)))

    module _ (ascending : Ascending (ℤ.pos 0) log) where
      pub listing :
          (pre rest : List ServiceEventLogEntry) (n : ℕ)
          → log ≡ pre ++ rest
          → list_after_log_id log (final_id (ℤ.pos 0) pre) n ≡ take n rest
      unfolding list_after_log_id
      listing pre rest n e =
          rw e (ap (take n) (later_than-final_id (ℤ.pos 0) pre rest (rw e at ascending)))

      -- What is known before and after a round: the log is read up to `pre`, the state so far is s,
      -- and the rest projects to s'.
      pub record Due (pre rest : List ServiceEventLogEntry) (s s' : A × B × C) : Type 0 where
        pub split : log ≡ pre ++ rest
        pub projects : projected rest s ≡ ok s'

      -- A round on what is due: it reads the next entries, and less is due after it.
      pub record Round (pre xs : List ServiceEventLogEntry) (entry : ServiceEventLogEntry)
          (o : Offsets) (s s' : A × B × C) : Type 0 where
        pub state : A × B × C
        pub round :
            replay_batch codec runner (final_id (ℤ.pos 0) pre) ((s.0, o), s.1, s.2) ≡ record {
              next_log_id = final_id (ℤ.pos 0) (pre ++ entry ∷ take k xs);
              processed = suc (length (take k xs));
              error = none;
              db = (
                (state.0, save_offset name (final_id entry.log_id (take k xs)) o),
                state.1,
                state.2,
              );
            }
        pub due : Due (pre ++ entry ∷ take k xs) (drop k xs) state s'

      pub one_more :
          (pre xs : List ServiceEventLogEntry) (entry : ServiceEventLogEntry) (o : Offsets)
          (s s' : A × B × C)
          → Due pre (entry ∷ xs) s s'
          → Round pre xs entry o s s'
      one_more pre xs entry o (a, b, c) s' due =
          let whole : entry ∷ take k xs ++ drop k xs ≡ entry ∷ xs =
            ap (λ ys. entry ∷ ys) (take-append-drop k xs) in
          let (m, p, q) =
            for_each-split (replay_entry codec (table_writer t)) (entry ∷ take k xs) (drop k xs)
              (a, b, c) (ap (λ ys. projected ys (a, b, c)) whole ∙ due.projects) in
          record {
            state = m;
            round =
                round_lem entry (take k xs) (final_id (ℤ.pos 0) pre) a o b c
                  (listing pre (entry ∷ xs) (suc k) due.split) p
                ∙ ap
                    (λ id. record {
                      next_log_id = id;
                      processed = suc (length (take k xs));
                      error = none;
                      db =
                          ((m.0, save_offset name (final_id entry.log_id (take k xs)) o), m.1, m.2);
                    })
                    (sym (final_id-append (ℤ.pos 0) pre (entry ∷ take k xs)));
            due = record {
              split = due.split ∙ ap (◌++◌ pre) (sym whole) ∙ sym (append_assoc pre _ _);
              projects = q;
            };
          }
