-- ===== src/Projector/Runner/Recovery.antt =====
-- The replay from the start, and the run from a checkpoint: both bring the read model to where one
-- pass over the log brings it.
use solana_dashboard.Common.{
  ℕ, zero, suc, ◌<◌, ◌≡◌, refl, sym, ◌∙◌, ap, none, some, String, List, [], ◌∷◌, ◌++◌, append-nil,
  arith, length, take, drop, take-append-drop, length-drop-le,
}
use solana_dashboard.Common.Int.{ℤ}
use solana_dashboard.Result.{ok}
use solana_dashboard.Events.Decoder.{Codec}
use solana_dashboard.Store.{ServiceEventLogEntry}
use solana_dashboard.Store.ServiceEvents.{Offsets, load_offset, save_offset, Ascending, final_id}
use solana_dashboard.Projector.Batch.Tables.{Tables}
use solana_dashboard.Projector.Runner.{
  Finished, Turn, done, after_round, after_turn, replay_rounds, replay_from_start, run_rounds, run,
}
use solana_dashboard.Projector.Runner.Sql.{Database, sql_runner}
use solana_dashboard.Projector.Runner.Replay.{
  projected, idle_lem, checkpointed, checkpointed-drop, listing, Due, one_more,
}

module _ {A B C : Type 0} (t : Tables A B C) (codec : Codec) (name : String)
    (log : List ServiceEventLogEntry) (k : ℕ) (ascending : Ascending (ℤ.pos 0) log) where
  abbrev pub database : A × B × C → Offsets → Database A B C
  database s o = ((s.0, o), s.1, s.2)

  abbrev Left :
      List ServiceEventLogEntry → List ServiceEventLogEntry → A × B × C → A × B × C → Type 0
  Left = Due t codec name log k ascending

  abbrev pub caught_up : A × B × C → Offsets → Finished (Database A B C)
  caught_up s o = record { last_log_id = final_id (ℤ.pos 0) log; error = none; db = database s o }

  finished : {pre : List ServiceEventLogEntry} {s s' : A × B × C} → Left pre [] s s' → s ≡ s'
  finished due = ground (arith, due.projects)

  all_read :
      {pre : List ServiceEventLogEntry} {s s' : A × B × C}
      → Left pre [] s s'
      → final_id (ℤ.pos 0) pre ≡ final_id (ℤ.pos 0) log
  all_read {pre} due = ap (final_id (ℤ.pos 0)) (sym (due.split ∙ append-nil pre))

  checkpointed-next :
      (entry : ServiceEventLogEntry) (xs : List ServiceEventLogEntry) (o : Offsets)
      → checkpointed t codec name log k
          (drop k xs)
          (save_offset name (final_id entry.log_id (take k xs)) o)
        ≡ checkpointed t codec name log k (entry ∷ xs) o
  checkpointed-next entry xs o =
      checkpointed-drop t codec name log k entry.log_id (take k xs) (drop k xs) o
      ∙ ap (λ ys. save_offset name (final_id entry.log_id ys) o) (take-append-drop k xs)

  rounds_lem :
      (fuel : ℕ) (pre rest : List ServiceEventLogEntry) (s s' : A × B × C) (o : Offsets)
      → Left pre rest s s'
      → length rest < fuel
      → replay_rounds codec fuel
          (sql_runner name log t (suc k))
          (final_id (ℤ.pos 0) pre)
          (database s o)
        ≡ some (caught_up s' (checkpointed t codec name log k rest o))
  unfolding replay_rounds after_round
  rounds_lem zero pre rest s s' o due enough = elim enough [ ]
  rounds_lem (suc fuel) pre [] s s' o due enough =
      ap
        (after_round (final_id (ℤ.pos 0) pre)
          (replay_rounds codec fuel (sql_runner name log t (suc k))))
        (idle_lem t codec name log k (final_id (ℤ.pos 0) pre) (database s o)
          (listing t codec name log k ascending pre [] (suc k) due.split))
      ∙ (λ i.
          some (record {
            last_log_id = all_read due i;
            error = none;
            db = database (finished due i) o;
          }))
  rounds_lem (suc fuel) pre (entry ∷ xs) s s' o due enough =
      let next = one_more t codec name log k ascending pre xs entry o s s' due in
      ap
        (after_round (final_id (ℤ.pos 0) pre)
          (replay_rounds codec fuel (sql_runner name log t (suc k))))
        next.round
      ∙ (rounds_lem fuel (pre ++ entry ∷ take k xs) (drop k xs) next.state s'
            (save_offset name (final_id entry.log_id (take k xs)) o) next.due
            (omega (arith, length-drop-le k xs))
          ∙ ap (λ o'. some (caught_up s' o')) (checkpointed-next entry xs o))

  run_rounds_lem :
      (fuel : ℕ) (pre rest : List ServiceEventLogEntry) (s s' : A × B × C) (o : Offsets)
      (turns : List (Turn (Database A B C)))
      → Left pre rest s s'
      → length rest < fuel
      → run_rounds codec fuel
          (done ∷ turns)
          (sql_runner name log t (suc k))
          (final_id (ℤ.pos 0) pre)
          (database s o)
        ≡ some (none, database s' (checkpointed t codec name log k rest o))
  unfolding run_rounds after_turn
  run_rounds_lem zero pre rest s s' o turns due enough = elim enough [ ]
  run_rounds_lem (suc fuel) pre [] s s' o turns due enough =
      ap
        (after_turn (done ∷ turns)
          (λ turns'. run_rounds codec fuel turns' (sql_runner name log t (suc k))))
        (idle_lem t codec name log k (final_id (ℤ.pos 0) pre) (database s o)
          (listing t codec name log k ascending pre [] (suc k) due.split))
      ∙ (λ i. some (none, database (finished due i) o))
  run_rounds_lem (suc fuel) pre (entry ∷ xs) s s' o turns due enough =
      let next = one_more t codec name log k ascending pre xs entry o s s' due in
      ap
        (after_turn (done ∷ turns)
          (λ turns'. run_rounds codec fuel turns' (sql_runner name log t (suc k))))
        next.round
      ∙ (run_rounds_lem fuel (pre ++ entry ∷ take k xs) (drop k xs) next.state s'
            (save_offset name (final_id entry.log_id (take k xs)) o) turns next.due
            (omega (arith, length-drop-le k xs))
          ∙ ap (λ o'. some (none, database s' o')) (checkpointed-next entry xs o))

  -- ReplayFromStart over a log in ascending order of positive log ids, each of whose entries
  -- projects: with more rounds of fuel than the log has entries it ends without an error, at the
  -- last log id, with the read model that projecting each entry once and in order gives, and with
  -- that log id as the checkpoint. The batch size is any positive number.
  pub replay_from_start_lem :
      (fuel : ℕ) (s s' : A × B × C) (o : Offsets)
      → projected t codec log s ≡ ok s'
      → length log < fuel
      → replay_from_start codec fuel (sql_runner name log t (suc k)) (database s o)
        ≡ some (caught_up s' (checkpointed t codec name log k log o))
  unfolding replay_from_start
  replay_from_start_lem fuel s s' o h enough =
      rounds_lem fuel [] log s s' o (record { split = refl; projects = h }) enough

  -- Run, started from the checkpoint of a read model that holds the first part of
  -- the log, where each entry of the rest projects: with more rounds of fuel than the rest has
  -- entries it projects exactly the rest, each entry once and in order, and saves the last log id,
  -- before it first waits; stopped there, it returns no error. The log is in ascending order of
  -- positive log ids, and the batch size is any positive number.
  pub run_lem :
      (fuel : ℕ) (pre rest : List ServiceEventLogEntry) (s s' : A × B × C) (o : Offsets)
      (turns : List (Turn (Database A B C)))
      → log ≡ pre ++ rest
      → load_offset name o ≡ final_id (ℤ.pos 0) pre
      → projected t codec rest s ≡ ok s'
      → length rest < fuel
      → run codec fuel (done ∷ turns) (sql_runner name log t (suc k)) (database s o)
        ≡ some (none, database s' (checkpointed t codec name log k rest o))
  unfolding run
  run_lem fuel pre rest s s' o turns e at h enough =
      rw at (run_rounds_lem fuel pre rest s s' o turns (record { split = e; projects = h }) enough)
