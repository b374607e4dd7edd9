-- ===== src/Projector/Runner/Sql.antt =====
-- The runner over the event log, the checkpoints and a read model of separate tables.
use solana_dashboard.Common.{ℕ, Option, some, String, List, arith}
use solana_dashboard.Result.{Result, ok, ◌>>=◌}
use solana_dashboard.Store.{ServiceEventLogEntry}
use solana_dashboard.Store.ServiceEvents.{Offsets, list_after_log_id, load_offset, save_offset}
use solana_dashboard.Projector.Batch.{row_by_row}
use solana_dashboard.Projector.Batch.Simulation.{Simulation}
use solana_dashboard.Projector.Batch.Tables.{Tables, table_writer}
use solana_dashboard.Projector.Runner.{LogReader, Runner, batch_capable}

abbrev beside : {A : Type 0} → (A → Result A) → A × Offsets → Result (A × Offsets)
beside f (a, o) = f a >>= λ a'. ok (a', o)

-- The tables with the checkpoints beside them.
abbrev pub with_offsets : {A B C : Type 0} → Tables A B C → Tables (A × Offsets) B C
with_offsets t = record {
  upsert_token = λ r. beside (t.upsert_token r);
  upsert_token_metadata = λ r. beside (t.upsert_token_metadata r);
  upsert_token_market = λ r. beside (t.upsert_token_market r);
  close_token_market = λ id at. beside (t.close_token_market id at);
  insert_trade_event = t.insert_trade_event;
  insert_activity_event = t.insert_activity_event;
}

abbrev pub Database : Type 0 → Type 0 → Type 0 → Type 0
Database A B C = (A × Offsets) × B × C

abbrev pub beside_offsets : {A B C : Type 0} → Offsets → A × B × C → Option (Database A B C)
beside_offsets o (a, b, c) = some ((a, o), b, c)

module _ {A B C : Type 0} where
  -- The queries of ServiceEventStore, on a database that does not fail.
  abbrev pub sql_reader : List ServiceEventLogEntry → LogReader (Database A B C)
  sql_reader log = record {
    list_service_events_after_log_id = λ after limit d. ok (list_after_log_id log after limit);
    load_projection_checkpoint = λ name d. ok (load_offset name d.0.1);
    save_projection_checkpoint = λ name id d. ok ((d.0.0, save_offset name id d.0.1), d.1, d.2);
    begin = ok;
    commit = ok;
  }

  abbrev pub sql_runner :
      String → List ServiceEventLogEntry → Tables A B C → ℕ → Runner (Database A B C)
  sql_runner name log t size = record {
    name = name;
    reader = sql_reader log;
    projector = some (batch_capable (row_by_row (table_writer (with_offsets t))));
    batch_size = size;
  }

  pub with_offsets-Simulation :
      (t : Tables A B C) (o : Offsets)
      → Simulation (beside_offsets o) (table_writer t) (table_writer (with_offsets t))
  with_offsets-Simulation t o = record {
    token = λ r. record { at = λ s. ground arith };
    metadata = λ r. record { at = λ s. ground arith };
    market = λ r. record { at = λ s. ground arith };
    close = λ id at. record { at = λ s. ground arith };
    trade = λ r. record { at = λ s. ground arith };
    activity = λ r. record { at = λ s. ground arith };
  }
