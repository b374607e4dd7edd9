-- ===== src/Examples/Replay.antt =====
-- A log of two PumpAMM swaps, replayed into tables that keep the ids of the events.
use solana_dashboard.Common.{◌≡◌, refl, String, none, some, List, [], ◌∷◌, arith}
use solana_dashboard.Common.Int.{pos}
use solana_dashboard.Result.{ok, err, external}
use solana_dashboard.Events.{Envelope, PumpAmmSwapPayload}
use solana_dashboard.Events.Decoder.{Codec, decode_payload}
use solana_dashboard.Store.{ServiceEventLogEntry, sol_mint}
use solana_dashboard.Store.ServiceEvents.{load_offset, Ascending}
use solana_dashboard.Projector.{project}
use solana_dashboard.Projector.Values.{
  tracked_mint, mint_or_paired, paired_mint, required_amount, ptr_if_not_empty,
}
use solana_dashboard.Projector.Pumpfun.{insert_activity}
use solana_dashboard.Projector.PumpAmm.{
  project_pump_amm_swap, build_pump_amm_trade, based_trade, swap_record,
}
use solana_dashboard.Projector.Batch.Tables.{Tables}
use solana_dashboard.Projector.Runner.{
  Runner, replay_batch, replay_entry, replay_from_start, run, done,
}
use solana_dashboard.Projector.Runner.Equivalence.{
  seen, with_store, batching_store, direct_store, replay_batch-batching,
}
use solana_dashboard.Projector.Runner.Sql.{sql_runner}
use solana_dashboard.Projector.Runner.Replay.{projected, checkpointed}
use solana_dashboard.Projector.Runner.Recovery.{replay_from_start_lem, run_lem, caught_up, database}

abbrev pub swap : PumpAmmSwapPayload
swap = record {
  side = "sell";
  ix_name = "sell";
  pool = "pool";
  user = "user";
  base_mint = "mint";
  quote_mint = sol_mint;
  coin_creator = "creator";
  base_amount_in = some "100";
  base_amount_out = none;
  quote_amount_in = none;
  quote_amount_out = some "7";
  lp_fee = "0";
  protocol_fee = "0";
  coin_creator_fee = "0";
  cashback = "0";
  pool_base_token_reserves = "1";
  pool_quote_token_reserves = "1";
  instruction_args = record {
    base_amount_in = none;
    min_quote_amount_out = none;
    base_amount_out = none;
    max_quote_amount_in = none;
    spendable_quote_in = none;
    min_base_amount_out = none;
  };
}

-- Every payload text reads as the swap above, or as nothing.
abbrev pub codec : Codec
codec = record {
  unmarshal_trade = λ _. err (external 0);
  unmarshal_create = λ _. err (external 0);
  unmarshal_migrate = λ _. err (external 0);
  unmarshal_swap = λ _. ok swap;
  unmarshal_create_pool = λ _. err (external 0);
  unmarshal_liquidity = λ _. err (external 0);
  marshal = ok;
}

abbrev pub event : String → String → Envelope
event event_type event_id = record {
  log_id = pos 0;
  schema_version = pos 1;
  event_id = event_id;
  chain = "solana";
  protocol = "pumpamm";
  event_type = event_type;
  commitment = "processed";
  slot = 1;
  tx_signature = "tx";
  tx_index = 0;
  instruction_path = record { source = "outer"; outer_index = pos 0; inner_index = none };
  event_source = "log";
  event_unix_ts = pos 100;
  refs = record {
    mint = none;
    pool = none;
    bonding_curve = none;
    user = none;
    creator = none;
    base_mint = none;
    quote_mint = none;
    lp_mint = none;
  };
  payload = [];
}

abbrev pub first : ServiceEventLogEntry
first = record { log_id = pos 3; event = event "swap" "a"; created_at = pos 100 }

abbrev pub second : ServiceEventLogEntry
second = record { log_id = pos 5; event = event "swap" "b"; created_at = pos 100 }

abbrev pub log : List ServiceEventLogEntry
log = first ∷ second ∷ []

abbrev Ids : Type 0
Ids = List String

abbrev tables : Tables Ids Ids Ids
tables = record {
  upsert_token = λ r a. ok (r.mint ∷ a);
  upsert_token_metadata = λ r a. ok (r.mint ∷ a);
  upsert_token_market = λ r a. ok (r.market_id ∷ a);
  close_token_market = λ id at a. ok a;
  insert_trade_event = λ r b. ok (r.event_id ∷ b);
  insert_activity_event = λ r c. ok (r.event_id ∷ c);
}

ascending : Ascending (pos 0) log
ascending = (omega arith, (omega arith, tt))

both_project : projected tables codec log ([], [], []) ≡ ok ([], "b" ∷ "a" ∷ [], "b" ∷ "a" ∷ [])
unfolding replay_entry decode_payload project project_pump_amm_swap build_pump_amm_trade
    tracked_mint mint_or_paired paired_mint based_trade required_amount swap_record insert_activity
    ptr_if_not_empty
both_project = refl

second_projects :
    projected tables codec (second ∷ []) ([], "a" ∷ [], "a" ∷ [])
    ≡ ok ([], "b" ∷ "a" ∷ [], "b" ∷ "a" ∷ [])
unfolding replay_entry decode_payload project project_pump_amm_swap build_pump_amm_trade
    tracked_mint mint_or_paired paired_mint based_trade required_amount swap_record insert_activity
    ptr_if_not_empty
second_projects = refl

replay_from_start_example :
    replay_from_start codec 3
      (sql_runner "projector" log tables 1)
      (database tables codec "projector" log 0 ascending ([], [], []) [])
    ≡ some (
        caught_up tables codec "projector" log 0 ascending
          ([], "b" ∷ "a" ∷ [], "b" ∷ "a" ∷ [])
          (checkpointed tables codec "projector" log 0 log []))
replay_from_start_example =
    replay_from_start_lem tables codec "projector" log 0 ascending 3 ([], [], [])
      ([], "b" ∷ "a" ∷ [], "b" ∷ "a" ∷ []) [] both_project (omega arith)

run_example :
    run codec 2 (done ∷ []) (sql_runner "projector" log tables 1) (
      database tables codec "projector" log 0 ascending
        ([], "a" ∷ [], "a" ∷ [])
        (("projector", pos 3) ∷ []))
    ≡ some (
      none,
      database tables codec "projector" log 0 ascending
          ([], "b" ∷ "a" ∷ [], "b" ∷ "a" ∷ [])
          (checkpointed tables codec "projector" log 0 (second ∷ []) (("projector", pos 3) ∷ [])),
    )
unfolding load_offset
run_example =
    run_lem tables codec "projector" log 0 ascending 2 (first ∷ []) (second ∷ [])
      ([], "a" ∷ [], "a" ∷ []) ([], "b" ∷ "a" ∷ [], "b" ∷ "a" ∷ []) (("projector", pos 3) ∷ []) []
      refl refl second_projects (omega arith)

abbrev small_runner : Runner (Ids × Ids × Ids)
small_runner = record {
  name = "projector";
  reader = record {
    list_service_events_after_log_id = λ after limit d. ok log;
    load_projection_checkpoint = λ name d. ok (pos 0);
    save_projection_checkpoint = λ name id d. ok d;
    begin = ok;
    commit = ok;
  };
  projector = none;
  batch_size = 2;
}

replay_batch-batching_example :
    seen (
      replay_batch codec
        (with_store tables codec small_runner (batching_store tables codec small_runner))
        (pos 0)
        ([], [], []))
    ≡ seen (
        replay_batch codec
          (with_store tables codec small_runner (direct_store tables codec small_runner))
          (pos 0)
          ([], [], []))
replay_batch-batching_example = replay_batch-batching tables codec small_runner (pos 0) ([], [], [])
