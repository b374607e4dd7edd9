-- ===== src/Projector/Batch.antt =====
-- The write batch: internal/projector/batch_writer.go, and the batch inserts of
-- internal/store/read_model.go that its Flush calls.
pub mod Simulation
pub mod Tables
use solana_dashboard.Common.{String, Option, none, some, List, [], ◌∷◌, ◌++◌}
use solana_dashboard.Common.Int.{ℤ}
use solana_dashboard.Result.{Result, ok, err, ◌>>=◌}
use solana_dashboard.Store.{
  TokenRecord, TokenMetadataRecord, TokenMarketRecord, TradeEventRecord, ActivityEventRecord,
}
use solana_dashboard.Projector.ReadModel.{Writer}

-- batchCapableWriter
pub record BatchWriter (S : Type 0) : Type 0 where
  pub writer : Writer S
  pub insert_trade_events_batch : List TradeEventRecord → S → Result S
  pub insert_activity_events_batch : List ActivityEventRecord → S → Result S

pub record CloseMarketOp : Type 0 where
  pub market_id : String
  pub ended_at : ℤ

-- queuedStateOp: four pointers, of which Flush obeys the first that is not nil.
pub record QueuedStateOp : Type 0 where
  pub token : Option TokenRecord
  pub metadata : Option TokenMetadataRecord
  pub market : Option TokenMarketRecord
  pub close_market : Option CloseMarketOp

pub record WriteBatch : Type 0 where
  pub state_ops : List QueuedStateOp
  pub trades : List TradeEventRecord
  pub activities : List ActivityEventRecord

-- newWriteBatch
abbrev pub new_write_batch : WriteBatch
new_write_batch = record { state_ops = []; trades = []; activities = [] }

abbrev no_op : QueuedStateOp
no_op = record { token = none; metadata = none; market = none; close_market = none }

abbrev queue : QueuedStateOp → WriteBatch → Result WriteBatch
queue op w = ok (record w { state_ops = w.state_ops ++ op ∷ [] })

-- The six methods of *writeBatch.
unfoldable pub batching : Writer WriteBatch
batching = record {
  upsert_token = λ r. queue (record no_op { token = some r });
  upsert_token_metadata = λ r. queue (record no_op { metadata = some r });
  upsert_token_market = λ r. queue (record no_op { market = some r });
  close_token_market = λ id at.
      queue (record no_op { close_market = some (record { market_id = id; ended_at = at }) });
  insert_trade_event = λ r w. ok (record w { trades = w.trades ++ r ∷ [] });
  insert_activity_event = λ r w. ok (record w { activities = w.activities ++ r ∷ [] });
}

-- A loop that stops at the first error.
abbrev pub for_each {ℓ} : {A : Type ℓ} {S : Type 0} → (A → S → Result S) → List A → S → Result S
for_each f [] s = ok s
for_each f (x ∷ xs) s = f x s >>= for_each f xs

module _ {S : Type 0} (w : Writer S) where
  abbrev pub first_op :
      Option TokenRecord
      → Option TokenMetadataRecord
      → Option TokenMarketRecord
      → Option CloseMarketOp
      → S
      → Result S
  first_op (some r) _ _ _ s = w.upsert_token r s
  first_op none (some r) _ _ s = w.upsert_token_metadata r s
  first_op none none (some r) _ s = w.upsert_token_market r s
  first_op none none none (some op) s = w.close_token_market op.market_id op.ended_at s
  first_op none none none none s = ok s

  abbrev pub apply_op : QueuedStateOp → S → Result S
  apply_op op = first_op op.token op.metadata op.market op.close_market

-- Flush
unfoldable pub flush : {S : Type 0} → BatchWriter S → WriteBatch → S → Result S
flush store w s0 = do
  s1 ← for_each (apply_op store.writer) w.state_ops s0
  s2 ← store.insert_trade_events_batch w.trades s1
  store.insert_activity_events_batch w.activities s2

-- InsertTradeEventsBatch and InsertActivityEventsBatch send one insert for each row, in order, and
-- stop at the first that fails.
unfoldable pub row_by_row : {S : Type 0} → Writer S → BatchWriter S
row_by_row w = record {
  writer = w;
  insert_trade_events_batch = for_each w.insert_trade_event;
  insert_activity_events_batch = for_each w.insert_activity_event;
}
