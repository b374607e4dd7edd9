-- ===== src/Projector/Database/Prepared.antt =====
-- A write prepares its row, which may fail, and then acts on a table, which may not.
use solana_dashboard.Common.{◌≡◌, refl, String, Option, none, some, List, [], ◌∷◌, inl, inr}
use solana_dashboard.Common.Int.{ℤ}
use solana_dashboard.Result.{Result, ok, ◌>>=◌, Result-cases}
use solana_dashboard.Store.{
  TokenRecord, TokenMetadataRecord, TokenMarketRecord, TradeEventRecord, ActivityEventRecord,
}
use solana_dashboard.Store.ReadModel.{
  Numeric, merge_token, merge_metadata, merge_market, upsert, close_market, insert_once, token_row,
  market_row, metadata_row, trade_row, activity_row, same_trade, same_activity, unstamped,
  stamp_activity,
}
use solana_dashboard.Projector.Batch.{
  QueuedStateOp, CloseMarketOp, WriteBatch, for_each, first_op, apply_op, flush, row_by_row,
}
use solana_dashboard.Projector.Batch.Tables.{
  table_writer, state_part, state_loop, trade_loop, activity_loop,
}
use solana_dashboard.Projector.Database.{StateTables, TradeTable, ActivityTable, sql_tables}

unfoldable pub act_all : {Y S : Type 0} → (Y → S → S) → List Y → S → S
act_all act [] s = s
act_all act (y ∷ ys) s = act_all act ys (act y s)

pub prep_all : {X Y : Type 0} → (X → Result Y) → List X → Result (List Y)
prep_all prep [] = ok []
prep_all prep (x ∷ xs) = prep x >>= λ y. prep_all prep xs >>= λ ys. ok (y ∷ ys)

module _ {X Y S : Type 0} (prep : X → Result Y) (act : Y → S → S) where
  for_each-prepared :
      (step : X → S → Result S)
      → ((x : X) (s : S) → step x s ≡ (prep x >>= λ y. ok (act y s)))
      → (xs : List X) (s : S)
      → for_each step xs s ≡ (prep_all prep xs >>= λ ys. ok (act_all act ys s))
  unfolding prep_all act_all
  for_each-prepared step h [] s = refl
  for_each-prepared step h (x ∷ xs) s = elim (Result-cases (prep x)) [
    | inr (e, p) ↦ rw (h x s, p)
    | inl (y, p) ↦
        rw (h x s, p, for_each-prepared step h xs (act y s))
          elim (Result-cases (prep_all prep xs)) [ inr (e, q) ↦ rw q | inl (ys, q) ↦ rw q ]
  ]

-- A state operation with its row.
pub data StateOp : Type 0 where
  token : String → TokenRecord → StateOp
  metadata : String → TokenMetadataRecord → StateOp
  market : String → TokenMarketRecord → StateOp
  close : String → ℤ → StateOp
  nothing : StateOp

module _ (numeric : Numeric) where
  abbrev prep_first :
      Option TokenRecord
      → Option TokenMetadataRecord
      → Option TokenMarketRecord
      → Option CloseMarketOp
      → Result StateOp
  prep_first (some r) _ _ _ = ok (token r.mint (token_row r))
  prep_first none (some r) _ _ = metadata_row numeric r >>= λ row. ok (metadata r.mint row)
  prep_first none none (some r) _ = ok (market r.market_id (market_row r))
  prep_first none none none (some c) = ok (close c.market_id c.ended_at)
  prep_first none none none none = ok nothing

  abbrev pub prep_op : QueuedStateOp → Result StateOp
  prep_op op = prep_first op.token op.metadata op.market op.close_market

abbrev pub act_op : StateOp → StateTables → StateTables
act_op (token key row) (t, m, k) = (upsert merge_token key row t, m, k)
act_op (metadata key row) (t, m, k) = (t, upsert merge_metadata key row m, k)
act_op (market key row) (t, m, k) = (t, m, upsert merge_market key row k)
act_op (close id at) (t, m, k) = (t, m, close_market id at k)
act_op nothing s = s

-- A batch with its rows, and the flush of it.
pub record Prepared : Type 0 where
  pub ops : List StateOp
  pub trades : List TradeEventRecord
  pub activities : List ActivityEventRecord

unfoldable pub act_batch :
    Prepared → StateTables × TradeTable × ActivityTable → StateTables × TradeTable × ActivityTable
act_batch p (a, b, c) = (
  act_all act_op p.ops a,
  act_all (insert_once same_trade unstamped) p.trades b,
  act_all (insert_once same_activity stamp_activity) p.activities c,
)

module _ (numeric : Numeric) where
  abbrev pub prep_batch : WriteBatch → Result Prepared
  prep_batch w = prep_all (prep_op numeric) w.state_ops >>= λ ops.
      prep_all (trade_row numeric) w.trades >>= λ trades.
      prep_all (activity_row numeric) w.activities >>= λ activities.
      ok (record { ops = ops; trades = trades; activities = activities })

  first_op-prepared :
      (token : Option TokenRecord) (metadata : Option TokenMetadataRecord)
      (market : Option TokenMarketRecord) (close : Option CloseMarketOp) (s : StateTables)
      → first_op (state_part (sql_tables numeric)) token metadata market close s
        ≡ (prep_first numeric token metadata market close >>= λ o. ok (act_op o s))
  first_op-prepared (some r) _ _ _ s = refl
  first_op-prepared none (some r) _ _ s = elim (Result-cases (metadata_row numeric r)) [
    | inr (e, p) ↦ rw p
    | inl (row, p) ↦ rw p
  ]
  first_op-prepared none none (some r) _ s = refl
  first_op-prepared none none none (some c) s = refl
  first_op-prepared none none none none s = refl

  apply_op-prepared :
      (op : QueuedStateOp) (s : StateTables)
      → apply_op (state_part (sql_tables numeric)) op s
        ≡ (prep_op numeric op >>= λ o. ok (act_op o s))
  apply_op-prepared op s = first_op-prepared op.token op.metadata op.market op.close_market s

  pub flush-prepared :
      (w : WriteBatch) (a : StateTables) (b : TradeTable) (c : ActivityTable)
      → flush (row_by_row (table_writer (sql_tables numeric))) w (a, b, c)
        ≡ (prep_batch w >>= λ p. ok (act_batch p (a, b, c)))
  unfolding flush row_by_row act_batch
  flush-prepared w a b c =
      rw
        (
          state_loop (sql_tables numeric) w.state_ops b c a,
          for_each-prepared (prep_op numeric) act_op (apply_op (state_part (sql_tables numeric)))
              apply_op-prepared w.state_ops a,
        )
        elim (Result-cases (prep_all (prep_op numeric) w.state_ops)) [
          | inr (e, p) ↦ rw p
          | inl (ops, p) ↦
              rw
                (
                  p,
                  trade_loop (sql_tables numeric) w.trades (act_all act_op ops a) c b,
                  for_each-prepared (trade_row numeric) (insert_once same_trade unstamped)
                      (sql_tables numeric).insert_trade_event (λ r t. refl) w.trades b,
                )
                elim (Result-cases (prep_all (trade_row numeric) w.trades)) [
                  | inr (e, q) ↦ rw q
                  | inl (trades, q) ↦
                      rw
                        (
                          q,
                          activity_loop (sql_tables numeric) w.activities (act_all act_op ops a)
                              (act_all (insert_once same_trade unstamped) trades b) c,
                          for_each-prepared (activity_row numeric)
                              (insert_once same_activity stamp_activity)
                              (sql_tables numeric).insert_activity_event (λ r t. refl) w.activities
                              c,
                        )
                        elim (Result-cases (prep_all (activity_row numeric) w.activities)) [
                          | inr (e, z) ↦ rw z
                          | inl (activities, z) ↦ rw z
                        ]
                ]
        ]
