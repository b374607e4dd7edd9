-- ===== src/Projector/Batch/Tables.antt =====
-- A read model of separate tables: the state tables (tokens, metadata, markets), the trade events
-- and the activity events. Collecting a batch and flushing it does what the direct writes do.
use solana_dashboard.Common.{
  ◌≡◌, refl, sym, ◌∙◌, ap, Option, none, some, String, List, [], ◌∷◌, ◌++◌, arith, inl, inr,
}
use solana_dashboard.Common.Int.{ℤ}
use solana_dashboard.Result.{Result, ok, err, ◌>>=◌, Result-cases}
use solana_dashboard.Store.{
  TokenRecord, TokenMetadataRecord, TokenMarketRecord, TradeEventRecord, ActivityEventRecord,
}
use solana_dashboard.Projector.ReadModel.{Writer}
use solana_dashboard.Projector.Batch.{
  QueuedStateOp, WriteBatch, batching, for_each, apply_op, flush, row_by_row,
}
use solana_dashboard.Projector.Batch.Simulation.{value, bind, Simulation}

-- Each write changes its own table, by whatever rule.
pub record Tables (A B C : Type 0) : Type 0 where
  pub upsert_token : TokenRecord → A → Result A
  pub upsert_token_metadata : TokenMetadataRecord → A → Result A
  pub upsert_token_market : TokenMarketRecord → A → Result A
  pub close_token_market : String → ℤ → A → Result A
  pub insert_trade_event : TradeEventRecord → B → Result B
  pub insert_activity_event : ActivityEventRecord → C → Result C

module _ {A B C : Type 0} where
  abbrev on_state : (A → Result A) → A × B × C → Result (A × B × C)
  on_state f (a, b, c) = f a >>= λ a'. ok (a', b, c)

  abbrev on_trades : (B → Result B) → A × B × C → Result (A × B × C)
  on_trades f (a, b, c) = f b >>= λ b'. ok (a, b', c)

  abbrev on_activities : (C → Result C) → A × B × C → Result (A × B × C)
  on_activities f (a, b, c) = f c >>= λ c'. ok (a, b, c')

  abbrev pub table_writer : Tables A B C → Writer (A × B × C)
  table_writer t = record {
    upsert_token = λ r. on_state (t.upsert_token r);
    upsert_token_metadata = λ r. on_state (t.upsert_token_metadata r);
    upsert_token_market = λ r. on_state (t.upsert_token_market r);
    close_token_market = λ id at. on_state (t.close_token_market id at);
    insert_trade_event = λ r. on_trades (t.insert_trade_event r);
    insert_activity_event = λ r. on_activities (t.insert_activity_event r);
  }

abbrev pub state_part : {A B C : Type 0} → Tables A B C → Writer A
state_part t = record {
  upsert_token = t.upsert_token;
  upsert_token_metadata = t.upsert_token_metadata;
  upsert_token_market = t.upsert_token_market;
  close_token_market = t.close_token_market;
  insert_trade_event = λ r a. ok a;
  insert_activity_event = λ r a. ok a;
}

then_ok {ℓ} : {A : Type ℓ} (r : Result A) → value (r >>= ok) ≡ value r
then_ok (ok a) = refl
then_ok (err e) = refl

for_each-append :
    {X S : Type 0} (f : X → S → Result S) (xs : List X) (x : X) (s : S)
    → value (for_each f (xs ++ x ∷ []) s) ≡ bind (value (for_each f xs s)) (λ s'. value (f x s'))
for_each-append f [] x s = then_ok (f x s)
for_each-append f (y ∷ xs) x s = elim (Result-cases (f y s)) [
  | inl (s', e) ↦ rw e (for_each-append f xs x s')
  | inr (e', e) ↦ rw e
]

-- A loop over one part of a store is a loop on that part.
for_each-part :
    {X S P : Type 0} (f : X → P → Result P) (put : P → S) (g : X → S → Result S)
    → ((x : X) (p : P) → g x (put p) ≡ (f x p >>= λ p'. ok (put p')))
    → (xs : List X) (p : P) → for_each g xs (put p) ≡ (for_each f xs p >>= λ p'. ok (put p'))
for_each-part f put g h [] p = refl
for_each-part f put g h (x ∷ xs) p = elim (Result-cases (f x p)) [
  | inl (p', e) ↦ rw (h x p, e) (for_each-part f put g h xs p')
  | inr (e', e) ↦ rw (h x p, e)
]

module _ {A B C : Type 0} (t : Tables A B C) where
  op_part :
      (op : QueuedStateOp) (b : B) (c : C) (a : A)
      → apply_op (table_writer t) op (a, b, c)
        ≡ (apply_op (state_part t) op a >>= λ a'. ok (a', b, c))
  op_part op b c a = ground arith

  pub state_loop :
      (ops : List QueuedStateOp) (b : B) (c : C) (a : A)
      → for_each (apply_op (table_writer t)) ops (a, b, c)
        ≡ (for_each (apply_op (state_part t)) ops a >>= λ a'. ok (a', b, c))
  state_loop ops b c a =
      for_each-part (apply_op (state_part t)) (λ a'. (a', b, c)) _ (λ op a'. op_part op b c a') ops
        a

  pub trade_loop :
      (rows : List TradeEventRecord) (a : A) (c : C) (b : B)
      → for_each (table_writer t).insert_trade_event rows (a, b, c)
        ≡ (for_each t.insert_trade_event rows b >>= λ b'. ok (a, b', c))
  trade_loop rows a c b =
      for_each-part t.insert_trade_event (λ b'. (a, b', c)) _ (λ r b'. refl) rows b

  pub activity_loop :
      (rows : List ActivityEventRecord) (a : A) (b : B) (c : C)
      → for_each (table_writer t).insert_activity_event rows (a, b, c)
        ≡ (for_each t.insert_activity_event rows c >>= λ c'. ok (a, b, c'))
  activity_loop rows a b c =
      for_each-part t.insert_activity_event (λ c'. (a, b, c')) _ (λ r c'. refl) rows c

  -- The three loops of a flush, each on its own part.
  states : WriteBatch → A → Option A
  states w a = value (for_each (apply_op (state_part t)) w.state_ops a)

  trades : WriteBatch → B → Option B
  trades w b = value (for_each t.insert_trade_event w.trades b)

  activities : WriteBatch → C → Option C
  activities w c = value (for_each t.insert_activity_event w.activities c)

  abbrev together : Option A → Option B → Option C → Option (A × B × C)
  together (some a) (some b) (some c) = some (a, b, c)
  together (some a) (some b) none = none
  together (some a) none c = none
  together none b c = none

  abbrev flushed : WriteBatch → A × B × C → Option (A × B × C)
  flushed w s = value (flush (row_by_row (table_writer t)) w s)

  flushed_lem :
      (w : WriteBatch) (a : A) (b : B) (c : C)
      → flushed w (a, b, c) ≡ together (states w a) (trades w b) (activities w c)
  unfolding flush row_by_row states trades activities
  flushed_lem w a b c =
      rw (state_loop w.state_ops b c a)
        elim (Result-cases (for_each (apply_op (state_part t)) w.state_ops a)) [
          | inr (_, ea) ↦ rw ea
          | inl (a', ea) ↦
              rw (ea, trade_loop w.trades a' c b)
                elim (Result-cases (for_each t.insert_trade_event w.trades b)) [
                  | inr (_, eb) ↦ rw eb
                  | inl (b', eb) ↦
                      rw (eb, activity_loop w.activities a' b' c)
                        elim (Result-cases (for_each t.insert_activity_event w.activities c)) [
                          | inr (_, ec) ↦ rw ec
                          | inl (c', ec) ↦ rw ec
                        ]
                ]
        ]

  together_state :
      (oa : Option A) (ob : Option B) (oc : Option C) (f : A → Result A)
      → bind (together oa ob oc) (λ s. value (on_state f s))
        ≡ together (bind oa (λ a. value (f a))) ob oc
  together_state oa ob oc f = ground arith

  together_trades :
      (oa : Option A) (ob : Option B) (oc : Option C) (f : B → Result B)
      → bind (together oa ob oc) (λ s. value (on_trades f s))
        ≡ together oa (bind ob (λ b. value (f b))) oc
  together_trades oa ob oc f = ground arith

  together_activities :
      (oa : Option A) (ob : Option B) (oc : Option C) (f : C → Result C)
      → bind (together oa ob oc) (λ s. value (on_activities f s))
        ≡ together oa ob (bind oc (λ c. value (f c)))
  together_activities oa ob oc f = ground arith

  module _ (a : A) (b : B) (c : C) where
    abbrev after_flush : WriteBatch → Option (A × B × C)
    after_flush w = flushed w (a, b, c)

    state_op :
        (op : QueuedStateOp) (w : WriteBatch)
        → bind (after_flush w) (λ s. value (on_state (apply_op (state_part t) op) s))
          ≡ after_flush (record w { state_ops = w.state_ops ++ op ∷ [] })
    unfolding states trades activities
    state_op op w =
        rw
          (flushed_lem w a b c, flushed_lem (record w { state_ops = w.state_ops ++ op ∷ [] }) a b c)
          (together_state (states w a) (trades w b) (activities w c) _
            ∙ ap (λ oa. together oa (trades w b) (activities w c))
                (sym (for_each-append (apply_op (state_part t)) w.state_ops op a)))

    -- A write into the batch, flushed later, is the write on the tables after a flush.
    pub batching-Simulation : Simulation after_flush batching (table_writer t)
    unfolding batching states trades activities
    batching-Simulation = record {
      token = λ r. record { at = state_op _ };
      metadata = λ r. record { at = state_op _ };
      market = λ r. record { at = state_op _ };
      close = λ id at. record { at = state_op _ };
      trade = λ r. record {
        at = λ w.
            rw (flushed_lem w a b c, flushed_lem (record w { trades = w.trades ++ r ∷ [] }) a b c)
              (together_trades (states w a) (trades w b) (activities w c) _
                ∙ ap (λ ob. together (states w a) ob (activities w c))
                    (sym (for_each-append t.insert_trade_event w.trades r b)));
      };
      activity = λ r. record {
        at = λ w.
            rw
              (
                flushed_lem w a b c,
                flushed_lem (record w { activities = w.activities ++ r ∷ [] }) a b c,
              )
              (together_activities (states w a) (trades w b) (activities w c) _
                ∙ ap (together (states w a) (trades w b))
                    (sym (for_each-append t.insert_activity_event w.activities r c)));
      };
    }
