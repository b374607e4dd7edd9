-- ===== src/Projector/Database/Twice.antt =====
-- Replaying a log that the tables already hold.
use solana_dashboard.Common.{
  ℕ, ◌≡◌, refl, sym, ap, ◌∙◌, subst, String, Bool, true, ◌&&◌, List, [], ◌∷◌, str_eq, eq_refl,
  arith,
}
use solana_dashboard.Common.Int.{ℤ, eqb_ℤ, eqb_ℤ_refl}
use solana_dashboard.Result.{ok, ◌>>=◌, ok_steps}
use solana_dashboard.Events.Decoder.{Codec}
use solana_dashboard.Store.{TokenRecord, TokenMetadataRecord, ServiceEventLogEntry}
use solana_dashboard.Store.ReadModel.{
  Numeric, Events, merge_token, merge_metadata, insert_once, same_trade, same_activity, unstamped,
  stamp_activity,
}
use solana_dashboard.Store.ReadModel.Band.{upsert_all, upsert_all_twice}
use solana_dashboard.Store.ReadModel.Once.{insert_all_once, insert_all_once_twice}
use solana_dashboard.Store.ReadModel.Merge.{merge_token-IsBand, merge_metadata-IsBand}
use solana_dashboard.Projector.Runner.Equivalence.{direct-collected, collected-direct}
use solana_dashboard.Projector.Runner.Replay.{projected}
use solana_dashboard.Projector.Database.{StateTables, TradeTable, ActivityTable, sql_tables}
use solana_dashboard.Projector.Database.Prepared.{
  StateOp, token, metadata, market, close, nothing, Prepared, act_all, act_op, act_batch,
  prep_batch, flush-prepared,
}

tokens_of : List StateOp → List (String × TokenRecord)
tokens_of [] = []
tokens_of (token key row ∷ ops) = (key, row) ∷ tokens_of ops
tokens_of (metadata _ _ ∷ ops) = tokens_of ops
tokens_of (market _ _ ∷ ops) = tokens_of ops
tokens_of (close _ _ ∷ ops) = tokens_of ops
tokens_of (nothing ∷ ops) = tokens_of ops

metadata_of : List StateOp → List (String × TokenMetadataRecord)
metadata_of [] = []
metadata_of (metadata key row ∷ ops) = (key, row) ∷ metadata_of ops
metadata_of (token _ _ ∷ ops) = metadata_of ops
metadata_of (market _ _ ∷ ops) = metadata_of ops
metadata_of (close _ _ ∷ ops) = metadata_of ops
metadata_of (nothing ∷ ops) = metadata_of ops

act_all-tokens :
    (ops : List StateOp) (s : StateTables)
    → (act_all act_op ops s).0 ≡ upsert_all merge_token (tokens_of ops) s.0
unfolding act_all upsert_all tokens_of
act_all-tokens [] s = refl
act_all-tokens (token key row ∷ ops) s = act_all-tokens ops (act_op (token key row) s)
act_all-tokens (metadata key row ∷ ops) s = act_all-tokens ops (act_op (metadata key row) s)
act_all-tokens (market key row ∷ ops) s = act_all-tokens ops (act_op (market key row) s)
act_all-tokens (close id at ∷ ops) s = act_all-tokens ops (act_op (close id at) s)
act_all-tokens (nothing ∷ ops) s = act_all-tokens ops s

act_all-metadata :
    (ops : List StateOp) (s : StateTables)
    → (act_all act_op ops s).1 ≡ upsert_all merge_metadata (metadata_of ops) s.1
unfolding act_all upsert_all metadata_of
act_all-metadata [] s = refl
act_all-metadata (token key row ∷ ops) s = act_all-metadata ops (act_op (token key row) s)
act_all-metadata (metadata key row ∷ ops) s = act_all-metadata ops (act_op (metadata key row) s)
act_all-metadata (market key row ∷ ops) s = act_all-metadata ops (act_op (market key row) s)
act_all-metadata (close id at ∷ ops) s = act_all-metadata ops (act_op (close id at) s)
act_all-metadata (nothing ∷ ops) s = act_all-metadata ops s

act_all-inserts :
    {R : Type 0} (same : R → R → Bool) (stamp : ℕ → R → R) (xs : List R) (e : Events R)
    → act_all (insert_once same stamp) xs e ≡ insert_all_once same stamp xs e
unfolding act_all insert_all_once
act_all-inserts same stamp [] e = refl
act_all-inserts same stamp (x ∷ xs) e = act_all-inserts same stamp xs (insert_once same stamp x e)

same_key : (id : String) (at : ℤ) → (str_eq id id && eqb_ℤ at at) ≡ true
same_key id at = rw (eq_refl id, eqb_ℤ_refl at)

-- The tables but for the markets, and without the sequences that number the rows.
abbrev pub SameRows :
    StateTables × TradeTable × ActivityTable → StateTables × TradeTable × ActivityTable → Type 0
SameRows (a, b, c) (a', b', c') =
    (a.0 ≡ a'.0) × (a.1 ≡ a'.1) × (b.rows ≡ b'.rows) × (c.rows ≡ c'.rows)

act_twice :
    {S : Type 0} {T : Type 0} (run : S → S) (part : S → T) (all : T → T)
    → ((s : S) → part (run s) ≡ all (part s))
    → ((t : T) → all (all t) ≡ all t)
    → (s : S) → part (run (run s)) ≡ part (run s)
act_twice run part all h twice s = h (run s) ∙ ap all (h s) ∙ twice (part s) ∙ sym (h s)

inserts_twice :
    {R : Type 0} (same : R → R → Bool) (stamp : ℕ → R → R)
    → ((n : ℕ) (x : R) → same (stamp n x) x ≡ true)
    → (xs : List R) (e : Events R)
    → (act_all (insert_once same stamp) xs (act_all (insert_once same stamp) xs e)).rows
      ≡ (act_all (insert_once same stamp) xs e).rows
inserts_twice same stamp stamped xs e =
    rw
      (
        act_all-inserts same stamp xs e,
        act_all-inserts same stamp xs (insert_all_once same stamp xs e),
      )
      (insert_all_once_twice same stamp stamped xs e)

act_batch_twice :
    (p : Prepared) (s : StateTables × TradeTable × ActivityTable)
    → SameRows (act_batch p (act_batch p s)) (act_batch p s)
unfolding act_batch
act_batch_twice p (a, b, c) = (
  act_twice (act_all act_op p.ops) (λ s. s.0) (upsert_all merge_token (tokens_of p.ops))
      (act_all-tokens p.ops) (upsert_all_twice merge_token merge_token-IsBand (tokens_of p.ops)) a,
  act_twice (act_all act_op p.ops) (λ s. s.1) (upsert_all merge_metadata (metadata_of p.ops))
      (act_all-metadata p.ops)
      (upsert_all_twice merge_metadata merge_metadata-IsBand (metadata_of p.ops)) a,
  inserts_twice same_trade unstamped (λ n x. same_key x.event_id x.event_unix_ts) p.trades b,
  inserts_twice same_activity stamp_activity (λ n x. same_key x.event_id x.event_unix_ts)
      p.activities c,
)

ok_inj : {A : Type 0} {a b : A} → ok a ≡ ok b → a ≡ b
ok_inj h = ground arith

module _ (numeric : Numeric) (codec : Codec) where
  -- Replaying, on the tables that it left, a log that projects without an error succeeds too, and
  -- leaves every row of the tokens, the token metadata, the trade events and the activity events as
  -- it was.
  pub projected_twice :
      (log : List ServiceEventLogEntry) (s : StateTables × TradeTable × ActivityTable)
      {s' : StateTables × TradeTable × ActivityTable}
      → projected (sql_tables numeric) codec log s ≡ ok s'
      → (s'' : StateTables × TradeTable × ActivityTable) × (projected
            (sql_tables numeric)
            codec
            log
            s'
          ≡ ok s'')
        × SameRows s'' s'
  projected_twice log (a, b, c) {s'} h =
      let t = sql_tables numeric in
      let (w, g, f) = direct-collected t codec log a b c h in
      let (p, prepared, acted) =
        ok_steps (prep_batch numeric w) (λ p. ok (act_batch p (a, b, c)))
          (sym (flush-prepared numeric w a b c) ∙ f) in
      let eq = ok_inj acted in
      (
        act_batch p s',
        collected-direct t codec log s'.0 s'.1 s'.2 g (
            flush-prepared numeric w s'.0 s'.1 s'.2
            ∙ ap (λ q. q >>= λ p. ok (act_batch p s')) prepared),
        subst (λ s. SameRows (act_batch p s) s) eq (act_batch_twice p (a, b, c)),
      )
