-- ===== src/Projector/Batch/Simulation.antt =====
-- When do two writers do the same? A state of one stands for a state of the other or for a failure,
-- and each write keeps that. Then so does the whole projector.
use solana_dashboard.Common.{
  ◌≡◌, refl, Option, none, some, String, ◌∙◌, Bool, true, false, if◌then◌else◌,
}
use solana_dashboard.Common.Int.{ℤ}
use solana_dashboard.Result.{Result, Error, ok, err, ◌>>=◌, map_err}
use solana_dashboard.Events.{
  Envelope, Payload, pumpfun_create, pumpfun_trade, pumpfun_migrate, pump_amm_create_pool,
  pump_amm_swap, pump_amm_liquidity, unknown,
}
use solana_dashboard.Events.Decoder.{Codec}
use solana_dashboard.Store.{
  TokenRecord, TokenMetadataRecord, TokenMarketRecord, TradeEventRecord, ActivityEventRecord,
}
use solana_dashboard.Projector.{project}
use solana_dashboard.Projector.ReadModel.{Writer}
use solana_dashboard.Projector.Values.{is_empty, tracked_mint}
use solana_dashboard.Projector.Pumpfun.{
  insert_activity, project_pumpfun_create, project_pumpfun_trade, project_pumpfun_migrate,
}
use solana_dashboard.Projector.PumpAmm.{
  project_pump_amm_create_pool, project_pump_amm_swap, project_pump_amm_liquidity,
  build_pump_amm_trade,
}

-- A result with its error forgotten, and the chain of such.
abbrev pub value {ℓ} : {A : Type ℓ} → Result A → Option A
value (ok a) = some a
value (err e) = none

abbrev pub bind {ℓ κ} : {A : Type ℓ} {B : Type κ} → Option A → (A → Option B) → Option B
bind none f = none
bind (some a) f = f a

module _ {X Y : Type 0} (stands : X → Option Y) where
  -- A step on one side is simulated by a step on the other, failures included.
  pub record Simulates (f : X → Result X) (g : Y → Result Y) : Type 0 where
    pub at : (x : X) → bind (stands x) (λ y. value (g y)) ≡ bind (value (f x)) stands

  some_of : (o : Option Y) → bind o (λ y. some y) ≡ o
  some_of none = refl
  some_of (some y) = refl

  pub Simulates-ok : Simulates ok ok
  Simulates-ok = record { at = λ x. some_of (stands x) }

  forgotten : (o : Option Y) → bind {B = Y} o (λ y. none) ≡ none
  forgotten none = refl
  forgotten (some y) = refl

  pub Simulates-err : (e : Error) → Simulates (λ _. err e) (λ _. err e)
  Simulates-err e = record { at = λ x. forgotten (stands x) }

  then_step :
      (o : Option Y) (r : Result X) (g g' : Y → Result Y) (f' : X → Result X)
      → bind o (λ y. value (g y)) ≡ bind (value r) stands
      → ((x : X) → bind (stands x) (λ y. value (g' y)) ≡ bind (value (f' x)) stands)
      → bind o (λ y. value (g y >>= g')) ≡ bind (value (r >>= f')) stands
  then_step o r g g' f' h h' = assoc o ∙ rest r h
    where
      one : (q : Result Y) → value (q >>= g') ≡ bind (value q) (λ y. value (g' y))
      one (ok y) = refl
      one (err e) = refl

      assoc :
          (o : Option Y)
          → bind o (λ y. value (g y >>= g')) ≡ bind (bind o (λ y. value (g y))) (λ y. value (g' y))
      assoc none = refl
      assoc (some y) = one (g y)

      rest :
          (r : Result X)
          → bind o (λ y. value (g y)) ≡ bind (value r) stands
          → bind (bind o (λ y. value (g y))) (λ y. value (g' y)) ≡ bind (value (r >>= f')) stands
      rest (ok x) e = rw e (h' x)
      rest (err e') e = rw e

  pub Simulates-then :
      {f f' : X → Result X} {g g' : Y → Result Y}
      → Simulates f g
      → Simulates f' g'
      → Simulates (λ x. f x >>= f') (λ y. g y >>= g')
  Simulates-then {f} {f'} {g} {g'} h h' = record {
    at = λ x. then_step (stands x) (f x) g g' f' (h.at x) h'.at;
  }

  -- A value that both sides compute alike, before they go on.
  pub Simulates-with :
      {A : Type 0} (m : Result A) {f : A → X → Result X} {g : A → Y → Result Y}
      → ((a : A) → Simulates (f a) (g a))
      → Simulates (λ x. m >>= λ a. f a x) (λ y. m >>= λ a. g a y)
  Simulates-with (ok a) h = h a
  Simulates-with (err e) h = Simulates-err e

  pub Simulates-if :
      (b : Bool) {f f' : X → Result X} {g g' : Y → Result Y}
      → Simulates f g
      → Simulates f' g'
      → Simulates (λ x. if b then f x else f' x) (λ y. if b then g y else g' y)
  Simulates-if true h h' = h
  Simulates-if false h h' = h'

-- Writers that simulate each other write for write.
pub record Simulation {X Y : Type 0} (stands : X → Option Y) (v : Writer X) (w : Writer Y)
    : Type 0 where
  pub token : (r : TokenRecord) → Simulates stands (v.upsert_token r) (w.upsert_token r)
  pub metadata :
      (r : TokenMetadataRecord)
      → Simulates stands (v.upsert_token_metadata r) (w.upsert_token_metadata r)
  pub market :
      (r : TokenMarketRecord) → Simulates stands (v.upsert_token_market r) (w.upsert_token_market r)
  pub close :
      (id : String) (at : ℤ)
      → Simulates stands (v.close_token_market id at) (w.close_token_market id at)
  pub trade :
      (r : TradeEventRecord) → Simulates stands (v.insert_trade_event r) (w.insert_trade_event r)
  pub activity :
      (r : ActivityEventRecord)
      → Simulates stands (v.insert_activity_event r) (w.insert_activity_event r)

module _ {X Y : Type 0} {stands : X → Option Y} {v : Writer X} {w : Writer Y}
    (sim : Simulation stands v w) (codec : Codec) (event : Envelope) where
  insert_activity-Simulates :
      (mint kind : String) (r : ActivityEventRecord)
      → Simulates stands
          (insert_activity codec v event mint kind r)
          (insert_activity codec w event mint kind r)
  unfolding insert_activity
  insert_activity-Simulates mint kind r =
      Simulates-with stands (map_err _ (codec.marshal event.payload)) (λ details. sim.activity _)

  pub project-Simulates :
      (payload : Payload)
      → Simulates stands (project codec v event payload) (project codec w event payload)
  unfolding project project_pumpfun_create project_pumpfun_trade project_pumpfun_migrate
      project_pump_amm_create_pool project_pump_amm_swap project_pump_amm_liquidity
  project-Simulates (pumpfun_create p) = Simulates-then stands (sim.token _) (
      Simulates-then stands (sim.metadata _)
        (Simulates-then stands (sim.market _) (insert_activity-Simulates _ _ _)))
  project-Simulates (pumpfun_trade p) =
      Simulates-then stands (sim.trade _) (insert_activity-Simulates _ _ _)
  project-Simulates (pumpfun_migrate p) =
      Simulates-then stands
        (Simulates-if stands (is_empty p.bonding_curve) (Simulates-ok stands) (sim.close _ _))
        (Simulates-then stands (sim.token _)
          (Simulates-then stands (sim.market _) (insert_activity-Simulates _ _ _)))
  project-Simulates (pump_amm_create_pool p) =
      Simulates-if stands (is_empty (tracked_mint event p.base_mint p.quote_mint))
        (Simulates-err stands _)
        (Simulates-then stands (sim.token _) (
          Simulates-then stands (sim.metadata _)
            (Simulates-then stands (sim.market _) (insert_activity-Simulates _ _ _))))
  project-Simulates (pump_amm_swap p) =
      Simulates-with stands (build_pump_amm_trade event p)
        (λ trade. Simulates-then stands (sim.trade _) (insert_activity-Simulates _ _ _))
  project-Simulates (pump_amm_liquidity p) =
      Simulates-if stands (is_empty (tracked_mint event p.base_mint p.quote_mint))
        (Simulates-err stands _) (insert_activity-Simulates _ _ _)
  project-Simulates unknown = Simulates-ok stands
