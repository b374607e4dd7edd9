-- ===== src/Ingest/Mint.antt =====
-- The ingest service and the projector each find the mint of a PumpAMM event: extractMint of
-- internal/ingest/service.go and trackedMint of internal/projector/projector.go.
use solana_dashboard.Common.{
  String, ◌≡◌, refl, Bool, true, false, Option, none, some, if◌then◌else◌, arith,
}
use solana_dashboard.Events.{
  Envelope, Payload, PumpAmmSwapPayload, PumpAmmCreatePoolPayload, PumpAmmLiquidityPayload,
  pump_amm_create_pool, pump_amm_swap, pump_amm_liquidity,
}
use solana_dashboard.Projector.Values.{is_empty, paired_mint, mint_or_paired, tracked_mint}
use solana_dashboard.Ingest.{resolve_non_sol_mint, payload_mint, extract_mint}

-- The pair of mints of a PumpAMM event.
pub data IsPair : Payload → String → String → Type 0 where
  swap : (p : PumpAmmSwapPayload) → IsPair (pump_amm_swap p) p.base_mint p.quote_mint
  create_pool :
      (p : PumpAmmCreatePoolPayload) → IsPair (pump_amm_create_pool p) p.base_mint p.quote_mint
  liquidity : (p : PumpAmmLiquidityPayload) → IsPair (pump_amm_liquidity p) p.base_mint p.quote_mint

found_anyway :
    (b c : Bool) (base quote other : String)
    → is_empty (if b then quote else if c then base else "") ≡ false
    → (if b then quote else if c then base else other)
      ≡ (if b then quote else if c then base else "")
found_anyway true c base quote other h = refl
found_anyway false true base quote other h = refl
found_anyway false false base quote other h = absurd (ground arith)

resolve-paired :
    (base quote : String)
    → is_empty (paired_mint base quote) ≡ false
    → resolve_non_sol_mint base quote ≡ paired_mint base quote
unfolding resolve_non_sol_mint paired_mint
resolve-paired base quote h = found_anyway _ _ base quote _ h

pair_lem :
    (payload : Payload) (base quote : String)
    → IsPair payload base quote
    → payload_mint payload ≡ resolve_non_sol_mint base quote
unfolding payload_mint
pair_lem _ _ _ (swap p) = refl
pair_lem _ _ _ (create_pool p) = refl
pair_lem _ _ _ (liquidity p) = refl

chosen :
    (ref : Option String) (payload : Payload) (base quote : String)
    → IsPair payload base quote
    → is_empty (mint_or_paired ref base quote) ≡ false
    → elim ref [
      | none ↦ payload_mint payload
      | some mint ↦ if is_empty mint then payload_mint payload else mint
    ]
      ≡ mint_or_paired ref base quote
unfolding mint_or_paired
chosen none payload base quote pair h =
    ground (arith, pair_lem payload base quote pair, resolve-paired base quote h)
chosen (some mint) payload base quote pair h =
    ground (arith, pair_lem payload base quote pair, resolve-paired base quote)

-- If the projector finds a tracked mint for a swap, a new pool or a change of liquidity on PumpAMM,
-- the ingest service finds the same, and so publishes the event to the topic of the token that the
-- projector writes it under.
pub extract_mint-tracked_mint :
    (event : Envelope) (payload : Payload) (base quote : String)
    → IsPair payload base quote
    → is_empty (tracked_mint event base quote) ≡ false
    → extract_mint event.refs payload ≡ tracked_mint event base quote
unfolding extract_mint tracked_mint
extract_mint-tracked_mint event payload base quote pair h =
    chosen event.refs.mint payload base quote pair h
