-- ===== src/Broadcaster/Swap.antt =====
-- pumpAmmTradeMetrics of internal/broadcaster/stats.go: what a swap on PumpAMM is as a trade. The
-- projector has a routine of its own for this, buildPumpAmmTrade of internal/projector/projector.go.
use solana_dashboard.Common.{
  String, Bool, true, false, not, ◌&&◌, ◌||◌, ◌≡◌, Option, none, some, str_eq, if◌then◌else◌, arith,
  refl, sym, inl, inr, Bool-cases,
}
use solana_dashboard.Result.{Result, ok, err, ◌>>=◌}
use solana_dashboard.Events.{Envelope, PumpAmmSwapPayload}
use solana_dashboard.Store.{TradeEventRecord}
use solana_dashboard.Projector.Values.{
  is_empty, required_amount, mint_or_paired, paired_mint, tracked_mint,
}
use solana_dashboard.Projector.PumpAmm.{
  build_pump_amm_trade, quoted_trade, based_trade, swap_record,
}

-- The broadcaster's own copy of the address of wrapped SOL.
abbrev wrapped_sol_mint : String
wrapped_sol_mint = "So11111111111111111111111111111111111111112"

-- The switch of trackedMint.
wrapped_pair : String → String → String
wrapped_pair base_mint quote_mint =
    if str_eq base_mint wrapped_sol_mint && not (is_empty quote_mint)
    then quote_mint
    else if str_eq quote_mint wrapped_sol_mint && not (is_empty base_mint)
    then base_mint
    else ""

-- trackedMint of the broadcaster
unfoldable pub stats_mint : Envelope → String → String → String
unfolding wrapped_pair
stats_mint env base_mint quote_mint = elim env.refs.mint [
  | none ↦ wrapped_pair base_mint quote_mint
  | some mint ↦ if is_empty mint then wrapped_pair base_mint quote_mint else mint
]

-- stringValue of the broadcaster
unfoldable pub amount_text : Option String → String
amount_text none = ""
amount_text (some value) = value

pub record TradeMetrics : Type 0 where
  pub mint : String
  pub is_buy : Bool
  pub quote_amount_raw : String
  pub token_amount_raw : String

-- The side and the amounts as the pair has them, before the check that both are there.
abbrev side_amounts : PumpAmmSwapPayload → Bool → Option (Bool × String × String)
side_amounts payload tracks_quote =
    if str_eq payload.side "sell"
    then some (
        if tracks_quote
        then (true, amount_text payload.base_amount_in, amount_text payload.quote_amount_out)
        else (false, amount_text payload.quote_amount_out, amount_text payload.base_amount_in))
    else if str_eq payload.side "buy" || str_eq payload.side "buy_exact_quote_in"
    then some (
        if tracks_quote
        then (false, amount_text payload.base_amount_out, amount_text payload.quote_amount_in)
        else (true, amount_text payload.quote_amount_in, amount_text payload.base_amount_out))
    else none

checked_amounts : String → Option (Bool × String × String) → Option TradeMetrics
checked_amounts mint none = none
checked_amounts mint (some (is_buy, quote, token)) =
    if is_empty token || is_empty quote
    then none
    else some (record {
      mint = mint;
      is_buy = is_buy;
      quote_amount_raw = quote;
      token_amount_raw = token;
    })

-- pumpAmmTradeMetrics; none where its last result is false.
unfoldable pub pump_amm_trade_metrics : Envelope → PumpAmmSwapPayload → Option TradeMetrics
unfolding checked_amounts
pump_amm_trade_metrics env payload =
    let mint = stats_mint env payload.base_mint payload.quote_mint in
    if is_empty mint
    then none
    else checked_amounts mint (side_amounts payload (str_eq mint payload.quote_mint))

-- The parts of the projector's record that the statistics count.
unfoldable pub metrics_of : Result TradeEventRecord → Option TradeMetrics
metrics_of (err e) = none
metrics_of (ok trade) = some (record {
  mint = trade.mint;
  is_buy = str_eq trade.side "buy";
  quote_amount_raw = trade.quote_amount_raw;
  token_amount_raw = trade.token_amount_raw;
})

mint_cases :
    (mint : Option String) (base quote : String)
    → elim mint [
      | none ↦ wrapped_pair base quote
      | some m ↦ if is_empty m then wrapped_pair base quote else m
    ]
      ≡ mint_or_paired mint base quote
unfolding wrapped_pair mint_or_paired paired_mint
mint_cases none base quote = refl
mint_cases (some m) base quote = refl

stats_mint-tracked_mint :
    (env : Envelope) (base quote : String) → stats_mint env base quote ≡ tracked_mint env base quote
unfolding stats_mint tracked_mint
stats_mint-tracked_mint env base quote = mint_cases env.refs.mint base quote

module _ (env : Envelope) (payload : PumpAmmSwapPayload) (mint quote_mint : String) where
  -- Two amounts, which have to be there, make the same trade on both sides.
  amounts_lem :
      (side : String) (token quote : Option String) (token_field quote_field : String)
      → metrics_of (
          required_amount token token_field env.event_id
          >>= (λ a. required_amount quote quote_field env.event_id >>= λ b. ok (side, a, b))
          >>= λ t. ok (swap_record env payload mint quote_mint t))
        ≡ checked_amounts mint (some (str_eq side "buy", amount_text quote, amount_text token))
  unfolding metrics_of required_amount swap_record checked_amounts amount_text
  amounts_lem side none quote tf qf = refl
  amounts_lem side (some a) none tf qf = ground arith
  amounts_lem side (some a) (some b) tf qf = ground arith

  quoted_trade-amounts :
      metrics_of (quoted_trade env payload >>= λ t. ok (swap_record env payload mint quote_mint t))
      ≡ checked_amounts mint (side_amounts payload true)
  unfolding quoted_trade checked_amounts metrics_of
  quoted_trade-amounts = elim (Bool-cases (str_eq payload.side "sell")) [
    | inl s ↦ rw s (amounts_lem "buy" payload.quote_amount_out payload.base_amount_in _ _)
    | inr s ↦
        elim (Bool-cases (str_eq payload.side "buy" || str_eq payload.side "buy_exact_quote_in")) [
          | inl b ↦
              rw (s, b) (amounts_lem "sell" payload.quote_amount_in payload.base_amount_out _ _)
          | inr b ↦ rw (s, b) refl
        ]
  ]

  based_trade-amounts :
      metrics_of (based_trade env payload >>= λ t. ok (swap_record env payload mint quote_mint t))
      ≡ checked_amounts mint (side_amounts payload false)
  unfolding based_trade checked_amounts metrics_of
  based_trade-amounts = elim (Bool-cases (str_eq payload.side "sell")) [
    | inl s ↦ rw s (amounts_lem "sell" payload.base_amount_in payload.quote_amount_out _ _)
    | inr s ↦
        elim (Bool-cases (str_eq payload.side "buy" || str_eq payload.side "buy_exact_quote_in")) [
          | inl b ↦
              rw (s, b) (amounts_lem "buy" payload.base_amount_out payload.quote_amount_in _ _)
          | inr b ↦ rw (s, b) refl
        ]
  ]

-- The broadcaster and the projector read every PumpAMM swap alike: the broadcaster counts a trade
-- exactly when the projector stores one, with the same mint, the same side and the same amounts.
pub pump_amm_trade_metrics-build_pump_amm_trade :
    (env : Envelope) (payload : PumpAmmSwapPayload)
    → pump_amm_trade_metrics env payload ≡ metrics_of (build_pump_amm_trade env payload)
unfolding pump_amm_trade_metrics build_pump_amm_trade metrics_of
pump_amm_trade_metrics-build_pump_amm_trade env payload =
    let mint = tracked_mint env payload.base_mint payload.quote_mint in
    rw (stats_mint-tracked_mint env payload.base_mint payload.quote_mint)
      (elim (Bool-cases (is_empty mint)) [
        | inl m ↦ rw m refl
        | inr m ↦ elim (Bool-cases (str_eq mint payload.quote_mint)) [
          | inl q ↦ rw (m, q) (sym (quoted_trade-amounts env payload mint payload.base_mint))
          | inr q ↦ rw (m, q) (sym (based_trade-amounts env payload mint payload.quote_mint))
        ]
      ])
