-- ===== src/Projector/Values.antt =====
-- The value helpers at the end of internal/projector/projector.go: optional texts, the tracked
-- mint, and the amounts of a pair seen from the tracked side.
use solana_dashboard.Common.{
  ℕ, String, Bool, not, ◌&&◌, Option, none, some, List, [], ◌∷◌, str_eq, if◌then◌else◌,
}
use solana_dashboard.Common.Int.{ℤ, int32_of_uint32}
use solana_dashboard.Result.{Result, ok, err, missing_field}
use solana_dashboard.Events.{Envelope, PumpAmmLiquidityPayload}
use solana_dashboard.Store.{sol_mint}

abbrev pub is_empty : String → Bool
is_empty s = str_eq s ""

-- ptrIfNotEmpty
unfoldable pub ptr_if_not_empty : String → Option String
ptr_if_not_empty value = if is_empty value then none else some value

-- stringValue
unfoldable pub string_value : Option String → String
string_value none = ""
string_value (some value) = value

-- optionalInt32FromUint32
unfoldable pub optional_int32_from_uint32 : Option ℕ → Option ℤ
optional_int32_from_uint32 none = none
optional_int32_from_uint32 (some value) = some (int32_of_uint32 value)

-- firstNonNil
unfoldable pub first_non_nil : List (Option String) → Option String
first_non_nil [] = none
first_non_nil (none ∷ values) = first_non_nil values
first_non_nil (some value ∷ values) = if is_empty value then first_non_nil values else some value

-- requiredAmount
unfoldable pub required_amount : Option String → String → String → Result String
required_amount none field event_id = err (missing_field field event_id)
required_amount (some value) field event_id =
    if is_empty value then err (missing_field field event_id) else ok value

unfoldable pub paired_mint : String → String → String
paired_mint base_mint quote_mint =
    if str_eq base_mint sol_mint && not (is_empty quote_mint)
    then quote_mint
    else if str_eq quote_mint sol_mint && not (is_empty base_mint)
    then base_mint
    else ""

unfoldable pub mint_or_paired : Option String → String → String → String
unfolding paired_mint
mint_or_paired none base_mint quote_mint = paired_mint base_mint quote_mint
mint_or_paired (some mint) base_mint quote_mint =
    if is_empty mint then paired_mint base_mint quote_mint else mint

-- trackedMint; its empty result says that there is none.
unfoldable pub tracked_mint : Envelope → String → String → String
unfolding mint_or_paired
tracked_mint event base_mint quote_mint = mint_or_paired event.refs.mint base_mint quote_mint

-- trackedPairAmounts: the token amount, then the quote amount.
unfoldable pub tracked_pair_amounts : String → String → String → String → String → String × String
tracked_pair_amounts mint base_mint quote_mint base_amount quote_amount =
    if str_eq mint quote_mint then (quote_amount, base_amount) else (base_amount, quote_amount)

-- liquidityTrackedAmounts
unfoldable pub liquidity_tracked_amounts : String → PumpAmmLiquidityPayload → String × String
unfolding tracked_pair_amounts string_value
liquidity_tracked_amounts mint payload =
    if str_eq payload.action "deposit"
    then tracked_pair_amounts mint payload.base_mint payload.quote_mint
        (string_value payload.base_amount_in) (string_value payload.quote_amount_in)
    else if str_eq payload.action "withdraw"
    then tracked_pair_amounts mint payload.base_mint payload.quote_mint
        (string_value payload.base_amount_out) (string_value payload.quote_amount_out)
    else ("", "")

-- otherMint
unfoldable pub other_mint : String → String → String → String
other_mint mint base_mint quote_mint =
    if str_eq mint base_mint then quote_mint else if str_eq mint quote_mint then base_mint else ""
