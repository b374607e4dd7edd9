-- ===== src/Query/Token.antt =====
-- The trades and activities of a token as internal/query/token.go serves them: requireTokenSnapshot,
-- ListTradesByMint, ListActivityPageByMint, ListActivityByMint, buildTokenTrade, buildTokenActivity and the prices and
-- decimals that they use. big.Rat is exact; its conversion to float64 is a parameter. A formatted
-- amount is the list of its bytes.
pub mod Activity
use Prim.Native.Char.{code}
use Prim.Native.String as String
use solana_dashboard.Common.{
  ℕ, zero, suc, ◌+◌, ◌*◌, String, Bool, true, false, not, ◌||◌, Option, none, some, List, [], ◌∷◌,
  str_eq, ◌==◌, if◌then◌else◌, map,
}
use solana_dashboard.Common.Int.{ℤ, pos, pos_part, leb_ℤ}
use solana_dashboard.Result.{
  Result, Error, ok, err, ◌>>=◌, map_err, model_missing, token_not_found, query_failed,
}
use solana_dashboard.Events.{RawMessage}
use solana_dashboard.Store.{
  TradeEventRecord, ActivityEventRecord, TokenMarketRecord, sol_mint, sol_decimals,
}
use solana_dashboard.Store.Pages.{ActivityEventCursor}
use solana_dashboard.Store.Pages.Follow.{Page}
use solana_dashboard.Query.Amount.{BigInt, format_amount}

-- TokenSnapshotRecord of the store
pub record TokenSnapshotRecord : Type 0 where
  pub mint : String
  pub name : Option String
  pub symbol : Option String
  pub uri : Option String
  pub image_uri : Option String
  pub decimals : Option ℤ
  pub total_supply_raw : Option String
  pub quote_mint : Option String
  pub quote_decimals : Option ℤ
  pub creator : Option String
  pub bonding_curve : Option String
  pub token_program : Option String
  pub first_seen_at : ℤ
  pub current_stage : String
  pub active_market_id : Option String
  pub active_market_type : Option String
  pub migrated_at : Option ℤ
  pub create_event_id : Option String
  pub is_mayhem_mode : Option Bool
  pub is_cashback_enabled : Option Bool

pub record TokenTrade (F : Type 0) : Type 0 where
  pub event_id : String
  pub mint : String
  pub market_id : String
  pub market_type : String
  pub protocol : String
  pub side : String
  pub ix_name : String
  pub user_address : String
  pub quote_mint : String
  pub token_amount_raw : String
  pub quote_amount_raw : String
  pub token_amount : List ℕ
  pub quote_amount : List ℕ
  pub price : Option F
  pub tx_signature : String
  pub slot : ℕ
  pub event_unix_ts : ℤ
  pub raw_event_source : String

pub record TokenActivity (F : Type 0) : Type 0 where
  pub event_id : String
  pub mint : String
  pub protocol : String
  pub event_type : String
  pub activity_type : String
  pub market_id : Option String
  pub market_type : Option String
  pub user_address : Option String
  pub side : Option String
  pub price : Option F
  pub quantity : Option (List ℕ)
  pub total_quote : Option (List ℕ)
  pub quote_mint : Option String
  pub tx_signature : String
  pub slot : ℕ
  pub event_unix_ts : ℤ
  pub details : RawMessage

pub record TokenActivityPage (F : Type 0) : Type 0 where
  pub activity : List (TokenActivity F)
  pub has_more : Bool
  pub next_cursor : Option ActivityEventCursor
  pub snapshot_log_id : ℤ

-- The bytes of a text.
abbrev pub codes : String → List ℕ
codes String.[] = []
codes (String.◌∷◌ c s) = code c ∷ codes s

-- big.Rat
pub record Rat : Type 0 where
  pub negative : Bool
  pub numerator : ℕ
  pub denominator : ℕ

-- resolveQuoteDecimals: both its branches give the snapshot's decimals.
unfoldable pub resolve_quote_decimals : Option TokenSnapshotRecord → String → Option ℤ
resolve_quote_decimals snapshot quote_mint =
    if str_eq quote_mint sol_mint then some sol_decimals else elim snapshot [
      | none ↦ none
      | some s ↦ elim s.quote_mint [
        | none ↦ s.quote_decimals
        | some mint ↦ if str_eq mint quote_mint then s.quote_decimals else s.quote_decimals
      ]
    ]

-- resolveOptionalQuoteDecimals
unfoldable pub resolve_optional_quote_decimals :
    Option TokenSnapshotRecord → Option String → Option ℤ
resolve_optional_quote_decimals snapshot none = none
resolve_optional_quote_decimals snapshot (some quote_mint) =
    resolve_quote_decimals snapshot quote_mint

abbrev pow_ten : ℕ → ℕ
pow_ten zero = 1
pow_ten (suc n) = 10 * pow_ten n

abbrev units_of : Option ℤ → ℕ
units_of none = 1
units_of (some decimals) = if leb_ℤ decimals (pos 0) then 1 else pow_ten (pos_part decimals)

module _ {F : Type 0} (big : BigInt) (to_float : Rat → F) where
  -- scaledRat
  unfoldable pub scaled_rat : List ℕ → Option ℤ → Option Rat
  scaled_rat [] decimals = none
  scaled_rat (c ∷ raw) decimals = elim (big.set_string (c ∷ raw)) [
    | none ↦ none
    | some (negative, magnitude) ↦
        some
          (record { negative = negative; numerator = magnitude; denominator = units_of decimals })
  ]

  -- Quo, with a divisor that is not zero.
  abbrev quo : Rat → Rat → Rat
  quo a b = record {
    negative = if a.negative then not b.negative else b.negative;
    numerator = a.numerator * b.denominator;
    denominator = a.denominator * b.numerator;
  }

  abbrev price_of : Option Rat → Option Rat → Option F
  price_of none quote = none
  price_of (some token) none = none
  price_of (some token) (some quote) =
      if token.numerator == 0 then none else some (to_float (quo quote token))

  -- computePrice
  unfoldable pub compute_price : List ℕ → List ℕ → Option ℤ → Option ℤ → Option F
  compute_price token_raw quote_raw token_decimals quote_decimals =
      price_of (scaled_rat token_raw token_decimals) (scaled_rat quote_raw quote_decimals)

  -- computeOptionalPrice
  unfoldable pub compute_optional_price :
      Option String → Option String → Option ℤ → Option ℤ → Option F
  compute_optional_price none quote_raw token_decimals quote_decimals = none
  compute_optional_price (some token) none token_decimals quote_decimals = none
  compute_optional_price (some token) (some quote) token_decimals quote_decimals =
      compute_price (codes token) (codes quote) token_decimals quote_decimals

  -- buildTokenTrade
  unfoldable pub build_token_trade : TokenSnapshotRecord → TradeEventRecord → TokenTrade F
  build_token_trade snapshot row =
      let quote_decimals = resolve_quote_decimals (some snapshot) row.quote_mint in
      record {
        event_id = row.event_id;
        mint = row.mint;
        market_id = row.market_id;
        market_type = row.market_type;
        protocol = row.protocol;
        side = row.side;
        ix_name = row.ix_name;
        user_address = row.user_address;
        quote_mint = row.quote_mint;
        token_amount_raw = row.token_amount_raw;
        quote_amount_raw = row.quote_amount_raw;
        token_amount = format_amount big (codes row.token_amount_raw) snapshot.decimals;
        quote_amount = format_amount big (codes row.quote_amount_raw) quote_decimals;
        price =
            compute_price (codes row.token_amount_raw) (codes row.quote_amount_raw)
              snapshot.decimals quote_decimals;
        tx_signature = row.tx_signature;
        slot = row.slot;
        event_unix_ts = row.event_unix_ts;
        raw_event_source = row.raw_event_source;
      }

  abbrev formatted : Option String → Option ℤ → Option (List ℕ)
  formatted none decimals = none
  formatted (some raw) decimals = some (format_amount big (codes raw) decimals)

  -- buildTokenActivity
  unfoldable pub build_token_activity : TokenSnapshotRecord → ActivityEventRecord → TokenActivity F
  build_token_activity snapshot row =
      let quote_decimals = resolve_optional_quote_decimals (some snapshot) row.quote_mint in
      record {
        event_id = row.event_id;
        mint = row.mint;
        protocol = row.protocol;
        event_type = row.event_type;
        activity_type = row.activity_type;
        market_id = row.market_id;
        market_type = row.market_type;
        user_address = row.user_address;
        side = row.side;
        price =
            compute_optional_price row.token_amount_raw row.quote_amount_raw snapshot.decimals
              quote_decimals;
        quantity = formatted row.token_amount_raw snapshot.decimals;
        total_quote = formatted row.quote_amount_raw quote_decimals;
        quote_mint = row.quote_mint;
        tx_signature = row.tx_signature;
        slot = row.slot;
        event_unix_ts = row.event_unix_ts;
        details = row.details;
      }

-- clampLimit
unfoldable pub clamp_limit : ℤ → ℕ → ℕ
clamp_limit limit fallback = if leb_ℤ limit (pos 0) then fallback else pos_part limit

-- tokenReadModel, as far as it is used here, and the checkpoint that tokenEventReader reads.
pub record TokenReadModel : Type 0 where
  pub find_token_snapshot_by_mint : String → Result (Option TokenSnapshotRecord)
  pub list_trade_events_by_mint : String → ℕ → Result (List TradeEventRecord)
  pub list_activity_events_page_by_mint :
      String
      → ℕ
      → Option ActivityEventCursor
      → Result (Page ActivityEventRecord ActivityEventCursor)

-- TokenService; a reader or a model that is nil is none.
pub record TokenService : Type 0 where
  pub load_projection_checkpoint : Option (String → Result ℤ)
  pub model : Option TokenReadModel

abbrev pub found : Option TokenSnapshotRecord → Result TokenSnapshotRecord
found none = err token_not_found
found (some snapshot) = ok snapshot

-- requireTokenSnapshot, with the model that it checks.
unfoldable pub require_token_snapshot :
    TokenService → String → Result (TokenReadModel × TokenSnapshotRecord)
require_token_snapshot s mint = elim s.model [
  | none ↦ err model_missing
  | some model ↦
      map_err (query_failed mint) (model.find_token_snapshot_by_mint mint) >>= found >>= λ snapshot.
      ok (model, snapshot)
]

abbrev pub checkpoint : Option (String → Result ℤ) → Result ℤ
checkpoint none = ok (pos 0)
checkpoint (some load) = map_err (query_failed "checkpoint") (load "token_read_model")

module _ {F : Type 0} (big : BigInt) (to_float : Rat → F) where
  -- ListTradesByMint
  unfoldable pub list_trades_by_mint : TokenService → String → ℤ → Result (List (TokenTrade F))
  list_trades_by_mint s mint limit = do
    (model, snapshot) ← require_token_snapshot s mint
    rows ←
        map_err (query_failed "trades")
          (model.list_trade_events_by_mint mint (clamp_limit limit 20))
    ok (map (build_token_trade big to_float snapshot) rows)

  -- ListActivityPageByMint
  unfoldable pub list_activity_page_by_mint :
      TokenService → String → ℤ → Option ActivityEventCursor → Result (TokenActivityPage F)
  list_activity_page_by_mint s mint limit cursor = do
    (model, snapshot) ← require_token_snapshot s mint
    log_id ← checkpoint s.load_projection_checkpoint
    page ←
        map_err (query_failed "activity")
          (model.list_activity_events_page_by_mint mint (clamp_limit limit 100) cursor)
    ok (record {
      activity = map (build_token_activity big to_float snapshot) page.items;
      has_more = page.has_more;
      next_cursor = page.next_cursor;
      snapshot_log_id = log_id;
    })

  -- ListActivityByMint
  unfoldable pub list_activity_by_mint : TokenService → String → ℤ → Result (List (TokenActivity F))
  list_activity_by_mint s mint limit = do
    page ← list_activity_page_by_mint s mint limit none
    ok page.activity

abbrev first_open : List TokenMarketRecord → Option TokenMarketRecord
first_open [] = none
first_open (market ∷ markets) =
    let rest = first_open markets in elim market.ended_at [ none ↦ some market | some t ↦ rest ]

abbrev first_named : String → List TokenMarketRecord → Option TokenMarketRecord
first_named id [] = none
first_named id (market ∷ markets) =
    let rest = first_named id markets in if str_eq market.market_id id then some market else rest

-- findActiveMarket
unfoldable pub find_active_market :
    List TokenMarketRecord → Option String → Option TokenMarketRecord
find_active_market markets none = first_open markets
find_active_market markets (some id) = first_named id markets
