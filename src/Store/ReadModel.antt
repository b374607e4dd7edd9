-- ===== src/Store/ReadModel.antt =====
-- The tables of the read model and the writes that the SQL of internal/store/read_model.go makes in
-- them: upsertTokenSQL, upsertTokenMetadataSQL, upsertTokenMarketSQL, closeTokenMarketSQL,
-- insertTokenTradeEventSQL and insertTokenActivityEventSQL, with unixToTimestampSeconds. A table with
-- a primary key is a function of it. Times are in nanoseconds; the rounding of float64 and of
-- Postgres, and the columns updated_at, are left out. Postgres' cast of a text to numeric is a
-- parameter, which fails on a text that is no number.
pub mod Band
pub mod Once
pub mod Merge
use solana_dashboard.Common.{
  ℕ, ◌+◌, ◌*◌, String, Bool, true, false, ◌&&◌, ◌||◌, Option, none, some, List, [], ◌∷◌, ◌++◌,
  str_eq, leb, if◌then◌else◌,
}
use solana_dashboard.Common.Int.{ℤ, pos, negsuc, pos_part, neg_part, sub_ℕ, leb_ℤ, eqb_ℤ}
use solana_dashboard.Result.{Result, ok, err, ◌>>=◌}
use solana_dashboard.Store.{
  TokenRecord, TokenMetadataRecord, TokenMarketRecord, TradeEventRecord, ActivityEventRecord,
}

abbrev pub scale : ℕ → ℤ → ℤ
scale k (pos n) = pos (k * n)
scale k (negsuc n) = sub_ℕ 0 (k * (n + 1))

-- unixToTimestampSeconds, in nanoseconds: the size of a time tells its unit.
unfoldable pub unix_to_timestamp : ℤ → ℤ
unix_to_timestamp ts =
    let abs = pos_part ts + neg_part ts in
    if leb 1000000000000000000 abs
    then ts
    else if leb 1000000000000000 abs
    then scale 1000 ts
    else if leb 1000000000000 abs
    then scale 1000000 ts
    else scale 1000000000 ts

abbrev pub optional_timestamp : Option ℤ → Option ℤ
optional_timestamp none = none
optional_timestamp (some ts) = some (unix_to_timestamp ts)

-- coalesce and least
abbrev pub coalesce {ℓ} : {A : Type ℓ} → Option A → Option A → Option A
coalesce none b = b
coalesce (some a) b = some a

unfoldable pub least : ℤ → ℤ → ℤ
least a b = if leb_ℤ a b then a else b

-- The rows as they are inserted.
abbrev pub token_row : TokenRecord → TokenRecord
token_row r = record r {
  first_seen_at = unix_to_timestamp r.first_seen_at;
  migrated_at = optional_timestamp r.migrated_at;
}

abbrev pub market_row : TokenMarketRecord → TokenMarketRecord
market_row r = record r {
  started_at = unix_to_timestamp r.started_at;
  ended_at = optional_timestamp r.ended_at;
}

-- The `do update set` of a row in conflict.
unfoldable pub merge_token : TokenRecord → TokenRecord → TokenRecord
merge_token old new = record {
  mint = new.mint;
  creator = coalesce new.creator old.creator;
  bonding_curve = coalesce new.bonding_curve old.bonding_curve;
  token_program = coalesce new.token_program old.token_program;
  create_event_id = coalesce old.create_event_id new.create_event_id;
  first_seen_at = least old.first_seen_at new.first_seen_at;
  current_stage = new.current_stage;
  active_market_id = coalesce new.active_market_id old.active_market_id;
  active_market_type = coalesce new.active_market_type old.active_market_type;
  migrated_at = coalesce new.migrated_at old.migrated_at;
}

-- The insert names no image_uri, so an update keeps it.
unfoldable pub merge_metadata : TokenMetadataRecord → TokenMetadataRecord → TokenMetadataRecord
merge_metadata old new = record {
  mint = new.mint;
  name = coalesce new.name old.name;
  symbol = coalesce new.symbol old.symbol;
  uri = coalesce new.uri old.uri;
  image_uri = old.image_uri;
  decimals = coalesce new.decimals old.decimals;
  total_supply_raw = coalesce new.total_supply_raw old.total_supply_raw;
  quote_mint = coalesce new.quote_mint old.quote_mint;
  quote_decimals = coalesce new.quote_decimals old.quote_decimals;
  creator = coalesce new.creator old.creator;
  bonding_curve = coalesce new.bonding_curve old.bonding_curve;
  token_program = coalesce new.token_program old.token_program;
  is_mayhem_mode = coalesce new.is_mayhem_mode old.is_mayhem_mode;
  is_cashback_enabled = coalesce new.is_cashback_enabled old.is_cashback_enabled;
  source_event_id = coalesce new.source_event_id old.source_event_id;
}

unfoldable pub merge_market : TokenMarketRecord → TokenMarketRecord → TokenMarketRecord
merge_market old new = record {
  market_id = new.market_id;
  mint = new.mint;
  protocol = new.protocol;
  market_type = new.market_type;
  bonding_curve = coalesce new.bonding_curve old.bonding_curve;
  pool = coalesce new.pool old.pool;
  base_mint = coalesce new.base_mint old.base_mint;
  quote_mint = coalesce new.quote_mint old.quote_mint;
  base_mint_decimals = coalesce new.base_mint_decimals old.base_mint_decimals;
  quote_mint_decimals = coalesce new.quote_mint_decimals old.quote_mint_decimals;
  lp_mint = coalesce new.lp_mint old.lp_mint;
  started_at = least old.started_at new.started_at;
  ended_at = coalesce new.ended_at old.ended_at;
  create_event_id = old.create_event_id;
}

abbrev pub Table : Type 0 → Type 0
Table R = String → Option R

-- insert … on conflict do update
abbrev pub join : {R : Type 0} → (R → R → R) → Option R → R → R
join merge none new = new
join merge (some old) new = merge old new

unfoldable pub upsert : {R : Type 0} → (R → R → R) → String → R → Table R → Table R
upsert merge key new t k = if str_eq key k then some (join merge (t k) new) else t k

unfoldable pub close_market : String → ℤ → Table TokenMarketRecord → Table TokenMarketRecord
close_market id at t k = elim (t k) [
  | none ↦ none
  | some row ↦
      if str_eq id k then some (record row { ended_at = some (unix_to_timestamp at) }) else some row
]

-- insert … on conflict (event_time, event_id) do nothing
abbrev pub is_any : {R : Type 0} → (R → R → Bool) → R → List R → Bool
is_any same x [] = false
is_any same x (y ∷ ys) = same y x || is_any same x ys

-- A table of events, with the sequence of its column insert_seq; an insert that does nothing still
-- takes a number. `stamp` puts the number into the row.
pub record Events (R : Type 0) : Type 0 where
  pub rows : List R
  pub next_seq : ℕ

unfoldable pub insert_once : {R : Type 0} → (R → R → Bool) → (ℕ → R → R) → R → Events R → Events R
insert_once same stamp x e = record {
  rows = if is_any same x e.rows then e.rows else e.rows ++ stamp e.next_seq x ∷ [];
  next_seq = e.next_seq + 1;
}

abbrev pub same_trade : TradeEventRecord → TradeEventRecord → Bool
same_trade a b = str_eq a.event_id b.event_id && eqb_ℤ a.event_unix_ts b.event_unix_ts

abbrev pub same_activity : ActivityEventRecord → ActivityEventRecord → Bool
same_activity a b = str_eq a.event_id b.event_id && eqb_ℤ a.event_unix_ts b.event_unix_ts

-- The record of a trade event has no insert_seq.
abbrev pub unstamped : ℕ → TradeEventRecord → TradeEventRecord
unstamped n row = row

abbrev pub stamp_activity : ℕ → ActivityEventRecord → ActivityEventRecord
stamp_activity n row = record row { insert_seq = pos n }

-- The cast $n::numeric: the number's own text, or an error of the database.
abbrev pub Numeric : Type 0
Numeric = String → Result String

abbrev pub optional_numeric : Numeric → Option String → Result (Option String)
optional_numeric numeric none = ok none
optional_numeric numeric (some text) = numeric text >>= λ n. ok (some n)

module _ (numeric : Numeric) where
  -- The rows that need a cast.
  unfoldable pub metadata_row : TokenMetadataRecord → Result TokenMetadataRecord
  metadata_row r = do
    supply ← optional_numeric numeric r.total_supply_raw
    ok (record r { total_supply_raw = supply; image_uri = none })

  unfoldable pub trade_row : TradeEventRecord → Result TradeEventRecord
  trade_row r = do
    token ← numeric r.token_amount_raw
    quote ← numeric r.quote_amount_raw
    ok (record r {
      token_amount_raw = token;
      quote_amount_raw = quote;
      event_unix_ts = unix_to_timestamp r.event_unix_ts;
    })

  -- Details that are empty are stored as {}.
  unfoldable pub activity_row : ActivityEventRecord → Result ActivityEventRecord
  activity_row r = do
    token ← optional_numeric numeric r.token_amount_raw
    quote ← optional_numeric numeric r.quote_amount_raw
    ok (record r {
      token_amount_raw = token;
      quote_amount_raw = quote;
      event_unix_ts = unix_to_timestamp r.event_unix_ts;
      details = elim r.details [ [] ↦ 123 ∷ 125 ∷ [] | b ∷ bytes ↦ b ∷ bytes ];
    })
