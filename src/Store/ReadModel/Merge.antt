-- ===== src/Store/ReadModel/Merge.antt =====
-- The merges of the read model's upserts are associative, and merging a row with itself changes
-- nothing.
use solana_dashboard.Common.{◌≡◌, refl, sym, Option, none, some, arith}
use solana_dashboard.Common.Int.{ℤ}
use solana_dashboard.Store.ReadModel.{coalesce, least, merge_token, merge_metadata, merge_market}
use solana_dashboard.Store.ReadModel.Band.{IsBand}

module _ {A : Type 0} where
  coalesce_assoc : (a b c : Option A) → coalesce c (coalesce b a) ≡ coalesce (coalesce c b) a
  coalesce_assoc a b none = refl
  coalesce_assoc a b (some c) = refl

  coalesce_idem : (a : Option A) → coalesce a a ≡ a
  coalesce_idem none = refl
  coalesce_idem (some a) = refl

least_assoc : (a b c : ℤ) → least (least a b) c ≡ least a (least b c)
unfolding least
least_assoc a b c = ground arith

least_idem : (a : ℤ) → least a a ≡ a
unfolding least
least_idem a = ground arith

pub merge_token-IsBand : IsBand merge_token
unfolding merge_token
merge_token-IsBand = record {
  assoc = λ a b c i. record {
    mint = c.mint;
    creator = coalesce_assoc a.creator b.creator c.creator i;
    bonding_curve = coalesce_assoc a.bonding_curve b.bonding_curve c.bonding_curve i;
    token_program = coalesce_assoc a.token_program b.token_program c.token_program i;
    create_event_id = sym (coalesce_assoc c.create_event_id b.create_event_id a.create_event_id) i;
    first_seen_at = least_assoc a.first_seen_at b.first_seen_at c.first_seen_at i;
    current_stage = c.current_stage;
    active_market_id = coalesce_assoc a.active_market_id b.active_market_id c.active_market_id i;
    active_market_type =
        coalesce_assoc a.active_market_type b.active_market_type c.active_market_type i;
    migrated_at = coalesce_assoc a.migrated_at b.migrated_at c.migrated_at i;
  };
  idem = λ a i. record {
    mint = a.mint;
    creator = coalesce_idem a.creator i;
    bonding_curve = coalesce_idem a.bonding_curve i;
    token_program = coalesce_idem a.token_program i;
    create_event_id = coalesce_idem a.create_event_id i;
    first_seen_at = least_idem a.first_seen_at i;
    current_stage = a.current_stage;
    active_market_id = coalesce_idem a.active_market_id i;
    active_market_type = coalesce_idem a.active_market_type i;
    migrated_at = coalesce_idem a.migrated_at i;
  };
}

pub merge_metadata-IsBand : IsBand merge_metadata
unfolding merge_metadata
merge_metadata-IsBand = record {
  assoc = λ a b c i. record {
    mint = c.mint;
    name = coalesce_assoc a.name b.name c.name i;
    symbol = coalesce_assoc a.symbol b.symbol c.symbol i;
    uri = coalesce_assoc a.uri b.uri c.uri i;
    image_uri = a.image_uri;
    decimals = coalesce_assoc a.decimals b.decimals c.decimals i;
    total_supply_raw = coalesce_assoc a.total_supply_raw b.total_supply_raw c.total_supply_raw i;
    quote_mint = coalesce_assoc a.quote_mint b.quote_mint c.quote_mint i;
    quote_decimals = coalesce_assoc a.quote_decimals b.quote_decimals c.quote_decimals i;
    creator = coalesce_assoc a.creator b.creator c.creator i;
    bonding_curve = coalesce_assoc a.bonding_curve b.bonding_curve c.bonding_curve i;
    token_program = coalesce_assoc a.token_program b.token_program c.token_program i;
    is_mayhem_mode = coalesce_assoc a.is_mayhem_mode b.is_mayhem_mode c.is_mayhem_mode i;
    is_cashback_enabled =
        coalesce_assoc a.is_cashback_enabled b.is_cashback_enabled c.is_cashback_enabled i;
    source_event_id = coalesce_assoc a.source_event_id b.source_event_id c.source_event_id i;
  };
  idem = λ a i. record {
    mint = a.mint;
    name = coalesce_idem a.name i;
    symbol = coalesce_idem a.symbol i;
    uri = coalesce_idem a.uri i;
    image_uri = a.image_uri;
    decimals = coalesce_idem a.decimals i;
    total_supply_raw = coalesce_idem a.total_supply_raw i;
    quote_mint = coalesce_idem a.quote_mint i;
    quote_decimals = coalesce_idem a.quote_decimals i;
    creator = coalesce_idem a.creator i;
    bonding_curve = coalesce_idem a.bonding_curve i;
    token_program = coalesce_idem a.token_program i;
    is_mayhem_mode = coalesce_idem a.is_mayhem_mode i;
    is_cashback_enabled = coalesce_idem a.is_cashback_enabled i;
    source_event_id = coalesce_idem a.source_event_id i;
  };
}

pub merge_market-IsBand : IsBand merge_market
unfolding merge_market
merge_market-IsBand = record {
  assoc = λ a b c i. record {
    market_id = c.market_id;
    mint = c.mint;
    protocol = c.protocol;
    market_type = c.market_type;
    bonding_curve = coalesce_assoc a.bonding_curve b.bonding_curve c.bonding_curve i;
    pool = coalesce_assoc a.pool b.pool c.pool i;
    base_mint = coalesce_assoc a.base_mint b.base_mint c.base_mint i;
    quote_mint = coalesce_assoc a.quote_mint b.quote_mint c.quote_mint i;
    base_mint_decimals =
        coalesce_assoc a.base_mint_decimals b.base_mint_decimals c.base_mint_decimals i;
    quote_mint_decimals =
        coalesce_assoc a.quote_mint_decimals b.quote_mint_decimals c.quote_mint_decimals i;
    lp_mint = coalesce_assoc a.lp_mint b.lp_mint c.lp_mint i;
    started_at = least_assoc a.started_at b.started_at c.started_at i;
    ended_at = coalesce_assoc a.ended_at b.ended_at c.ended_at i;
    create_event_id = a.create_event_id;
  };
  idem = λ a i. record {
    market_id = a.market_id;
    mint = a.mint;
    protocol = a.protocol;
    market_type = a.market_type;
    bonding_curve = coalesce_idem a.bonding_curve i;
    pool = coalesce_idem a.pool i;
    base_mint = coalesce_idem a.base_mint i;
    quote_mint = coalesce_idem a.quote_mint i;
    base_mint_decimals = coalesce_idem a.base_mint_decimals i;
    quote_mint_decimals = coalesce_idem a.quote_mint_decimals i;
    lp_mint = coalesce_idem a.lp_mint i;
    started_at = least_idem a.started_at i;
    ended_at = coalesce_idem a.ended_at i;
    create_event_id = a.create_event_id;
  };
}
