-- ===== src/Events/Proto/Payloads.antt =====
-- The payloads of internal/events/from_proto.go, field by field. A nil message gives the zero value.
use solana_dashboard.Common.{◌%◌, false, Option, none, some}
use solana_dashboard.Events.{
  PumpfunTradePayload, PumpfunCreatePayload, PumpfunMigratePayload, PumpAmmSwapPayload,
  PumpAmmCreatePoolPayload, PumpAmmLiquidityPayload, PumpAmmCreatePoolInstructionArgs,
  PumpAmmLiquidityInstructionArgs, PumpAmmSwapInstructionArgs, PumpfunTradeInstructionArgs,
}
use solana_dashboard.Events.Proto.Message.{
  PumpfunTradeMessage, PumpfunCreateMessage, PumpfunMigrateMessage, PumpAmmSwapMessage,
  PumpAmmCreatePoolMessage, PumpAmmLiquidityMessage,
}

-- The optional…Args helpers: the zero value where there are no arguments.
abbrev pub optional_arg {ℓ κ} : {A : Type ℓ} {T : Type κ} → T → Option A → (A → T) → T
optional_arg zero none getter = zero
optional_arg zero (some args) getter = getter args

abbrev no_pump_amm_create_pool_instruction_args : PumpAmmCreatePoolInstructionArgs
no_pump_amm_create_pool_instruction_args = record {
  index = 0;
  coin_creator = "";
  is_mayhem_mode = false;
  is_cashback_coin = none;
}

abbrev no_pump_amm_liquidity_instruction_args : PumpAmmLiquidityInstructionArgs
no_pump_amm_liquidity_instruction_args = record {
  lp_token_amount_in = none;
  lp_token_amount_out = none;
  max_base_amount_in = none;
  max_quote_amount_in = none;
  min_base_amount_out = none;
  min_quote_amount_out = none;
}

abbrev no_pump_amm_swap_instruction_args : PumpAmmSwapInstructionArgs
no_pump_amm_swap_instruction_args = record {
  base_amount_in = none;
  min_quote_amount_out = none;
  base_amount_out = none;
  max_quote_amount_in = none;
  spendable_quote_in = none;
  min_base_amount_out = none;
}

abbrev no_pumpfun_trade_instruction_args : PumpfunTradeInstructionArgs
no_pumpfun_trade_instruction_args = record {
  amount = none;
  max_sol_cost = none;
  min_sol_output = none;
  spendable_sol_in = none;
  min_tokens_out = none;
}

abbrev no_pumpfun_trade_payload : PumpfunTradePayload
no_pumpfun_trade_payload = record {
  side = "";
  ix_name = "";
  mint = "";
  user = "";
  bonding_curve = "";
  associated_bonding_curve = "";
  creator = "";
  creator_vault = "";
  token_program = "";
  sol_amount = "";
  token_amount = "";
  fee = "";
  creator_fee = "";
  virtual_sol_reserves = "";
  virtual_token_reserves = "";
  real_sol_reserves = "";
  real_token_reserves = "";
  track_volume = false;
  mayhem_mode = false;
  cashback = "";
  instruction_args = no_pumpfun_trade_instruction_args;
}

abbrev no_pumpfun_create_payload : PumpfunCreatePayload
no_pumpfun_create_payload = record {
  ix_name = "";
  mint = "";
  bonding_curve = "";
  user = "";
  creator = "";
  name = "";
  symbol = "";
  uri = "";
  token_program = "";
  virtual_token_reserves = "";
  virtual_sol_reserves = "";
  real_token_reserves = "";
  token_total_supply = "";
  is_mayhem_mode = false;
  is_cashback_enabled = false;
  mint_decimals = none;
}

abbrev no_pumpfun_migrate_payload : PumpfunMigratePayload
no_pumpfun_migrate_payload = record {
  mint = "";
  user = "";
  bonding_curve = "";
  pool = "";
  mint_amount = "";
  sol_amount = "";
  pool_migration_fee = "";
  withdraw_authority = "";
  associated_bonding_curve = "";
  token_program = "";
  pump_amm = "";
  pool_authority = "";
  lp_mint = "";
}

abbrev no_pump_amm_swap_payload : PumpAmmSwapPayload
no_pump_amm_swap_payload = record {
  side = "";
  ix_name = "";
  pool = "";
  user = "";
  base_mint = "";
  quote_mint = "";
  coin_creator = "";
  base_amount_in = none;
  base_amount_out = none;
  quote_amount_in = none;
  quote_amount_out = none;
  lp_fee = "";
  protocol_fee = "";
  coin_creator_fee = "";
  cashback = "";
  pool_base_token_reserves = "";
  pool_quote_token_reserves = "";
  instruction_args = no_pump_amm_swap_instruction_args;
}

abbrev no_pump_amm_create_pool_payload : PumpAmmCreatePoolPayload
no_pump_amm_create_pool_payload = record {
  pool = "";
  creator = "";
  base_mint = "";
  quote_mint = "";
  lp_mint = "";
  base_amount_in = "";
  quote_amount_in = "";
  initial_liquidity = "";
  coin_creator = "";
  is_mayhem_mode = false;
  instruction_args = no_pump_amm_create_pool_instruction_args;
  base_mint_decimals = 0;
  quote_mint_decimals = 0;
}

abbrev no_pump_amm_liquidity_payload : PumpAmmLiquidityPayload
no_pump_amm_liquidity_payload = record {
  action = "";
  pool = "";
  user = "";
  base_mint = "";
  quote_mint = "";
  lp_mint = "";
  lp_token_amount_in = none;
  lp_token_amount_out = none;
  base_amount_in = none;
  quote_amount_in = none;
  base_amount_out = none;
  quote_amount_out = none;
  lp_mint_supply = "";
  instruction_args = no_pump_amm_liquidity_instruction_args;
}

-- pumpfunTradePayloadFromProto
unfoldable pub pumpfun_trade_payload_from_proto : Option PumpfunTradeMessage → PumpfunTradePayload
pumpfun_trade_payload_from_proto none = no_pumpfun_trade_payload
pumpfun_trade_payload_from_proto (some payload) = record {
  side = payload.side;
  ix_name = payload.ix_name;
  mint = payload.mint;
  user = payload.user;
  bonding_curve = payload.bonding_curve;
  associated_bonding_curve = payload.associated_bonding_curve;
  creator = payload.creator;
  creator_vault = payload.creator_vault;
  token_program = payload.token_program;
  sol_amount = payload.sol_amount;
  token_amount = payload.token_amount;
  fee = payload.fee;
  creator_fee = payload.creator_fee;
  virtual_sol_reserves = payload.virtual_sol_reserves;
  virtual_token_reserves = payload.virtual_token_reserves;
  real_sol_reserves = payload.real_sol_reserves;
  real_token_reserves = payload.real_token_reserves;
  track_volume = payload.track_volume;
  mayhem_mode = payload.mayhem_mode;
  cashback = payload.cashback;
  instruction_args = record {
    amount = optional_arg none payload.instruction_args (λ v. v.amount);
    max_sol_cost = optional_arg none payload.instruction_args (λ v. v.max_sol_cost);
    min_sol_output = optional_arg none payload.instruction_args (λ v. v.min_sol_output);
    spendable_sol_in = optional_arg none payload.instruction_args (λ v. v.spendable_sol_in);
    min_tokens_out = optional_arg none payload.instruction_args (λ v. v.min_tokens_out);
  };
}

-- pumpfunCreatePayloadFromProto
unfoldable pub pumpfun_create_payload_from_proto :
    Option PumpfunCreateMessage → PumpfunCreatePayload
pumpfun_create_payload_from_proto none = no_pumpfun_create_payload
pumpfun_create_payload_from_proto (some payload) = record {
  ix_name = payload.ix_name;
  mint = payload.mint;
  bonding_curve = payload.bonding_curve;
  user = payload.user;
  creator = payload.creator;
  name = payload.name;
  symbol = payload.symbol;
  uri = payload.uri;
  token_program = payload.token_program;
  virtual_token_reserves = payload.virtual_token_reserves;
  virtual_sol_reserves = payload.virtual_sol_reserves;
  real_token_reserves = payload.real_token_reserves;
  token_total_supply = payload.token_total_supply;
  is_mayhem_mode = payload.is_mayhem_mode;
  is_cashback_enabled = payload.is_cashback_enabled;
  mint_decimals = payload.mint_decimals;
}

-- pumpfunMigratePayloadFromProto
unfoldable pub pumpfun_migrate_payload_from_proto :
    Option PumpfunMigrateMessage → PumpfunMigratePayload
pumpfun_migrate_payload_from_proto none = no_pumpfun_migrate_payload
pumpfun_migrate_payload_from_proto (some payload) = record {
  mint = payload.mint;
  user = payload.user;
  bonding_curve = payload.bonding_curve;
  pool = payload.pool;
  mint_amount = payload.mint_amount;
  sol_amount = payload.sol_amount;
  pool_migration_fee = payload.pool_migration_fee;
  withdraw_authority = payload.withdraw_authority;
  associated_bonding_curve = payload.associated_bonding_curve;
  token_program = payload.token_program;
  pump_amm = payload.pump_amm;
  pool_authority = payload.pool_authority;
  lp_mint = payload.lp_mint;
}

-- pumpAmmSwapPayloadFromProto
unfoldable pub pump_amm_swap_payload_from_proto : Option PumpAmmSwapMessage → PumpAmmSwapPayload
pump_amm_swap_payload_from_proto none = no_pump_amm_swap_payload
pump_amm_swap_payload_from_proto (some payload) = record {
  side = payload.side;
  ix_name = payload.ix_name;
  pool = payload.pool;
  user = payload.user;
  base_mint = payload.base_mint;
  quote_mint = payload.quote_mint;
  coin_creator = payload.coin_creator;
  base_amount_in = payload.base_amount_in;
  base_amount_out = payload.base_amount_out;
  quote_amount_in = payload.quote_amount_in;
  quote_amount_out = payload.quote_amount_out;
  lp_fee = payload.lp_fee;
  protocol_fee = payload.protocol_fee;
  coin_creator_fee = payload.coin_creator_fee;
  cashback = payload.cashback;
  pool_base_token_reserves = payload.pool_base_token_reserves;
  pool_quote_token_reserves = payload.pool_quote_token_reserves;
  instruction_args = record {
    base_amount_in = optional_arg none payload.instruction_args (λ v. v.base_amount_in);
    min_quote_amount_out = optional_arg none payload.instruction_args (λ v. v.min_quote_amount_out);
    base_amount_out = optional_arg none payload.instruction_args (λ v. v.base_amount_out);
    max_quote_amount_in = optional_arg none payload.instruction_args (λ v. v.max_quote_amount_in);
    spendable_quote_in = optional_arg none payload.instruction_args (λ v. v.spendable_quote_in);
    min_base_amount_out = optional_arg none payload.instruction_args (λ v. v.min_base_amount_out);
  };
}

-- pumpAmmCreatePoolPayloadFromProto
unfoldable pub pump_amm_create_pool_payload_from_proto :
    Option PumpAmmCreatePoolMessage → PumpAmmCreatePoolPayload
pump_amm_create_pool_payload_from_proto none = no_pump_amm_create_pool_payload
pump_amm_create_pool_payload_from_proto (some payload) = record {
  pool = payload.pool;
  creator = payload.creator;
  base_mint = payload.base_mint;
  quote_mint = payload.quote_mint;
  lp_mint = payload.lp_mint;
  base_amount_in = payload.base_amount_in;
  quote_amount_in = payload.quote_amount_in;
  initial_liquidity = payload.initial_liquidity;
  coin_creator = payload.coin_creator;
  is_mayhem_mode = payload.is_mayhem_mode;
  instruction_args = record {
    index = optional_arg 0 payload.instruction_args (λ v. v.index) % 65536;
    coin_creator = optional_arg "" payload.instruction_args (λ v. v.coin_creator);
    is_mayhem_mode = optional_arg false payload.instruction_args (λ v. v.is_mayhem_mode);
    is_cashback_coin = optional_arg none payload.instruction_args (λ v. v.is_cashback_coin);
  };
  base_mint_decimals = payload.base_mint_decimals;
  quote_mint_decimals = payload.quote_mint_decimals;
}

-- pumpAmmLiquidityPayloadFromProto
unfoldable pub pump_amm_liquidity_payload_from_proto :
    Option PumpAmmLiquidityMessage → PumpAmmLiquidityPayload
pump_amm_liquidity_payload_from_proto none = no_pump_amm_liquidity_payload
pump_amm_liquidity_payload_from_proto (some payload) = record {
  action = payload.action;
  pool = payload.pool;
  user = payload.user;
  base_mint = payload.base_mint;
  quote_mint = payload.quote_mint;
  lp_mint = payload.lp_mint;
  lp_token_amount_in = payload.lp_token_amount_in;
  lp_token_amount_out = payload.lp_token_amount_out;
  base_amount_in = payload.base_amount_in;
  quote_amount_in = payload.quote_amount_in;
  base_amount_out = payload.base_amount_out;
  quote_amount_out = payload.quote_amount_out;
  lp_mint_supply = payload.lp_mint_supply;
  instruction_args = record {
    lp_token_amount_in = optional_arg none payload.instruction_args (λ v. v.lp_token_amount_in);
    lp_token_amount_out = optional_arg none payload.instruction_args (λ v. v.lp_token_amount_out);
    max_base_amount_in = optional_arg none payload.instruction_args (λ v. v.max_base_amount_in);
    max_quote_amount_in = optional_arg none payload.instruction_args (λ v. v.max_quote_amount_in);
    min_base_amount_out = optional_arg none payload.instruction_args (λ v. v.min_base_amount_out);
    min_quote_amount_out = optional_arg none payload.instruction_args (λ v. v.min_quote_amount_out);
  };
}
