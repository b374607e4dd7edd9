-- ===== src/Events.antt =====
-- The event contract: internal/events/envelope.go, pumpfun.go and pumpamm.go.
-- json.RawMessage and []byte are lists of bytes.
pub mod Decoder
pub mod Proto
use solana_dashboard.Common.{ℕ, String, Bool, Option, List}
use solana_dashboard.Common.Int.{ℤ}

abbrev pub RawMessage : Type 0
RawMessage = List ℕ

pub record InstructionPath : Type 0 where
  pub source : String
  pub outer_index : ℤ
  pub inner_index : Option ℤ

pub record EventRefs : Type 0 where
  pub mint : Option String
  pub pool : Option String
  pub bonding_curve : Option String
  pub user : Option String
  pub creator : Option String
  pub base_mint : Option String
  pub quote_mint : Option String
  pub lp_mint : Option String

pub record Envelope : Type 0 where
  pub log_id : ℤ
  pub schema_version : ℤ
  pub event_id : String
  pub chain : String
  pub protocol : String
  pub event_type : String
  pub commitment : String
  pub slot : ℕ
  pub tx_signature : String
  pub tx_index : ℕ
  pub instruction_path : InstructionPath
  pub event_source : String
  pub event_unix_ts : ℤ
  pub refs : EventRefs
  pub payload : RawMessage

pub record PumpfunTradeInstructionArgs : Type 0 where
  pub amount : Option String
  pub max_sol_cost : Option String
  pub min_sol_output : Option String
  pub spendable_sol_in : Option String
  pub min_tokens_out : Option String

pub record PumpfunTradePayload : Type 0 where
  pub side : String
  pub ix_name : String
  pub mint : String
  pub user : String
  pub bonding_curve : String
  pub associated_bonding_curve : String
  pub creator : String
  pub creator_vault : String
  pub token_program : String
  pub sol_amount : String
  pub token_amount : String
  pub fee : String
  pub creator_fee : String
  pub virtual_sol_reserves : String
  pub virtual_token_reserves : String
  pub real_sol_reserves : String
  pub real_token_reserves : String
  pub track_volume : Bool
  pub mayhem_mode : Bool
  pub cashback : String
  pub instruction_args : PumpfunTradeInstructionArgs

pub record PumpfunCreatePayload : Type 0 where
  pub ix_name : String
  pub mint : String
  pub bonding_curve : String
  pub user : String
  pub creator : String
  pub name : String
  pub symbol : String
  pub uri : String
  pub token_program : String
  pub virtual_token_reserves : String
  pub virtual_sol_reserves : String
  pub real_token_reserves : String
  pub token_total_supply : String
  pub is_mayhem_mode : Bool
  pub is_cashback_enabled : Bool
  pub mint_decimals : Option ℕ

pub record PumpfunMigratePayload : Type 0 where
  pub mint : String
  pub user : String
  pub bonding_curve : String
  pub pool : String
  pub mint_amount : String
  pub sol_amount : String
  pub pool_migration_fee : String
  pub withdraw_authority : String
  pub associated_bonding_curve : String
  pub token_program : String
  pub pump_amm : String
  pub pool_authority : String
  pub lp_mint : String

pub record PumpAmmSwapInstructionArgs : Type 0 where
  pub base_amount_in : Option String
  pub min_quote_amount_out : Option String
  pub base_amount_out : Option String
  pub max_quote_amount_in : Option String
  pub spendable_quote_in : Option String
  pub min_base_amount_out : Option String

pub record PumpAmmSwapPayload : Type 0 where
  pub side : String
  pub ix_name : String
  pub pool : String
  pub user : String
  pub base_mint : String
  pub quote_mint : String
  pub coin_creator : String
  pub base_amount_in : Option String
  pub base_amount_out : Option String
  pub quote_amount_in : Option String
  pub quote_amount_out : Option String
  pub lp_fee : String
  pub protocol_fee : String
  pub coin_creator_fee : String
  pub cashback : String
  pub pool_base_token_reserves : String
  pub pool_quote_token_reserves : String
  pub instruction_args : PumpAmmSwapInstructionArgs

pub record PumpAmmCreatePoolInstructionArgs : Type 0 where
  pub index : ℕ
  pub coin_creator : String
  pub is_mayhem_mode : Bool
  pub is_cashback_coin : Option Bool

pub record PumpAmmCreatePoolPayload : Type 0 where
  pub pool : String
  pub creator : String
  pub base_mint : String
  pub quote_mint : String
  pub lp_mint : String
  pub base_amount_in : String
  pub quote_amount_in : String
  pub initial_liquidity : String
  pub coin_creator : String
  pub is_mayhem_mode : Bool
  pub instruction_args : PumpAmmCreatePoolInstructionArgs
  pub base_mint_decimals : ℕ
  pub quote_mint_decimals : ℕ

pub record PumpAmmLiquidityInstructionArgs : Type 0 where
  pub lp_token_amount_in : Option String
  pub lp_token_amount_out : Option String
  pub max_base_amount_in : Option String
  pub max_quote_amount_in : Option String
  pub min_base_amount_out : Option String
  pub min_quote_amount_out : Option String

pub record PumpAmmLiquidityPayload : Type 0 where
  pub action : String
  pub pool : String
  pub user : String
  pub base_mint : String
  pub quote_mint : String
  pub lp_mint : String
  pub lp_token_amount_in : Option String
  pub lp_token_amount_out : Option String
  pub base_amount_in : Option String
  pub quote_amount_in : Option String
  pub base_amount_out : Option String
  pub quote_amount_out : Option String
  pub lp_mint_supply : String
  pub instruction_args : PumpAmmLiquidityInstructionArgs

-- A payload as the type switches see it: `unknown` is any other dynamic type, nil included.
pub data Payload : Type 0 where
  pumpfun_trade : PumpfunTradePayload → Payload
  pumpfun_create : PumpfunCreatePayload → Payload
  pumpfun_migrate : PumpfunMigratePayload → Payload
  pump_amm_swap : PumpAmmSwapPayload → Payload
  pump_amm_create_pool : PumpAmmCreatePoolPayload → Payload
  pump_amm_liquidity : PumpAmmLiquidityPayload → Payload
  unknown : Payload
