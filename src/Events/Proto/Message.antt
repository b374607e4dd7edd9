-- ===== src/Events/Proto/Message.antt =====
-- The messages of the stream, as the generated types of internal/gen/serviceeventpb have them: a
-- message field and an `optional` field is a pointer, and the getter of a field gives the zero value
-- at a nil message. A number that names no constant of an enum is kept.
use solana_dashboard.Common.{ℕ, String, Bool, Option}
use solana_dashboard.Common.Int.{ℤ}
use solana_dashboard.Events.{
  EventRefs, PumpAmmCreatePoolInstructionArgs, PumpAmmLiquidityInstructionArgs,
  PumpAmmSwapInstructionArgs, PumpfunTradeInstructionArgs,
}

pub data Chain : Type 0 where
  chain_solana : Chain
  chain_other : ℕ → Chain

pub data Protocol : Type 0 where
  protocol_pumpfun protocol_pumpamm : Protocol
  protocol_other : ℕ → Protocol

pub data EventType : Type 0 where
  event_type_trade event_type_create event_type_migrate event_type_swap event_type_create_pool
        event_type_deposit event_type_withdraw :
      EventType
  event_type_other : ℕ → EventType

pub data CommitmentLevel : Type 0 where
  commitment_processed commitment_confirmed commitment_finalized : CommitmentLevel
  commitment_other : ℕ → CommitmentLevel

pub data InstructionSource : Type 0 where
  source_outer source_inner : InstructionSource
  source_other : ℕ → InstructionSource

pub data EventOrigin : Type 0 where
  origin_logs origin_inner_cpi : EventOrigin
  origin_other : ℕ → EventOrigin

pub record InstructionPathMessage : Type 0 where
  pub source : InstructionSource
  pub outer_index : ℕ
  pub inner_index : Option ℕ

-- The messages of instruction arguments and of references have the fields of the types that they are
-- converted to.
pub record PumpfunTradeMessage : Type 0 where
  pub side : String
  pub ix_name : String
  pub mint : String
  pub user : String
  pub bonding_curve : String
  pub associated_bonding_curve : String
  pub creator : String
  pub creator_vault : String
  pub token_program : String
  pub sol_amount : String
  pub token_amount : String
  pub fee : String
  pub creator_fee : String
  pub virtual_sol_reserves : String
  pub virtual_token_reserves : String
  pub real_sol_reserves : String
  pub real_token_reserves : String
  pub track_volume : Bool
  pub mayhem_mode : Bool
  pub cashback : String
  pub instruction_args : Option PumpfunTradeInstructionArgs

pub record PumpfunCreateMessage : Type 0 where
  pub ix_name : String
  pub mint : String
  pub bonding_curve : String
  pub user : String
  pub creator : String
  pub name : String
  pub symbol : String
  pub uri : String
  pub token_program : String
  pub virtual_token_reserves : String
  pub virtual_sol_reserves : String
  pub real_token_reserves : String
  pub token_total_supply : String
  pub is_mayhem_mode : Bool
  pub is_cashback_enabled : Bool
  pub mint_decimals : Option ℕ

pub record PumpfunMigrateMessage : Type 0 where
  pub mint : String
  pub user : String
  pub bonding_curve : String
  pub pool : String
  pub mint_amount : String
  pub sol_amount : String
  pub pool_migration_fee : String
  pub withdraw_authority : String
  pub associated_bonding_curve : String
  pub token_program : String
  pub pump_amm : String
  pub pool_authority : String
  pub lp_mint : String

pub record PumpAmmSwapMessage : Type 0 where
  pub side : String
  pub ix_name : String
  pub pool : String
  pub user : String
  pub base_mint : String
  pub quote_mint : String
  pub coin_creator : String
  pub base_amount_in : Option String
  pub base_amount_out : Option String
  pub quote_amount_in : Option String
  pub quote_amount_out : Option String
  pub lp_fee : String
  pub protocol_fee : String
  pub coin_creator_fee : String
  pub cashback : String
  pub pool_base_token_reserves : String
  pub pool_quote_token_reserves : String
  pub instruction_args : Option PumpAmmSwapInstructionArgs

pub record PumpAmmCreatePoolMessage : Type 0 where
  pub pool : String
  pub creator : String
  pub base_mint : String
  pub quote_mint : String
  pub lp_mint : String
  pub base_amount_in : String
  pub quote_amount_in : String
  pub initial_liquidity : String
  pub coin_creator : String
  pub is_mayhem_mode : Bool
  pub instruction_args : Option PumpAmmCreatePoolInstructionArgs
  pub base_mint_decimals : ℕ
  pub quote_mint_decimals : ℕ

pub record PumpAmmLiquidityMessage : Type 0 where
  pub action : String
  pub pool : String
  pub user : String
  pub base_mint : String
  pub quote_mint : String
  pub lp_mint : String
  pub lp_token_amount_in : Option String
  pub lp_token_amount_out : Option String
  pub base_amount_in : Option String
  pub quote_amount_in : Option String
  pub base_amount_out : Option String
  pub quote_amount_out : Option String
  pub lp_mint_supply : String
  pub instruction_args : Option PumpAmmLiquidityInstructionArgs

pub data PayloadMessage : Type 0 where
  no_payload : PayloadMessage
  pumpfun_trade_message : Option PumpfunTradeMessage → PayloadMessage
  pumpfun_create_message : Option PumpfunCreateMessage → PayloadMessage
  pumpfun_migrate_message : Option PumpfunMigrateMessage → PayloadMessage
  pumpamm_swap_message : Option PumpAmmSwapMessage → PayloadMessage
  pumpamm_create_pool_message : Option PumpAmmCreatePoolMessage → PayloadMessage
  pumpamm_deposit_message : Option PumpAmmLiquidityMessage → PayloadMessage
  pumpamm_withdraw_message : Option PumpAmmLiquidityMessage → PayloadMessage

-- EventEnvelope
pub record EventMessage : Type 0 where
  pub schema_version : ℕ
  pub event_id : String
  pub chain : Chain
  pub protocol : Protocol
  pub event_type : EventType
  pub commitment : CommitmentLevel
  pub slot : ℕ
  pub tx_signature : String
  pub tx_index : ℕ
  pub instruction_path : Option InstructionPathMessage
  pub event_source : EventOrigin
  pub event_unix_ts : ℤ
  pub refs : Option EventRefs
  pub payload : PayloadMessage
