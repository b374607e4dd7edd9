-- ===== src/Projector.antt =====
-- The projector of internal/projector/projector.go: Project dispatches on the payload's type.
pub mod ReadModel
pub mod Values
pub mod Pumpfun
pub mod PumpAmm
pub mod Batch
pub mod Runner
pub mod Database
use solana_dashboard.Result.{Result, ok}
use solana_dashboard.Events.{
  Envelope, Payload, pumpfun_create, pumpfun_trade, pumpfun_migrate, pump_amm_create_pool,
  pump_amm_swap, pump_amm_liquidity, unknown,
}
use solana_dashboard.Events.Decoder.{Codec}
use ReadModel.{Writer}
use Pumpfun.{project_pumpfun_create, project_pumpfun_trade, project_pumpfun_migrate}
use PumpAmm.{project_pump_amm_create_pool, project_pump_amm_swap, project_pump_amm_liquidity}

-- Project, on a projector that has a store.
unfoldable pub project : {S : Type 0} → Codec → Writer S → Envelope → Payload → S → Result S
project codec w event (pumpfun_create value) s = project_pumpfun_create codec w event value s
project codec w event (pumpfun_trade value) s = project_pumpfun_trade codec w event value s
project codec w event (pumpfun_migrate value) s = project_pumpfun_migrate codec w event value s
project codec w event (pump_amm_create_pool value) s =
    project_pump_amm_create_pool codec w event value s
project codec w event (pump_amm_swap value) s = project_pump_amm_swap codec w event value s
project codec w event (pump_amm_liquidity value) s =
    project_pump_amm_liquidity codec w event value s
project codec w event unknown s = ok s
