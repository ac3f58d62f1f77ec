-- ===== src/Services.antt =====
-- The services of include/tinvest/services.hpp and the three overloads of each method.
pub mod Tables
pub mod Contracts
pub mod Paths
pub mod Limits
mod Examples
use tinkoff_invest_sdkv.Prelude.{
  ℕ, Bool, if◌then◌else◌, List, ◌∷◌, ◌++◌, Option, none, some, Bytes, bytes_eq,
}
use tinkoff_invest_sdkv.Prelude.Codes.{codes}
use tinkoff_invest_sdkv.Error.{Result}
use tinkoff_invest_sdkv.RateLimiter.{RateLimiter}
use tinkoff_invest_sdkv.Unary.{RetryPolicy, Outcome, Event, Async, unary_sync, unary_async}
use tinkoff_invest_sdkv.Services.Tables.{
  Method, users_methods, instruments_methods, market_data_methods, operations_methods,
  orders_methods, stop_orders_methods, sandbox_methods, signals_methods,
}
use tinkoff_invest_sdkv.Services.Contracts.{
  users_contract, instruments_contract, market_data_contract, operations_contract, orders_contract,
  stop_orders_contract, sandbox_contract, signals_contract,
}

pub data Service : Type 0 where
  users instruments market_data operations orders stop_orders sandbox signals : Service

-- `kServiceFullName`.
unfoldable pub full_name : Service → Bytes
full_name users = codes "tinkoff.public.invest.api.contract.v1.UsersService"
full_name instruments = codes "tinkoff.public.invest.api.contract.v1.InstrumentsService"
full_name market_data = codes "tinkoff.public.invest.api.contract.v1.MarketDataService"
full_name operations = codes "tinkoff.public.invest.api.contract.v1.OperationsService"
full_name orders = codes "tinkoff.public.invest.api.contract.v1.OrdersService"
full_name stop_orders = codes "tinkoff.public.invest.api.contract.v1.StopOrdersService"
full_name sandbox = codes "tinkoff.public.invest.api.contract.v1.SandboxService"
full_name signals = codes "tinkoff.public.invest.api.contract.v1.SignalService"

unfoldable pub methods : Service → List Method
methods users = users_methods
methods instruments = instruments_methods
methods market_data = market_data_methods
methods operations = operations_methods
methods orders = orders_methods
methods stop_orders = stop_orders_methods
methods sandbox = sandbox_methods
methods signals = signals_methods

unfoldable pub contract_of : Service → List Bytes
contract_of users = users_contract
contract_of instruments = instruments_contract
contract_of market_data = market_data_contract
contract_of operations = operations_contract
contract_of orders = orders_contract
contract_of stop_orders = stop_orders_contract
contract_of sandbox = sandbox_contract
contract_of signals = signals_contract

-- `kMethod` of the macro.
unfoldable pub path : Service → Method → Bytes
path s m = full_name s ++ b'/' ∷ m.rpc

-- The overload that blocks, over what each attempt comes to.
unfoldable pub call_blocking {ℓ} :
    {A : Type ℓ}
    → RetryPolicy
    → Option Bool
    → Service
    → Method
    → (Bytes → ℕ → Outcome A)
    → Option (Result A × List Event)
call_blocking p override s m call = unary_sync p override (call (path s m))

-- The overload with a callback.
unfoldable pub call_async {ℓ} :
    {A : Type ℓ} → RateLimiter → Service → Method → ℕ → (Bytes → Outcome A) → Async A
call_async r s m now call = unary_async r (path s m) now (call (path s m))
