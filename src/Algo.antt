-- ===== src/Algo.antt =====
-- include/tinvest/algo: indicators, strategies and the backtester. `double` is a parameter, a type
-- with the operations that the code uses; nothing is assumed of them.
pub mod Indicators
pub mod Conversions
pub mod Windows
pub mod Averages
pub mod Wilder
pub mod Channels
pub mod Breakouts
pub mod Strategies
pub mod Setups
pub mod Crossing
pub mod Backtest
pub mod Trades
pub mod Causality
mod Examples
use tinkoff_invest_sdkv.Prelude.{ℕ, Bool}
use tinkoff_invest_sdkv.Prelude.Int.{ℤ}

-- The operations on `double`.
pub record Double : Type 1 where
  pub Carrier : Type 0
  pub plus : Carrier → Carrier → Carrier
  pub minus : Carrier → Carrier → Carrier
  pub times : Carrier → Carrier → Carrier
  pub over : Carrier → Carrier → Carrier
  pub less : Carrier → Carrier → Bool
  pub equal : Carrier → Carrier → Bool
  pub opposite : Carrier → Carrier
  pub sqrt : Carrier → Carrier
  pub of_int : ℤ → Carrier

-- `Bar` of strategy.hpp.
pub record Bar (F : Double) : Type 0 where
  pub time : ℤ
  pub open_price : F.Carrier
  pub high : F.Carrier
  pub low : F.Carrier
  pub close : F.Carrier
  pub volume : F.Carrier

pub data Action : Type 0 where
  hold buy sell : Action
