-- ===== src/Programs.antt =====
-- The programs under examples/ that use the library: what they ask of the API, what they print, and
-- their exit code. What they compute between two calls is a `Script`, also where the calls block.
pub mod Sandbox
pub mod Closing
pub mod Accounts
pub mod Visits
pub mod Backtests
pub mod History
pub mod Quotes
pub mod Subscribed
mod Examples
mod QuotesExamples
use tinkoff_invest_sdkv.Prelude.{ℕ, List, [], ◌∷◌, ◌++◌, Option, none, some, Bytes}
use tinkoff_invest_sdkv.Prelude.Codes.{codes}
use tinkoff_invest_sdkv.Error.{Error, error_to_string}

-- A line that is printed, without its end.
pub data Line : Type 0 where
  out err : Bytes → Line

-- How a program ends, with all that it has printed.
pub record Exit : Type 0 where
  pub code : ℕ
  pub printed : List Line

abbrev pub exit : ℕ → List Line → Exit
exit code printed = record { code = code; printed = printed }

unfoldable pub failure : Bytes → Error → Line
failure name e = err (name ++ codes " failed: " ++ error_to_string e)

-- `argc > 1 ? argv[1] : "BBG004730N88"`.
unfoldable pub instrument_of : Option Bytes → Bytes
instrument_of none = codes "BBG004730N88"
instrument_of (some argument) = argument
