-- ===== src/Programs/Sandbox.antt =====
-- examples/coro_trade.cpp and examples/sandbox_trade.cpp: a round trip in the sandbox, as a coroutine
-- and with calls that block.
use tinkoff_invest_sdkv.Prelude.{ℕ, List, [], ◌∷◌, ◌++◌, map, Option, none, some, Bytes}
use tinkoff_invest_sdkv.Prelude.Codes.{codes}
use tinkoff_invest_sdkv.Prelude.Digits.{int_to_string}
use tinkoff_invest_sdkv.Prelude.Int.{ℤ, pos}
use tinkoff_invest_sdkv.Error.{Error, Result, value, error}
use tinkoff_invest_sdkv.Decimal.{make}
use tinkoff_invest_sdkv.Decimal.Text.{to_string}
use tinkoff_invest_sdkv.Decimal.Money.{
  Quotation, MoneyValue, of_quotation, to_money, money_of, money_to_string,
}
use tinkoff_invest_sdkv.Awaitable.{Ended, returned, Script, returns, calls, sync_wait}
use tinkoff_invest_sdkv.Awaitable.Meaning.{evaluate}
use tinkoff_invest_sdkv.Programs.{Line, out, err, Exit, exit, failure, instrument_of}

-- The fields of `PostOrderRequest` of contracts/orders.proto that are set.
pub record PostOrderRequest : Type 0 where
  pub account_id : Bytes
  pub instrument_id : Bytes
  pub quantity : ℤ
  pub direction : ℤ
  pub order_type : ℤ

-- What is asked of the service.
pub data SandboxRequest : Type 0 where
  opens_account : SandboxRequest
  pays_in : Bytes → MoneyValue → SandboxRequest
  posts_order : PostOrderRequest → SandboxRequest
  gets_portfolio closes_account : Bytes → SandboxRequest

-- The fields of the responses that are read; one that a message does not have is empty.
pub record SandboxResponse : Type 0 where
  pub account_id : Bytes
  pub balance : MoneyValue
  pub order_id : Bytes
  pub execution_report_status : ℤ
  pub executed_order_price : MoneyValue
  pub positions : List (Bytes × Quotation)

abbrev pub Answer : Type 0
Answer = Result SandboxResponse

abbrev pub direction_buy : ℤ
direction_buy = pos 1

abbrev pub type_market : ℤ
type_market = pos 2

abbrev pub rubles : ℤ → MoneyValue
rubles units = to_money (make units (pos 0)) (codes "rub")

abbrev pub market_buy : Bytes → Bytes → PostOrderRequest
market_buy account_id instrument = record {
  account_id = account_id;
  instrument_id = instrument;
  quantity = pos 1;
  direction = direction_buy;
  order_type = type_market;
}

abbrev pub show_money : MoneyValue → Bytes
show_money m = money_to_string (money_of m)

abbrev pub opened_line : Bytes → Line
opened_line account_id = out (codes "opened sandbox account " ++ account_id)

abbrev pub balance_line : SandboxResponse → Line
balance_line r = out (codes "balance: " ++ show_money r.balance)

abbrev pub closed_line : Line
closed_line = out (codes "closed sandbox account")

-- The answers in examples/coro_trade.cpp.
unfoldable pub show_paid : Answer → List Line
show_paid (value r) = balance_line r ∷ []
show_paid (error e) = []

unfoldable pub show_posted : Answer → List Line
show_posted (value r) =
    out (codes "order " ++ r.order_id ++ codes " executed=" ++ show_money r.executed_order_price)
    ∷ []
show_posted (error e) = failure (codes "PostSandboxOrder") e ∷ []

-- The answers in examples/sandbox_trade.cpp.
unfoldable pub show_payment : Answer → List Line
show_payment (value r) = balance_line r ∷ []
show_payment (error e) = failure (codes "SandboxPayIn") e ∷ []

unfoldable pub show_order : Answer → List Line
show_order (value r) =
    out (
      codes "order "
      ++ r.order_id
      ++ codes " status="
      ++ int_to_string r.execution_report_status
      ++ codes " executed="
      ++ show_money r.executed_order_price)
    ∷ []
show_order (error e) = failure (codes "PostSandboxOrder") e ∷ []

unfoldable pub show_position : Bytes × Quotation → Line
show_position (figi, quantity) =
    out (codes "position " ++ figi ++ codes " x " ++ to_string (of_quotation quantity))

unfoldable pub show_portfolio : Answer → List Line
show_portfolio (value r) = map show_position r.positions
show_portfolio (error e) = []

unfoldable pub show_closed : Answer → List Line
show_closed (value r) = closed_line ∷ []
show_closed (error e) = []

abbrev pub no_token : Exit
no_token = exit 1 (err (codes "Set TINVEST_TOKEN (sandbox token)") ∷ [])

-- `E`: what is thrown, which is nothing.
module _ (E : Type 0) where
  abbrev pub Program : Type 0
  Program = Script SandboxRequest Answer Exit E

  abbrev pub not_opened : Error → Program
  not_opened e = returns (exit 1 (failure (codes "OpenSandboxAccount") e ∷ []))

  -- `run` of examples/coro_trade.cpp after its first `co_await`.
  unfoldable pub trade_once : Bytes → Answer → Program
  trade_once instrument (error e) = not_opened e
  trade_once instrument (value r) =
      let account_id = r.account_id in
      calls (pays_in account_id (rubles (pos 50_000))) (λ paid.
        calls (posts_order (market_buy account_id instrument)) (λ posted.
          calls (closes_account account_id) (λ closed. returns (
            exit 0 (
              opened_line account_id ∷ show_paid paid ++ show_posted posted ++ closed_line ∷ [])))))

  unfoldable pub coro_run : Bytes → Program
  coro_run instrument = calls opens_account (trade_once instrument)

  -- `main` of examples/sandbox_trade.cpp after its first call.
  unfoldable pub round_trip : Bytes → Answer → Program
  round_trip instrument (error e) = not_opened e
  round_trip instrument (value r) =
      let account_id = r.account_id in
      calls (pays_in account_id (rubles (pos 100_000))) (λ paid.
        calls (posts_order (market_buy account_id instrument)) (λ posted.
          calls (gets_portfolio account_id) (λ portfolio.
            calls (closes_account account_id) (λ closed. returns (
              exit 0 (
                opened_line account_id ∷ show_payment paid
                ++ show_order posted
                ++ show_portfolio portfolio
                ++ show_closed closed))))))

  unfoldable pub sandbox_run : Bytes → Program
  sandbox_run instrument = calls opens_account (round_trip instrument)

  -- `main` of examples/coro_trade.cpp on so many steps, over what the calls come to; `none` while it
  -- waits.
  unfoldable pub coro_main :
      (SandboxRequest → Answer) → ℕ → Option Bytes → Option Bytes → Option (Ended Exit E)
  coro_main respond n none argument = some (returned no_token)
  coro_main respond n (some token) argument =
      sync_wait respond n (coro_run (instrument_of argument))

  -- `main` of examples/sandbox_trade.cpp, with the requests that it makes.
  unfoldable pub sandbox_main :
      (SandboxRequest → Answer) → Option Bytes → Option Bytes → Ended Exit E × List SandboxRequest
  sandbox_main respond none argument = (returned no_token, [])
  sandbox_main respond (some token) argument =
      evaluate respond (sandbox_run (instrument_of argument))
