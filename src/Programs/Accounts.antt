-- ===== src/Programs/Accounts.antt =====
-- examples/accounts.cpp: the accounts of a user with the worth of their portfolios.
use tinkoff_invest_sdkv.Prelude.{List, [], ◌∷◌, ◌++◌, Option, none, some, Bytes}
use tinkoff_invest_sdkv.Prelude.Codes.{codes}
use tinkoff_invest_sdkv.Prelude.Digits.{int_to_string}
use tinkoff_invest_sdkv.Prelude.Int.{ℤ}
use tinkoff_invest_sdkv.Error.{Result, value, error}
use tinkoff_invest_sdkv.Decimal.Money.{MoneyValue, money_of, money_to_string}
use tinkoff_invest_sdkv.Awaitable.{Ended, returned, Script, returns, calls}
use tinkoff_invest_sdkv.Awaitable.Meaning.{evaluate}
use tinkoff_invest_sdkv.Programs.{Line, out, err, Exit, exit, failure}

-- The fields of `Account` of contracts/users.proto that are read.
pub record Account : Type 0 where
  pub id : Bytes
  pub name : Bytes
  pub type : ℤ
  pub status : ℤ

-- What is asked of the services.
pub data AccountsRequest : Type 0 where
  gets_info gets_accounts : AccountsRequest
  gets_portfolio : Bytes → AccountsRequest

-- The fields of the responses that are read; one that a message does not have is empty.
pub record AccountsResponse : Type 0 where
  pub tariff : Bytes
  pub qual_status : ℤ
  pub accounts : List Account
  pub total_amount_portfolio : MoneyValue
  pub positions_size : ℤ

abbrev pub Answer : Type 0
Answer = Result AccountsResponse

unfoldable pub show_info : Answer → List Line
show_info (value r) =
    out (codes "tariff=" ++ r.tariff ++ codes " qualified=" ++ int_to_string r.qual_status) ∷ []
show_info (error e) = failure (codes "GetInfo") e ∷ []

unfoldable pub show_account : Account → Line
show_account a = out (
    codes "account "
    ++ a.id
    ++ codes "  name="
    ++ a.name
    ++ codes "  type="
    ++ int_to_string a.type
    ++ codes "  status="
    ++ int_to_string a.status)

unfoldable pub show_portfolio : Answer → List Line
show_portfolio (value r) =
    out (
      codes "  portfolio total: "
      ++ money_to_string (money_of r.total_amount_portfolio)
      ++ codes ", positions: "
      ++ int_to_string r.positions_size)
    ∷ []
show_portfolio (error e) = []

-- `E`: what is thrown, which is nothing.
module _ (E : Type 0) where
  -- The loop over the accounts, after some lines.
  unfoldable pub visit : List Line → List Account → Script AccountsRequest Answer Exit E
  visit printed [] = returns (exit 0 printed)
  visit printed (a ∷ rest) =
      calls (gets_portfolio a.id)
        (λ portfolio. visit (printed ++ show_account a ∷ show_portfolio portfolio) rest)

  unfoldable pub list_accounts : List Line → Answer → Script AccountsRequest Answer Exit E
  list_accounts printed (error e) =
      returns (exit 1 (printed ++ failure (codes "GetAccounts") e ∷ []))
  list_accounts printed (value r) = visit printed r.accounts

  -- `main`, over what the calls come to, with the requests that it makes.
  unfoldable pub accounts_main :
      (AccountsRequest → Answer) → Option Bytes → Ended Exit E × List AccountsRequest
  accounts_main respond none =
      (returned (exit 1 (err (codes "Set TINVEST_TOKEN environment variable") ∷ [])), [])
  accounts_main respond (some token) = evaluate respond (
      calls gets_info
        (λ info. calls gets_accounts (λ accounts. list_accounts (show_info info) accounts)))
