-- ===== src/Programs/Visits.antt =====
-- The program examples/accounts.cpp visits every account.
use mathlib.Core.List.{append_assoc, append-nil}
use tinkoff_invest_sdkv.Prelude.{◌≡◌, refl, sym, ap, ◌∙◌, List, [], ◌∷◌, ◌++◌, map, some, Bytes}
use tinkoff_invest_sdkv.Error.{value, error}
use tinkoff_invest_sdkv.Awaitable.{Ended, returned}
use tinkoff_invest_sdkv.Awaitable.Meaning.{evaluate}
use tinkoff_invest_sdkv.Prelude.Codes.{codes}
use tinkoff_invest_sdkv.Programs.{Line, Exit, exit, failure}
use tinkoff_invest_sdkv.Programs.Accounts.{
  Account, AccountsRequest, gets_info, gets_accounts, gets_portfolio, Answer, show_info,
  show_account, show_portfolio, visit, list_accounts, accounts_main,
}

-- What is printed about the accounts.
unfoldable pub account_lines : (AccountsRequest → Answer) → List Account → List Line
account_lines respond [] = []
account_lines respond (a ∷ rest) =
    show_account a ∷ show_portfolio (respond (gets_portfolio a.id)) ++ account_lines respond rest

abbrev pub asks_for : Account → AccountsRequest
asks_for a = gets_portfolio a.id

module _ (E : Type 0) (respond : AccountsRequest → Answer) where
  visit_lem :
      (printed : List Line) (accounts : List Account)
      → evaluate respond (visit E printed accounts)
        ≡ (returned (exit 0 (printed ++ account_lines respond accounts)), map asks_for accounts)
  unfolding evaluate visit account_lines
  visit_lem printed [] = ap (λ ls. (returned (exit 0 ls), [])) (sym (append-nil printed))
  visit_lem printed (a ∷ rest) =
      let shown = show_account a ∷ show_portfolio (respond (gets_portfolio a.id)) in
      ap (λ run. (run.0, gets_portfolio a.id ∷ run.1)) (visit_lem (printed ++ shown) rest)
      ∙ ap (λ ls. (returned (exit 0 ls), map asks_for (a ∷ rest)))
          (append_assoc printed shown (account_lines respond rest))

-- What the program comes to, by the answers about the user and the accounts.
unfoldable pub overview : (AccountsRequest → Answer) → Answer → Answer → Exit × List AccountsRequest
overview respond info (value r) = (
  exit 0 (show_info info ++ account_lines respond r.accounts),
  gets_info ∷ gets_accounts ∷ map asks_for r.accounts,
)
overview respond info (error e) = (
  exit 1 (show_info info ++ failure (codes "GetAccounts") e ∷ []),
  gets_info ∷ gets_accounts ∷ [],
)

-- After the first two requests.
abbrev asked_first :
    {E : Type 0} → Ended Exit E × List AccountsRequest → Ended Exit E × List AccountsRequest
asked_first (end, asked) = (end, gets_info ∷ gets_accounts ∷ asked)

list_accounts_lem :
    (E : Type 0) (respond : AccountsRequest → Answer) (info accounts : Answer)
    → let run = overview respond info accounts in
      asked_first (evaluate respond (list_accounts E (show_info info) accounts))
      ≡ (returned run.0, run.1)
unfolding evaluate list_accounts overview
list_accounts_lem E respond info (value r) =
    ap asked_first (visit_lem E respond (show_info info) r.accounts)
list_accounts_lem E respond info (error x) = refl

-- `main` of examples/accounts.cpp with a token: a failed answer about the user does not stop it; if the
-- accounts cannot be had it ends with 1; else it asks for the portfolio of each account once, in order,
-- also after one that failed, prints each account with its portfolio, if that came, and ends with 0.
pub accounts_main-overview :
    (E : Type 0) (respond : AccountsRequest → Answer) (token : Bytes)
    → let run = overview respond (respond gets_info) (respond gets_accounts) in
      accounts_main E respond (some token) ≡ (returned run.0, run.1)
unfolding evaluate accounts_main
accounts_main-overview E respond token =
    list_accounts_lem E respond (respond gets_info) (respond gets_accounts)
