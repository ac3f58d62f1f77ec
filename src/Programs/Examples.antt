-- ===== src/Programs/Examples.antt =====
-- Runs of the programs under examples/.
use tinkoff_invest_sdkv.Prelude.Digits.{int_to_string, to_digits}
use tinkoff_invest_sdkv.Decimal.{align, carry, make, normalize}
use tinkoff_invest_sdkv.Decimal.Text.{abs_units, fraction, to_string}
use tinkoff_invest_sdkv.Decimal.Money.{money_of, money_to_string, to_money}
use Sandbox.{show_closed, show_order, show_payment, show_portfolio}
use tinkoff_invest_sdkv.Prelude.{
  ◌≡◌, ◌≤◌, ◌+◌, ◌*◌, zero, suc, subst, ap, refl, arith, ℕ, ◌⊎◌, true, List, [], ◌∷◌, length, none,
  some, Bytes, All,
}
use tinkoff_invest_sdkv.Prelude.Int.{ℤ, pos, ◌+ℤ◌, ◌-ℤ◌, ◌*ℤ◌, neg, quot, ltb_ℤ, eqb_ℤ, pos_part}
use tinkoff_invest_sdkv.Prelude.Codes.{codes}
use tinkoff_invest_sdkv.Error.{new_error, value, error, error_to_string}
use tinkoff_invest_sdkv.Awaitable.{returned, iterate, wait_start}
use tinkoff_invest_sdkv.Awaitable.Meaning.{evaluate}
use tinkoff_invest_sdkv.Algo.{Double}
use tinkoff_invest_sdkv.Algo.Conversions.{HistoricCandle}
use tinkoff_invest_sdkv.Programs.{Exit, exit, out, err, instrument_of, failure}
use tinkoff_invest_sdkv.Programs.Sandbox
use tinkoff_invest_sdkv.Programs.Sandbox.{
  SandboxRequest, SandboxResponse, opens_account, pays_in, posts_order, gets_portfolio,
  closes_account, coro_run, coro_main, sandbox_main, sandbox_run, round_trip, market_buy, rubles,
}
use tinkoff_invest_sdkv.Programs.Closing.{
  left_open, Closes, serve, code_after, coro_main-Closes, sandbox_main-Closes,
}
use tinkoff_invest_sdkv.Programs.Accounts
use tinkoff_invest_sdkv.Programs.Accounts.{
  Account, AccountsRequest, AccountsResponse, accounts_main,
}
use tinkoff_invest_sdkv.Programs.Visits.{overview, accounts_main-overview}
use tinkoff_invest_sdkv.Programs.Backtests.{complete_bars, backtest_main}
use tinkoff_invest_sdkv.Programs.History.{InTime, IsInOrder, backtest_main-IsInOrder}

-- Nothing is thrown.
pub data Never : Type 0 where

abbrev token : Bytes
token = b't' ∷ []

abbrev account : Bytes
account = b'A' ∷ []

abbrev response : SandboxResponse
response = record {
  account_id = account;
  balance = rubles (pos 50_000);
  order_id = [];
  execution_report_status = pos 0;
  executed_order_price = rubles (pos 0);
  positions = [];
}

-- An account is opened, paid into and closed, and every order fails.
abbrev sandbox : SandboxRequest → Sandbox.Answer
sandbox opens_account = value response
sandbox (pays_in id amount) = value response
sandbox (posts_order o) = error new_error
sandbox (gets_portfolio id) = value response
sandbox (closes_account id) = value response

sandbox_run_requests :
    (sandbox_main Never sandbox (some token) none).1
    ≡ opens_account
      ∷ pays_in account (rubles (pos 100_000))
      ∷ posts_order (market_buy account (codes "BBG004730N88"))
      ∷ gets_portfolio account
      ∷ closes_account account
      ∷ []
unfolding sandbox_main sandbox_run round_trip evaluate instrument_of
sandbox_run_requests = refl

sandbox_main-Closes_example :
    (exit : Exit) × Closes sandbox exit (sandbox_main Never sandbox (some token) none)
sandbox_main-Closes_example = sandbox_main-Closes sandbox token none

coro_main-Closes_example :
    (n : ℕ) × (exit : Exit) × ((more : ℕ)
      → coro_main Never sandbox (n + more) (some token) none ≡ some (returned exit))
    × (exit.code ≡ code_after (sandbox opens_account))
    × (serve sandbox []
          (iterate sandbox n (wait_start (coro_run Never (instrument_of none)))).requests
        ≡ some (left_open sandbox (sandbox opens_account)))
coro_main-Closes_example = coro_main-Closes sandbox token none

abbrev user : AccountsResponse
user = record {
  tariff = [];
  qual_status = pos 0;
  accounts =
      record { id = account; name = []; type = pos 1; status = pos 2 }
      ∷ record { id = b'B' ∷ []; name = []; type = pos 1; status = pos 2 }
      ∷ [];
  total_amount_portfolio = rubles (pos 0);
  positions_size = pos 0;
}

-- No portfolio comes.
abbrev users : AccountsRequest → Accounts.Answer
users Accounts.gets_info = value user
users Accounts.gets_accounts = value user
users (Accounts.gets_portfolio id) = error new_error

-- The portfolios that do not come do not stop the program.
accounts_run :
    (accounts_main Never users (some token)).1 ≡ (overview users (value user) (value user)).1
accounts_run = ap (λ run. run.1) (accounts_main-overview Never users token)

-- Whole numbers; a square root is not needed here.
abbrev whole : Double
whole = record {
  Carrier = ℤ;
  plus = λ a b. a +ℤ b;
  minus = λ a b. a -ℤ b;
  times = λ a b. a *ℤ b;
  over = λ a b. quot a (pos_part b);
  less = ltb_ℤ;
  equal = eqb_ℤ;
  opposite = neg;
  sqrt = λ a. a;
  of_int = λ n. n;
}

abbrev candle : ℤ → HistoricCandle
candle time = record {
  open_price = record { units = pos 1; nano = pos 0 };
  high = record { units = pos 1; nano = pos 0 };
  low = record { units = pos 1; nano = pos 0 };
  close = record { units = pos 1; nano = pos 0 };
  volume = pos 1;
  time = time;
  is_complete = true;
}

-- Candles of so many days.
abbrev daily : ℕ → ℕ → List HistoricCandle
daily zero t = []
daily (suc n) t = candle (pos t) ∷ daily n (t + 86_400)

daily_times : (n t : ℕ) → InTime (pos t) (daily n t) (pos (t + n * 86_400))
unfolding InTime
daily_times zero t = omega arith
daily_times (suc n) t = (omega arith, earlier (daily n (t + 86_400)) (daily_times n (t + 86_400)))
  where
    earlier :
        (cs : List HistoricCandle)
        → InTime (pos (t + 86_400)) cs (pos (t + 86_400 + n * 86_400))
        → InTime (pos t) cs (pos (t + suc n * 86_400))
    earlier [] h = omega arith
    earlier (c ∷ cs) (h, k) = (omega arith, subst (λ m. InTime c.time cs (pos m)) (omega arith) k)

abbrev season : List HistoricCandle
season = daily 61 0

backtest_main-IsInOrder_example :
    let run = (backtest_main whole (λ q. value season) (pos 5_270_400) (some token) none none).0 in
    All (IsInOrder whole (pos 0) (pos 5_270_400)) run.reports
    × (((run.code ≡ 1) × (length (complete_bars whole season) ≤ 59) × (run.reports ≡ []))
        ⊎ ((run.code ≡ 0) × (60 ≤ length (complete_bars whole season)) × (length run.reports ≡ 6)))
backtest_main-IsInOrder_example =
    backtest_main-IsInOrder whole (λ q. value season) (pos 5_270_400) token none none season (pos 0)
      (pos 5_270_400) refl (daily_times 61 0)

-- What the program prints then.
sandbox_printed :
    (sandbox_main Never sandbox (some token) none).0
    ≡ returned (
        exit 0 (
          out (codes "opened sandbox account A")
          ∷ out (codes "balance: 50000 rub")
          ∷ err (codes "PostSandboxOrder failed: grpc=2")
          ∷ out (codes "closed sandbox account")
          ∷ []))
unfolding sandbox_main evaluate sandbox_run round_trip show_payment money_to_string show_order
    to_string failure show_portfolio money_of error_to_string show_closed make int_to_string
    normalize to_digits align carry to_money abs_units fraction
sandbox_printed = refl
