-- ===== src/Services/Examples.antt =====
-- Runs of include/tinvest/services.hpp under a tariff.
use tinkoff_invest_sdkv.RateLimiter.Table.{names}
use tinkoff_invest_sdkv.Prelude.{ℕ, ◌≡◌, refl, arith, true, false, [], ◌∷◌, ◌++◌, Bytes, bytes_eq}
use tinkoff_invest_sdkv.Prelude.Int.{pos}
use tinkoff_invest_sdkv.Prelude.Codes.{codes}
use tinkoff_invest_sdkv.Error.{value}
use tinkoff_invest_sdkv.RateLimiter.{RateLimiter, UnaryLimit, normalize}
use tinkoff_invest_sdkv.Unary.{Outcome}
use tinkoff_invest_sdkv.Client.{load_rate_limits}
use tinkoff_invest_sdkv.Services.{users, path, full_name}
use tinkoff_invest_sdkv.Services.Tables.{Method}
use tinkoff_invest_sdkv.Services.Paths.{path_injective}
use tinkoff_invest_sdkv.Services.Limits.{started_calls, first_of, loaded_limits}

abbrev get_accounts : Method
get_accounts = record { name = codes "get_accounts"; rpc = codes "GetAccounts" }

path_run :
    path users get_accounts ≡ codes "tinkoff.public.invest.api.contract.v1.UsersService/GetAccounts"
unfolding path full_name
path_run = refl

path_injective_example : (users ≡ users) × (get_accounts.rpc ≡ get_accounts.rpc)
path_injective_example = path_injective users users get_accounts get_accounts refl

abbrev unlimited : RateLimiter
unlimited = record { window = 60_000; groups = []; by_method = [] }

-- Two calls in a minute, under the name with a slash.
abbrev two_per_minute : UnaryLimit
two_per_minute = record {
  limit_per_minute = pos 2;
  methods = codes "/tinkoff.public.invest.api.contract.v1.UsersService/GetAccounts" ∷ [];
}

abbrev answered : Bytes → Outcome ℕ
answered name = record { status = record { code = 0; message = [] }; metadata = []; response = 7 }

first_of_run : first_of 2 (100_000 ∷ 100_001 ∷ 100_002 ∷ []) ≡ true ∷ true ∷ false ∷ []
unfolding first_of
first_of_run = refl

loaded_limits_example :
    started_calls
      (load_rate_limits unlimited (value ([] ++ two_per_minute ∷ []))).0
      users
      get_accounts
      answered
      (100_000 ∷ 100_001 ∷ 100_002 ∷ [])
    ≡ first_of 2 (100_000 ∷ 100_001 ∷ 100_002 ∷ [])
unfolding names bytes_eq normalize path full_name
loaded_limits_example =
    loaded_limits users get_accounts answered unlimited [] [] two_per_minute 100_000
      (100_001 ∷ 100_002 ∷ []) refl tt (omega arith) (omega arith) (omega arith, (omega arith, tt))
