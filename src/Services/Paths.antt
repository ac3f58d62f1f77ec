-- ===== src/Services/Paths.antt =====
-- The names under which the methods of include/tinvest/services.hpp are called and limited.
use mathlib.Core.Option.{some-injective}
use tinkoff_invest_sdkv.Prelude.{
  ◌≡◌, refl, sym, ap, ◌∙◌, arith, Bool, true, false, not, ◌&&◌, ◌||◌, if◌then◌else◌, ◌==◌, List, [],
  ◌∷◌, ◌++◌, map, Option, none, some, Bytes, bytes_eq,
}
use tinkoff_invest_sdkv.Services.Tables.{Method}
use tinkoff_invest_sdkv.Services.{
  Service, users, instruments, market_data, operations, orders, stop_orders, sandbox, signals,
  full_name, methods, contract_of, path,
}

has_slash : Bytes → Bool
has_slash [] = false
has_slash (c ∷ s) = c == b'/' || has_slash s

full_name_plain : (s : Service) → has_slash (full_name s) ≡ false
unfolding has_slash full_name
full_name_plain users = refl
full_name_plain instruments = refl
full_name_plain market_data = refl
full_name_plain operations = refl
full_name_plain orders = refl
full_name_plain stop_orders = refl
full_name_plain sandbox = refl
full_name_plain signals = refl

-- Two names without a slash, each before a slash.
split_slash :
    (s t u v : Bytes)
    → has_slash s ≡ false
    → has_slash t ≡ false
    → s ++ b'/' ∷ u ≡ t ++ b'/' ∷ v
    → (s ≡ t) × (u ≡ v)
unfolding has_slash
split_slash [] [] u v h k e = (refl, cc)
split_slash [] (d ∷ t) u v h k e = absurd (ground arith)
split_slash (c ∷ s) [] u v h k e = absurd (ground arith)
split_slash (c ∷ s) (d ∷ t) u v h k e =
    let (p, q) = split_slash s t u v (ground arith) (ground arith) cc in (cc, q)

-- The service that has a name.
service_of : List Service → Bytes → Option Service
service_of [] name = none
service_of (s ∷ ss) name =
    let rest = service_of ss name in if bytes_eq (full_name s) name then some s else rest

all_services : List Service
all_services =
    users ∷ instruments ∷ market_data ∷ operations ∷ orders ∷ stop_orders ∷ sandbox ∷ signals ∷ []

service_of-full_name : (s : Service) → service_of all_services (full_name s) ≡ some s
unfolding service_of all_services full_name bytes_eq
service_of-full_name users = refl
service_of-full_name instruments = refl
service_of-full_name market_data = refl
service_of-full_name operations = refl
service_of-full_name orders = refl
service_of-full_name stop_orders = refl
service_of-full_name sandbox = refl
service_of-full_name signals = refl

-- No two RPCs are called under one name, so that none is limited by the entry of another: the name
-- of a call determines the service and the RPC.
pub path_injective :
    (s t : Service) (m n : Method) → path s m ≡ path t n → (s ≡ t) × (m.rpc ≡ n.rpc)
unfolding path
path_injective s t m n e =
    let (p, q) =
      split_slash (full_name s) (full_name t) m.rpc n.rpc (full_name_plain s) (full_name_plain t)
        e in
    (
      some-injective s t
          (sym (service_of-full_name s) ∙ ap (service_of all_services) p ∙ service_of-full_name t),
      q,
    )

unfoldable is_listed : Bytes → List Bytes → Bool
is_listed x [] = false
is_listed x (y ∷ ys) = bytes_eq x y || is_listed x ys

unfoldable pub distinct : List Bytes → Bool
unfolding is_listed
distinct [] = true
distinct (x ∷ xs) = not (is_listed x xs) && distinct xs

-- The methods of every service are the unary RPCs that its contract declares, all of them, each once
-- and in the same order, and no two have one name.
pub methods-contract_of :
    (s : Service)
    → (map (λ (m : Method). m.rpc) (methods s) ≡ contract_of s)
      × (distinct (contract_of s) ≡ true)
      × (distinct (map (λ (m : Method). m.name) (methods s)) ≡ true)
unfolding methods contract_of distinct is_listed bytes_eq
methods-contract_of users = (refl, refl, refl)
methods-contract_of instruments = (refl, refl, refl)
methods-contract_of market_data = (refl, refl, refl)
methods-contract_of operations = (refl, refl, refl)
methods-contract_of orders = (refl, refl, refl)
methods-contract_of stop_orders = (refl, refl, refl)
methods-contract_of sandbox = (refl, refl, refl)
methods-contract_of signals = (refl, refl, refl)
