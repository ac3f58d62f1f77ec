-- ===== src/MarketData/Reconnect.antt =====
-- Every reconnection of src/market_data_stream.cpp brings the server in step with the registry, and
-- the requests that follow keep it there.
use tinkoff_invest_sdkv.Prelude.{◌≡◌, ◌≢◌, arith, true}
use tinkoff_invest_sdkv.MarketData.Registry.{IsRegistry}
use tinkoff_invest_sdkv.MarketData.Stream.{Stream, maybe_write, publish}
use tinkoff_invest_sdkv.MarketData.World.{
  World, connecting, run, published, Step, calls, Reach, here, next,
}
use tinkoff_invest_sdkv.MarketData.Safety.{Inv}
use tinkoff_invest_sdkv.MarketData.View.{request_of}
use tinkoff_invest_sdkv.MarketData.Sync.{Synced}

-- Each request is remembered, and none comes while the worker connects.
abbrev pub IsRemembered : {w u : World} → Step w u → Type 0
IsRemembered (calls w c) = (w.phase ≢ connecting) × ((request_of c).1 ≡ true)
IsRemembered _ = Unit

abbrev pub AllRemembered : {v w : World} → Reach v w → Type 0
AllRemembered here = Unit
AllRemembered (next r s) = AllRemembered r × IsRemembered s

pub record IsGood (w : World) : Type 0 where
  pub inv : Inv w
  pub registry : IsRegistry w.stream.subscriptions
  pub synced : Synced w

pub published_subscriptions :
    (w : World) → (published w).stream.subscriptions ≡ w.stream.subscriptions
unfolding run publish maybe_write
published_subscriptions w = ground arith
