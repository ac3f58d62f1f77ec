-- ===== src/Streams/Factories.antt =====
-- The factories of include/tinvest/streams/server_stream.hpp. Whether a response is a ping is its
-- generated `has_ping`, a parameter.
use tinkoff_invest_sdkv.Prelude.{
  ◌≡◌, refl, Bool, true, false, List, [], ◌∷◌, map, Option, none, some, Bytes, bytes_eq, ◌&&◌,
  if◌then◌else◌,
}
use tinkoff_invest_sdkv.Prelude.Codes.{codes}
use tinkoff_invest_sdkv.Streams.{StreamOptions}
use tinkoff_invest_sdkv.Streams.Server.{
  ServerStream, hears_connected, delivers, start, begin_call, receive_all, payload, receive_all_lem,
}

-- A stream with its method of the stub, its filter and options. `spawned`: its thread was started.
pub record Opened {ℓ} (A : Type ℓ) : Type ℓ where
  pub service : Bytes
  pub rpc : Bytes
  pub is_ping : Option (A → Bool)
  pub options : StreamOptions
  pub stream : ServerStream
  pub spawned : Bool

-- The constructor.
unfoldable pub construct {ℓ} : {A : Type ℓ} → Bytes → Bytes → StreamOptions → Opened A
construct service rpc options = record {
  service = service;
  rpc = rpc;
  is_ping = none;
  options = options;
  stream = record {
    worker = false;
    stopping = false;
    done = false;
    got_data = false;
    status = record { code = 0; message = [] };
    ctx = false;
  };
  spawned = false;
}

unfoldable pub set_ping_filter {ℓ} : {A : Type ℓ} → Opened A → (A → Bool) → Opened A
set_ping_filter o f = record o { is_ping = some f }

unfoldable pub start_opened {ℓ} : {A : Type ℓ} → Opened A → Opened A
start_opened o = let (s, spawned) = start o.stream in record o { stream = s; spawned = spawned }

pub data Factory : Type 0 where
  positions portfolio trades order_state market_data : Factory

module _ {ℓ} {A : Type ℓ} (has_ping : A → Bool) (options : StreamOptions) where
  unfoldable pub make_positions_stream : Opened A
  make_positions_stream = start_opened (
      set_ping_filter
        (construct (codes "OperationsStreamService") (codes "PositionsStream") options) has_ping)

  unfoldable pub make_portfolio_stream : Opened A
  make_portfolio_stream = start_opened (
      set_ping_filter
        (construct (codes "OperationsStreamService") (codes "PortfolioStream") options) has_ping)

  unfoldable pub make_trades_stream : Opened A
  make_trades_stream = start_opened (
      set_ping_filter (construct (codes "OrdersStreamService") (codes "TradesStream") options)
        has_ping)

  unfoldable pub make_order_state_stream : Opened A
  make_order_state_stream = start_opened (
      set_ping_filter (construct (codes "OrdersStreamService") (codes "OrderStateStream") options)
        has_ping)

  unfoldable pub make_market_data_server_stream : Opened A
  make_market_data_server_stream = start_opened (
      set_ping_filter
        (construct (codes "MarketDataStreamService") (codes "MarketDataServerSideStream") options)
        has_ping)

  unfoldable pub make_stream : Factory → Opened A
  make_stream positions = make_positions_stream
  make_stream portfolio = make_portfolio_stream
  make_stream trades = make_trades_stream
  make_stream order_state = make_order_state_stream
  make_stream market_data = make_market_data_server_stream

-- The RPCs with a server's stream that `OperationsStreamService`, `OrdersStreamService` and
-- `MarketDataStreamService` of contracts/*.proto declare.
abbrev pub streams_contract : List (Bytes × Bytes)
streams_contract =
    (codes "OperationsStreamService", codes "PortfolioStream")
    ∷ (codes "OperationsStreamService", codes "PositionsStream")
    ∷ (codes "OrdersStreamService", codes "TradesStream")
    ∷ (codes "OrdersStreamService", codes "OrderStateStream")
    ∷ (codes "MarketDataStreamService", codes "MarketDataServerSideStream")
    ∷ []

-- The factory for an RPC.
unfoldable pub factory_for : List (Bytes × Bytes) → List Factory → Bytes × Bytes → Option Factory
factory_for (d ∷ ds) (f ∷ fs) (service, rpc) =
    let rest = factory_for ds fs (service, rpc) in
    if bytes_eq d.0 service && bytes_eq d.1 rpc then some f else rest
factory_for _ _ _ = none

abbrev pub factories : List Factory
factories = portfolio ∷ positions ∷ trades ∷ order_state ∷ market_data ∷ []

-- Each factory gives a stream whose thread is started, with the options given, on an RPC that the
-- contracts declare and no other factory uses; and of the messages of its first call the user gets those
-- that are no pings, once and in order, after one `connected`.
pub make_stream_receives {ℓ} :
    {A : Type ℓ} (has_ping : A → Bool) (options : StreamOptions) (f : Factory) (x : A) (xs : List A)
    → let o = make_stream has_ping options f in
      (o.spawned ≡ true)
      × (o.options ≡ options)
      × (factory_for streams_contract factories (o.service, o.rpc) ≡ some f)
      × ((begin_call o.stream).1 ≡ true)
      × (receive_all o.is_ping (begin_call o.stream).0 (x ∷ xs)
          ≡ hears_connected ∷ map delivers (payload (some has_ping) (x ∷ xs)))
unfolding make_stream make_positions_stream make_portfolio_stream make_trades_stream
    make_order_state_stream make_market_data_server_stream start_opened set_ping_filter construct
    start begin_call factory_for bytes_eq
make_stream_receives has_ping options positions x xs = (
  refl,
  refl,
  refl,
  refl,
  receive_all_lem (some has_ping) (make_stream has_ping options positions).stream x xs,
)
make_stream_receives has_ping options portfolio x xs = (
  refl,
  refl,
  refl,
  refl,
  receive_all_lem (some has_ping) (make_stream has_ping options portfolio).stream x xs,
)
make_stream_receives has_ping options trades x xs = (
  refl,
  refl,
  refl,
  refl,
  receive_all_lem (some has_ping) (make_stream has_ping options trades).stream x xs,
)
make_stream_receives has_ping options order_state x xs = (
  refl,
  refl,
  refl,
  refl,
  receive_all_lem (some has_ping) (make_stream has_ping options order_state).stream x xs,
)
make_stream_receives has_ping options market_data x xs = (
  refl,
  refl,
  refl,
  refl,
  receive_all_lem (some has_ping) (make_stream has_ping options market_data).stream x xs,
)
