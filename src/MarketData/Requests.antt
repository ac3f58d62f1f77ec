-- ===== src/MarketData/Requests.antt =====
-- The requests of contracts/marketdata.proto that src/market_data_stream.cpp makes and takes apart,
-- and its `single`, `keys_of` and `action_of`.
use mathlib.Core.Option.{Option, none, some}
use tinkoff_invest_sdkv.Prelude.{ℕ, Bool, false, List, [], ◌∷◌, ◌++◌, map, Bytes, get_elem?}
pub use tinkoff_invest_sdkv.Prelude.Codes.{codes}
use tinkoff_invest_sdkv.Prelude.Int.{ℤ, pos}
use tinkoff_invest_sdkv.Prelude.Digits.{int_to_string}

pub data SubscriptionAction : Type 0 where
  unspecified subscribe unsubscribe : SubscriptionAction

pub record CandleInstrument : Type 0 where
  pub figi : Bytes
  pub interval : ℤ
  pub instrument_id : Bytes

pub record OrderBookInstrument : Type 0 where
  pub figi : Bytes
  pub depth : ℤ
  pub instrument_id : Bytes
  pub order_book_type : ℤ

-- `TradeInstrument`, `InfoInstrument` and `LastPriceInstrument` have the same two fields.
pub record PlainInstrument : Type 0 where
  pub figi : Bytes
  pub instrument_id : Bytes

pub record SubscribeCandlesRequest : Type 0 where
  pub subscription_action : SubscriptionAction
  pub instruments : List CandleInstrument
  pub waiting_close : Bool
  pub candle_source_type : Option ℤ

pub record SubscribeOrderBookRequest : Type 0 where
  pub subscription_action : SubscriptionAction
  pub instruments : List OrderBookInstrument

pub record SubscribeTradesRequest : Type 0 where
  pub subscription_action : SubscriptionAction
  pub instruments : List PlainInstrument
  pub trade_source : ℤ
  pub with_open_interest : Bool

-- `SubscribeInfoRequest` and `SubscribeLastPriceRequest`.
pub record SubscribePlainRequest : Type 0 where
  pub subscription_action : SubscriptionAction
  pub instruments : List PlainInstrument

-- `other` stands for a ping or ping settings.
pub data MarketDataRequest : Type 0 where
  candles : SubscribeCandlesRequest → MarketDataRequest
  order_book : SubscribeOrderBookRequest → MarketDataRequest
  trades : SubscribeTradesRequest → MarketDataRequest
  info : SubscribePlainRequest → MarketDataRequest
  last_price : SubscribePlainRequest → MarketDataRequest
  get_my_subscriptions : MarketDataRequest
  other : MarketDataRequest
  not_set : MarketDataRequest

-- `clear_instruments()` and `add_instruments()` with the chosen one; the callers stay in range.
unfoldable pub only : {I : Type 0} → List I → ℕ → List I
only xs i = elim (get_elem? xs i) [ none ↦ [] | some x ↦ x ∷ [] ]

unfoldable pub single : MarketDataRequest → ℕ → MarketDataRequest
unfolding only
single (candles p) i = candles (record p { instruments = only p.instruments i })
single (order_book p) i = order_book (record p { instruments = only p.instruments i })
single (trades p) i = trades (record p { instruments = only p.instruments i })
single (info p) i = info (record p { instruments = only p.instruments i })
single (last_price p) i = last_price (record p { instruments = only p.instruments i })
single _ i = not_set

-- `i.instrument_id().empty() ? i.figi() : i.instrument_id()`.
abbrev pub id_of : Bytes → Bytes → Bytes
id_of [] figi = figi
id_of (c ∷ s) figi = c ∷ s

unfoldable pub candle_key : CandleInstrument → Bytes
candle_key i =
    codes "candles|" ++ (id_of i.instrument_id i.figi ++ (b'|' ∷ int_to_string i.interval))

unfoldable pub order_book_key : OrderBookInstrument → Bytes
order_book_key i =
    codes "orderbook|"
    ++ (id_of i.instrument_id i.figi
        ++ (b'|' ∷ (int_to_string i.depth ++ (b'|' ∷ int_to_string i.order_book_type))))

unfoldable pub plain_key : Bytes → PlainInstrument → Bytes
plain_key prefix i = prefix ++ id_of i.instrument_id i.figi

unfoldable pub keys_of : MarketDataRequest → List Bytes
keys_of (candles p) = map candle_key p.instruments
keys_of (order_book p) = map order_book_key p.instruments
keys_of (trades p) = map (plain_key (codes "trades|")) p.instruments
keys_of (info p) = map (plain_key (codes "info|")) p.instruments
keys_of (last_price p) = map (plain_key (codes "last_price|")) p.instruments
keys_of _ = []

unfoldable pub action_of : MarketDataRequest → SubscriptionAction
action_of (candles p) = p.subscription_action
action_of (order_book p) = p.subscription_action
action_of (trades p) = p.subscription_action
action_of (info p) = p.subscription_action
action_of (last_price p) = p.subscription_action
action_of _ = unspecified

-- The requests of the convenience methods.
plain : Bytes → PlainInstrument
plain id = record { figi = []; instrument_id = id }

candles_request : SubscriptionAction → List Bytes → ℤ → Bool → MarketDataRequest
candles_request action ids interval waiting_close = candles (record {
  subscription_action = action;
  instruments = map (λ id. record { figi = []; interval = interval; instrument_id = id }) ids;
  waiting_close = waiting_close;
  candle_source_type = none;
})

order_book_request : SubscriptionAction → List Bytes → ℤ → ℤ → MarketDataRequest
order_book_request action ids depth type = order_book (record {
  subscription_action = action;
  instruments =
      map (λ id. record { figi = []; depth = depth; instrument_id = id; order_book_type = type })
        ids;
})

trades_request : SubscriptionAction → List Bytes → Bool → MarketDataRequest
unfolding plain
trades_request action ids with_open_interest = trades (record {
  subscription_action = action;
  instruments = map plain ids;
  trade_source = pos 0;
  with_open_interest = with_open_interest;
})

plain_request : SubscriptionAction → List Bytes → SubscribePlainRequest
unfolding plain
plain_request action ids = record { subscription_action = action; instruments = map plain ids }

unfoldable pub subscribe_candles : List Bytes → ℤ → Bool → MarketDataRequest
unfolding candles_request
subscribe_candles ids interval waiting_close = candles_request subscribe ids interval waiting_close

unfoldable pub unsubscribe_candles : List Bytes → ℤ → MarketDataRequest
unfolding candles_request
unsubscribe_candles ids interval = candles_request unsubscribe ids interval false

unfoldable pub subscribe_order_book : List Bytes → ℤ → ℤ → MarketDataRequest
unfolding order_book_request
subscribe_order_book ids depth type = order_book_request subscribe ids depth type

unfoldable pub unsubscribe_order_book : List Bytes → ℤ → ℤ → MarketDataRequest
unfolding order_book_request
unsubscribe_order_book ids depth type = order_book_request unsubscribe ids depth type

unfoldable pub subscribe_trades : List Bytes → Bool → MarketDataRequest
unfolding trades_request
subscribe_trades ids with_open_interest = trades_request subscribe ids with_open_interest

unfoldable pub unsubscribe_trades : List Bytes → MarketDataRequest
unfolding trades_request
unsubscribe_trades ids = trades_request unsubscribe ids false

unfoldable pub subscribe_last_prices : List Bytes → MarketDataRequest
unfolding plain_request
subscribe_last_prices ids = last_price (plain_request subscribe ids)

unfoldable pub unsubscribe_last_prices : List Bytes → MarketDataRequest
unfolding plain_request
unsubscribe_last_prices ids = last_price (plain_request unsubscribe ids)

unfoldable pub subscribe_info : List Bytes → MarketDataRequest
unfolding plain_request
subscribe_info ids = info (plain_request subscribe ids)

unfoldable pub unsubscribe_info : List Bytes → MarketDataRequest
unfolding plain_request
unsubscribe_info ids = info (plain_request unsubscribe ids)
