-- ===== src/MarketData/Handlers.antt =====
-- `dispatch` of src/market_data_stream.cpp.
use tinkoff_invest_sdkv.Prelude.{◌≡◌, refl, Bool, true, if◌then◌else◌, List, [], ◌∷◌, ◌++◌}

-- The payload of a `MarketDataResponse`.
pub data Payload : Type 0 where
  candle trade orderbook last_price trading_status open_interest : Payload
  subscribe_candles_response subscribe_order_book_response subscribe_trades_response : Payload
  subscribe_info_response subscribe_last_price_response ping unset : Payload

-- The fields of `MarketDataHandlers`.
pub data Handler : Type 0 where
  on_candle on_trade on_order_book on_last_price on_trading_status on_open_interest : Handler
  on_subscription_result on_raw : Handler

-- Which handlers are set.
abbrev pub Handlers : Type 0
Handlers = Handler → Bool

-- The handler that is called if it is set.
abbrev pub if_set : Handlers → Handler → List Handler
if_set h x = if h x then x ∷ [] else []

-- The handlers that a response calls, in their order.
unfoldable pub dispatch : Handlers → Payload → List Handler
dispatch h candle = if_set h on_raw ++ if_set h on_candle
dispatch h trade = if_set h on_raw ++ if_set h on_trade
dispatch h orderbook = if_set h on_raw ++ if_set h on_order_book
dispatch h last_price = if_set h on_raw ++ if_set h on_last_price
dispatch h trading_status = if_set h on_raw ++ if_set h on_trading_status
dispatch h open_interest = if_set h on_raw ++ if_set h on_open_interest
dispatch h subscribe_candles_response = if_set h on_raw ++ if_set h on_subscription_result
dispatch h subscribe_order_book_response = if_set h on_raw ++ if_set h on_subscription_result
dispatch h subscribe_trades_response = if_set h on_raw ++ if_set h on_subscription_result
dispatch h subscribe_info_response = if_set h on_raw ++ if_set h on_subscription_result
dispatch h subscribe_last_price_response = if_set h on_raw ++ if_set h on_subscription_result
dispatch h ping = if_set h on_raw ++ []
dispatch h unset = if_set h on_raw ++ []

dispatch_run : dispatch (λ x. true) trade ≡ on_raw ∷ on_trade ∷ []
unfolding dispatch
dispatch_run = refl

ping_run : dispatch (λ x. true) ping ≡ on_raw ∷ []
unfolding dispatch
ping_run = refl
