-- ===== src/MarketData/Stream.antt =====
-- The state of `MarketDataStream` and its handlers in src/market_data_stream.cpp. A handler is what it
-- does under the mutex, with the calls of gRPC and of the condition variable as a list of effects in
-- their order; `RemoveHold` comes after the mutex is free.
pub use tinkoff_invest_sdkv.Error.{Status}
pub use tinkoff_invest_sdkv.Streams.{StreamState, connecting, connected, disconnected, stopped}
use tinkoff_invest_sdkv.Prelude.{
  Bool, true, false, not, ◌&&◌, ◌||◌, if◌then◌else◌, List, [], ◌∷◌, ◌++◌, Bytes,
}
use tinkoff_invest_sdkv.Prelude.Int.{ℤ}
use tinkoff_invest_sdkv.Prelude.Dict.{values}
use tinkoff_invest_sdkv.MarketData.Requests.{
  MarketDataRequest, get_my_subscriptions, subscribe_candles, unsubscribe_candles,
  subscribe_order_book, unsubscribe_order_book, subscribe_trades, unsubscribe_trades,
  subscribe_last_prices, unsubscribe_last_prices, subscribe_info, unsubscribe_info,
}
use tinkoff_invest_sdkv.MarketData.Registry.{Registry, update}

pub data Effect : Type 0 where
  start_write : MarketDataRequest → Effect
  remove_hold try_cancel notify_all : Effect
  notifies : StreamState → Effect

-- `ctx` and `reactor` say whether the pointers are set, `worker` whether the thread is joinable.
pub record Stream : Type 0 where
  pub worker : Bool
  pub stopping : Bool
  pub done : Bool
  pub got_data : Bool
  pub broken : Bool
  pub hold_released : Bool
  pub status : Status
  pub ctx : Bool
  pub reactor : Bool
  pub write_queue : List MarketDataRequest
  pub write_in_flight : Bool
  pub subscriptions : Registry

unfoldable pub write_from : Stream → List MarketDataRequest → Stream × List Effect
write_from s [] = (s, [])
write_from s (r ∷ rs) = (record s { write_in_flight = true; write_queue = rs }, start_write r ∷ [])

-- `maybe_write_locked`.
unfoldable pub maybe_write : Stream → Stream × List Effect
unfolding write_from
maybe_write s =
    if not s.reactor || s.broken || s.hold_released || s.write_in_flight
    then (s, [])
    else write_from s s.write_queue

-- The worker's thread is started only if there is none.
unfoldable pub start : Stream → Stream × Bool
start s = if s.worker then (s, false) else (record s { stopping = false; worker = true }, true)

-- The hold is released by whoever finds it unreleased on a published reactor.
unfoldable pub release_hold : Stream → Stream × List Effect
release_hold s =
    if s.reactor && not s.hold_released
    then (record s { hold_released = true }, remove_hold ∷ [])
    else (s, [])

unfoldable pub stop : Stream → Stream × List Effect
unfolding release_hold
stop s =
    let (t, release) = release_hold (record s { stopping = true; broken = true; worker = false }) in
    (t, (if s.ctx then try_cancel ∷ [] else []) ++ ((notify_all ∷ []) ++ release))

-- The first critical section of `run_once`, when it is not stopping: a new call, and the whole
-- registry queued in key order.
unfoldable pub connect : Stream → Stream
connect s = record s {
  ctx = true;
  done = false;
  broken = false;
  hold_released = false;
  got_data = false;
  write_in_flight = false;
  write_queue = values s.subscriptions;
}

-- The second critical section of `run_once`.
unfoldable pub publish : Stream → Stream × List Effect
publish s =
    if s.done
    then (s, [])
    else let t = record s { reactor = true } in
      if (t.stopping || t.broken) && not t.hold_released
      then (record t { hold_released = true }, remove_hold ∷ [])
      else maybe_write t

-- The last critical section of `run_once`.
unfoldable pub disconnect : Stream → Stream
disconnect s = record s { ctx = false }

unfoldable pub handle_read_closed : Stream → Stream × List Effect
unfolding release_hold
handle_read_closed s = release_hold (record s { broken = true })

unfoldable pub handle_write_done : Stream → Bool → Stream × List Effect
handle_write_done s true = maybe_write (record s { write_in_flight = false })
handle_write_done s false = handle_read_closed s

-- `handle_response` up to its `dispatch`.
unfoldable pub handle_response : Stream → Stream × List Effect
handle_response s =
    if s.got_data then (s, []) else (record s { got_data = true }, notifies connected ∷ [])

unfoldable pub handle_done : Stream → Status → Stream × List Effect
handle_done s status = (record s { reactor = false; status = status; done = true }, notify_all ∷ [])

unfoldable pub enqueue : Stream → MarketDataRequest → Stream × List Effect
enqueue s r =
    if s.reactor && not s.broken && not s.hold_released
    then maybe_write (record s { write_queue = s.write_queue ++ (r ∷ []) })
    else (s, [])

unfoldable pub send : Stream → MarketDataRequest → Bool → Stream × List Effect
send s r remember =
    if s.stopping
    then (s, [])
    else if remember
    then enqueue (record s { subscriptions = update s.subscriptions r }) r
    else enqueue s r

-- The calls of the class that send.
pub data Call : Type 0 where
  subscribes_candles : List Bytes → ℤ → Bool → Call
  unsubscribes_candles : List Bytes → ℤ → Call
  subscribes_order_book unsubscribes_order_book : List Bytes → ℤ → ℤ → Call
  subscribes_trades : List Bytes → Bool → Call
  unsubscribes_trades subscribes_last_prices unsubscribes_last_prices : List Bytes → Call
  subscribes_info unsubscribes_info : List Bytes → Call
  gets_my_subscriptions : Call
  sends : MarketDataRequest → Bool → Call

unfoldable pub call : Stream → Call → Stream × List Effect
call s (subscribes_candles ids interval waiting_close) =
    send s (subscribe_candles ids interval waiting_close) true
call s (unsubscribes_candles ids interval) = send s (unsubscribe_candles ids interval) true
call s (subscribes_order_book ids depth type) = send s (subscribe_order_book ids depth type) true
call s (unsubscribes_order_book ids depth type) =
    send s (unsubscribe_order_book ids depth type) true
call s (subscribes_trades ids with_open_interest) =
    send s (subscribe_trades ids with_open_interest) true
call s (unsubscribes_trades ids) = send s (unsubscribe_trades ids) true
call s (subscribes_last_prices ids) = send s (subscribe_last_prices ids) true
call s (unsubscribes_last_prices ids) = send s (unsubscribe_last_prices ids) true
call s (subscribes_info ids) = send s (subscribe_info ids) true
call s (unsubscribes_info ids) = send s (unsubscribe_info ids) true
call s gets_my_subscriptions = send s get_my_subscriptions false
call s (sends r remember) = send s r remember
