-- ===== src/MarketData/Examples.antt =====
-- Runs of the stream of src/market_data_stream.cpp on one subscription.
use tinkoff_invest_sdkv.Prelude.{◌≡◌, refl, true, false, List, [], ◌∷◌, none, some, Bytes, bytes_eq}
use tinkoff_invest_sdkv.Prelude.Dict.{lookup, values, erase, insert}
use tinkoff_invest_sdkv.MarketData.Requests.{
  MarketDataRequest, single, keys_of, subscribe_trades, unsubscribe_trades, subscribe_info,
  action_of, plain_key,
}
use tinkoff_invest_sdkv.MarketData.Registry.{
  Registry, update, replay, IsRegistry, forget, forget_all, remember, remember_from,
}
use tinkoff_invest_sdkv.MarketData.RegistryLaws.{replay-values}
use tinkoff_invest_sdkv.MarketData.Stream.{Stream, Call, stop, send, connect, maybe_write, publish}
use tinkoff_invest_sdkv.MarketData.View.{view_of, call_all, apply_all, call_all_refines}
use tinkoff_invest_sdkv.MarketData.World.{
  World, idle, run, begun, published, Reach, here, next, connects, publishes, stops,
}
use tinkoff_invest_sdkv.MarketData.Safety.{IsIdle}
use tinkoff_invest_sdkv.MarketData.Sync.{told}
use tinkoff_invest_sdkv.MarketData.Connecting.{subscribe_while_connecting}

abbrev share : Bytes
share = b'S' ∷ []

abbrev bond : Bytes
bond = b'B' ∷ []

-- A subscription to the trades of the share, and its cancellation.
abbrev to_trades : MarketDataRequest
to_trades = subscribe_trades (share ∷ []) true

abbrev from_trades : MarketDataRequest
from_trades = unsubscribe_trades (share ∷ [])

abbrev to_info : MarketDataRequest
to_info = subscribe_info (bond ∷ [])

abbrev trades_key : Bytes
trades_key = b't' ∷ b'r' ∷ b'a' ∷ b'd' ∷ b'e' ∷ b's' ∷ b'|' ∷ b'S' ∷ []

abbrev info_key : Bytes
info_key = b'i' ∷ b'n' ∷ b'f' ∷ b'o' ∷ b'|' ∷ b'B' ∷ []

abbrev one_subscription : Registry
one_subscription = (trades_key, to_trades) ∷ []

one_subscription-IsRegistry : IsRegistry one_subscription
unfolding keys_of subscribe_trades plain_key action_of single
one_subscription-IsRegistry = record {
  sorted = (tt, tt);
  entries = (record { key = refl; subscribes = refl; alone = refl }, tt);
}

update_run : update [] to_trades ≡ one_subscription
unfolding update action_of subscribe_trades remember remember_from keys_of insert plain_key single
update_run = refl

cancel_run : update one_subscription from_trades ≡ []
unfolding update action_of unsubscribe_trades forget forget_all keys_of erase bytes_eq plain_key
cancel_run = refl

replay-values_example :
    lookup trades_key (replay [] (values one_subscription)) ≡ lookup trades_key one_subscription
replay-values_example = replay-values one_subscription trades_key one_subscription-IsRegistry

-- A started stream between two calls, with one subscription.
abbrev waiting_stream : Stream
waiting_stream = record {
  worker = true;
  stopping = false;
  done = true;
  got_data = false;
  broken = true;
  hold_released = true;
  status = record { code = 14; message = [] };
  ctx = false;
  reactor = false;
  write_queue = [];
  write_in_flight = false;
  subscriptions = one_subscription;
}

abbrev waiting : World
waiting = record {
  stream = waiting_stream;
  phase = idle;
  active = false;
  held = false;
  writing = false;
  misuse = false;
  sent = [];
}

waiting-IsIdle : IsIdle waiting
waiting-IsIdle = record { phase = refl; reactor = refl; active = refl; writing = refl }

abbrev reconnected : World
reconnected = published (begun waiting)

reconnected_run : reconnected.sent ≡ to_trades ∷ []
unfolding run publish connect maybe_write
reconnected_run = refl

reconnects : Reach waiting reconnected
reconnects = next (next here (connects waiting refl refl)) (publishes (begun waiting) refl)

-- The stream reconnects and a user stops it.
abbrev stopped_world : World
stopped_world = run reconnected (stop reconnected.stream)

reaches_stop : Reach waiting stopped_world
reaches_stop =
    next (next (next here (connects waiting refl refl)) (publishes (begun waiting) refl))
      (stops reconnected)

subscribe_while_connecting_example :
    let u = published (run (begun waiting) (send (begun waiting).stream to_info true)) in
    (lookup info_key u.stream.subscriptions ≡ some (single to_info 0))
    × (lookup info_key (replay [] (told u)) ≡ none)
    × (u.stream.reactor ≡ true)
    × (u.stream.broken ≡ false)
    × (u.stream.hold_released ≡ false)
unfolding action_of subscribe_info keys_of plain_key lookup bytes_eq
subscribe_while_connecting_example =
    subscribe_while_connecting waiting to_info info_key waiting-IsIdle one_subscription-IsRegistry
      refl refl refl refl

abbrev two_calls : List Call
two_calls = Call.subscribes_info (bond ∷ []) ∷ Call.unsubscribes_trades (share ∷ []) ∷ []

call_all_refines_example :
    IsRegistry (call_all waiting_stream two_calls).subscriptions
    × (view_of (call_all waiting_stream two_calls).subscriptions
        ≡ apply_all two_calls (view_of one_subscription))
call_all_refines_example =
    call_all_refines waiting_stream two_calls refl one_subscription-IsRegistry
