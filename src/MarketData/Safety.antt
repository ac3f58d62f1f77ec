-- ===== src/MarketData/Safety.antt =====
-- The stream of src/market_data_stream.cpp keeps the rules of gRPC in every interleaving.
use tinkoff_invest_sdkv.Prelude.{◌≡◌, arith, ◌⊎◌, Bool, true, false, not}
use tinkoff_invest_sdkv.MarketData.Requests.{MarketDataRequest}
use tinkoff_invest_sdkv.MarketData.Stream.{
  Status, Call, call, send, enqueue, maybe_write, start, stop, connect, publish, disconnect,
  handle_read_closed, handle_write_done, handle_response, handle_done,
}
use tinkoff_invest_sdkv.MarketData.World.{
  IsTimely, AllTimely, World, idle, connecting, live, run, begun, published, Step, calls, starts,
  stops, connects, publishes, write_dones, read_closes, responds, finishes, disconnects, Reach,
  here, next,
}

-- Between two calls.
pub record IsIdle (w : World) : Type 0 where
  pub phase : w.phase ≡ idle
  pub reactor : w.stream.reactor ≡ false
  pub active : w.active ≡ false
  pub writing : w.writing ≡ false

-- Before the reactor is published: the hold is there, and nobody writes.
pub record IsConnecting (w : World) : Type 0 where
  pub phase : w.phase ≡ connecting
  pub reactor : w.stream.reactor ≡ false
  pub active : w.active ≡ true
  pub held : w.held ≡ true
  pub writing : w.writing ≡ false
  pub released : w.stream.hold_released ≡ false
  pub done : w.stream.done ≡ false
  pub in_flight : w.stream.write_in_flight ≡ false
  pub stopping : (w.stream.stopping ≡ false) ⊎ (w.stream.broken ≡ true)

-- The call runs: the flags of the stream tell the truth about it, and a broken or stopping stream has
-- let go of its hold.
pub record IsRunning (w : World) : Type 0 where
  pub phase : w.phase ≡ live
  pub reactor : w.stream.reactor ≡ true
  pub active : w.active ≡ true
  pub done : w.stream.done ≡ false
  pub held : w.held ≡ not w.stream.hold_released
  pub in_flight : (w.writing ≡ false) ⊎ (w.stream.write_in_flight ≡ true)
  pub broken : (w.stream.broken ≡ false) ⊎ (w.stream.hold_released ≡ true)
  pub stopping : (w.stream.stopping ≡ false) ⊎ (w.stream.broken ≡ true)

-- The call is over and the worker has not yet seen it.
pub record IsOver (w : World) : Type 0 where
  pub phase : w.phase ≡ live
  pub reactor : w.stream.reactor ≡ false
  pub active : w.active ≡ false
  pub writing : w.writing ≡ false
  pub done : w.stream.done ≡ true

pub record Inv (w : World) : Type 0 where
  pub clean : w.misuse ≡ false
  pub place : IsIdle w ⊎ IsConnecting w ⊎ IsRunning w ⊎ IsOver w

maybe_write-Inv : (w : World) → Inv w → Inv (run w (maybe_write w.stream))
unfolding run maybe_write
maybe_write-Inv w v = ground arith

pub read_closed-Inv :
    (w : World) → Inv w → w.active ≡ true → Inv (run w (handle_read_closed w.stream))
unfolding run handle_read_closed
read_closed-Inv w v a = ground arith

pub response-Inv : (w : World) → Inv w → Inv (run w (handle_response w.stream))
unfolding run handle_response
response-Inv w v = ground arith

pub stop-Inv : (w : World) → Inv w → Inv (run w (stop w.stream))
unfolding run stop
stop-Inv w v = ground arith

pub done-Inv :
    (w : World) (status : Status)
    → Inv w
    → w.active ≡ true
    → w.held ≡ false
    → w.writing ≡ false
    → Inv (run (record w { active = false }) (handle_done w.stream status))
unfolding run handle_done
done-Inv w status v a h k = ground arith

pub connect-Inv : (w : World) → Inv w → w.phase ≡ idle → w.stream.stopping ≡ false → Inv (begun w)
unfolding connect
connect-Inv w v p s = ground arith

pub publish-Inv : (w : World) → Inv w → w.phase ≡ connecting → Inv (published w)
unfolding run publish maybe_write
publish-Inv w v p = ground arith

pub send-Inv :
    (w : World) (r : MarketDataRequest) (remember : Bool)
    → Inv w
    → Inv (run w (send w.stream r remember))
unfolding run send enqueue maybe_write
send-Inv w r true v = ground arith
send-Inv w r false v = ground arith

call-Inv : (w : World) (c : Call) → Inv w → Inv (run w (call w.stream c))
unfolding call
call-Inv w (Call.subscribes_candles ids interval waiting_close) v = send-Inv w _ true v
call-Inv w (Call.unsubscribes_candles ids interval) v = send-Inv w _ true v
call-Inv w (Call.subscribes_order_book ids depth type) v = send-Inv w _ true v
call-Inv w (Call.unsubscribes_order_book ids depth type) v = send-Inv w _ true v
call-Inv w (Call.subscribes_trades ids with_open_interest) v = send-Inv w _ true v
call-Inv w (Call.unsubscribes_trades ids) v = send-Inv w _ true v
call-Inv w (Call.subscribes_last_prices ids) v = send-Inv w _ true v
call-Inv w (Call.unsubscribes_last_prices ids) v = send-Inv w _ true v
call-Inv w (Call.subscribes_info ids) v = send-Inv w _ true v
call-Inv w (Call.unsubscribes_info ids) v = send-Inv w _ true v
call-Inv w Call.gets_my_subscriptions v = send-Inv w _ false v
call-Inv w (Call.sends r remember) v = send-Inv w r remember v

pub write_done-Inv :
    (w : World) (ok : Bool)
    → Inv w
    → w.writing ≡ true
    → Inv (run (record w { writing = false }) (handle_write_done w.stream ok))
unfolding run handle_write_done maybe_write handle_read_closed
write_done-Inv w true v h = ground arith
write_done-Inv w false v h = ground arith

start-Inv :
    (w : World)
    → Inv w
    → (w.stream.worker ≡ true) ⊎ (w.phase ≡ idle)
    → Inv (record w { stream = (start w.stream).0 })
unfolding start
start-Inv w v p = ground arith

pub disconnect-Inv :
    (w : World)
    → Inv w
    → w.phase ≡ live
    → w.stream.done ≡ true
    → Inv (record w { stream = disconnect w.stream; phase = idle })
unfolding disconnect
disconnect-Inv w v p d = ground arith

-- Every step keeps the invariant.
pub Step-Inv : {w u : World} (s : Step w u) → IsTimely s → Inv w → Inv u
Step-Inv (calls w c) t v = call-Inv w c v
Step-Inv (starts w) p v = start-Inv w v p
Step-Inv (stops w) t v = stop-Inv w v
Step-Inv (connects w p s) t v = connect-Inv w v p s
Step-Inv (publishes w p) t v = publish-Inv w v p
Step-Inv (write_dones w ok h) t v = write_done-Inv w ok v h
Step-Inv (read_closes w a) t v = read_closed-Inv w v a
Step-Inv (responds w a) t v = response-Inv w v
Step-Inv (finishes w status a h k) t v = done-Inv w status v a h k
Step-Inv (disconnects w p d) t v = disconnect-Inv w v p d

pub Reach-Inv : {v w : World} (r : Reach v w) → AllTimely r → Inv v → Inv w
Reach-Inv here a i = i
Reach-Inv (next r s) (a, t) i = Step-Inv s t (Reach-Inv r a i)
