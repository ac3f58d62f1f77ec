-- ===== src/MarketData/World.antt =====
-- The stream of src/market_data_stream.cpp beside its gRPC call: the steps that user threads, the
-- worker and the callbacks of the reactor make, in any order that gRPC allows.
use mathlib.Core.Path.{◌≡◌}
use tinkoff_invest_sdkv.Prelude.{◌⊎◌, Bool, true, false, not, ◌||◌, List, [], ◌∷◌, ◌++◌}
use tinkoff_invest_sdkv.MarketData.Requests.{MarketDataRequest}
use tinkoff_invest_sdkv.MarketData.Stream.{
  Stream, Status, Effect, start_write, remove_hold, try_cancel, notify_all, notifies, Call, call,
  start, stop, connect, publish, disconnect, handle_read_closed, handle_write_done, handle_response,
  handle_done,
}

-- Where the worker is: outside `run_once`, before it publishes the reactor, or waiting for the end.
pub data Phase : Type 0 where
  idle connecting live : Phase

-- `active`: the call has begun and `OnDone` has not come. `held`: its hold is not removed.
-- `writing`: a write is outstanding. `misuse`: a rule of gRPC was broken: a write beside an
-- outstanding one, a write or a second `RemoveHold` after the hold is gone, or on no call.
-- `sent`: the requests written to the current call.
pub record World : Type 0 where
  pub stream : Stream
  pub phase : Phase
  pub active : Bool
  pub held : Bool
  pub writing : Bool
  pub misuse : Bool
  pub sent : List MarketDataRequest

unfoldable pub perform : World → List Effect → World
perform w [] = w
perform w (start_write r ∷ es) =
    perform
      (record w {
        misuse = w.misuse || w.writing || not w.held || not w.active;
        writing = true;
        sent = w.sent ++ (r ∷ []);
      })
      es
perform w (remove_hold ∷ es) =
    perform (record w { misuse = w.misuse || not w.held; held = false }) es
perform w (try_cancel ∷ es) = perform w es
perform w (notify_all ∷ es) = perform w es
perform w (notifies s ∷ es) = perform w es

-- A handler's new state, and then its effects.
unfoldable pub run : World → Stream × List Effect → World
unfolding perform
run w (s, es) = perform (record w { stream = s }) es

abbrev pub begun : World → World
begun w = record w {
  stream = connect w.stream;
  phase = connecting;
  active = true;
  held = true;
  writing = false;
  sent = [];
}

abbrev pub published : World → World
published w = run (record w { phase = live }) (publish w.stream)

-- gRPC reports a write only if one is outstanding, reads only on an active call, and the end of the
-- call only once its hold is gone and no write is outstanding.
pub data Step : World → World → Type 0 where
  calls : (w : World) (c : Call) → Step w (run w (call w.stream c))
  starts : (w : World) → Step w (record w { stream = (start w.stream).0 })
  stops : (w : World) → Step w (run w (stop w.stream))
  connects : (w : World) → w.phase ≡ idle → w.stream.stopping ≡ false → Step w (begun w)
  publishes : (w : World) → w.phase ≡ connecting → Step w (published w)
  write_dones :
      (w : World) (ok : Bool)
      → w.writing ≡ true
      → Step w (run (record w { writing = false }) (handle_write_done w.stream ok))
  read_closes : (w : World) → w.active ≡ true → Step w (run w (handle_read_closed w.stream))
  responds : (w : World) → w.active ≡ true → Step w (run w (handle_response w.stream))
  finishes :
      (w : World) (status : Status)
      → w.active ≡ true
      → w.held ≡ false
      → w.writing ≡ false
      → Step w (run (record w { active = false }) (handle_done w.stream status))
  disconnects :
      (w : World)
      → w.phase ≡ live
      → w.stream.done ≡ true
      → Step w (record w { stream = disconnect w.stream; phase = idle })

pub data Reach (v : World) : World → Type 0 where
  here : Reach v v
  next : {w u : World} → Reach v w → Step w u → Reach v u

-- A `start` that makes a worker comes only while the last one is outside of `run_once`.
abbrev pub IsTimely : {w u : World} → Step w u → Type 0
IsTimely (starts w) = (w.stream.worker ≡ true) ⊎ (w.phase ≡ idle)
IsTimely _ = Unit

abbrev pub AllTimely : {v w : World} → Reach v w → Type 0
AllTimely here = Unit
AllTimely (next r s) = AllTimely r × IsTimely s
