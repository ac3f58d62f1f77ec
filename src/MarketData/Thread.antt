-- ===== src/MarketData/Thread.antt =====
-- The stream of src/market_data_stream.cpp with its thread: the loop `run` around the calls of World, and
-- `start` and `stop` with its `join`. IsTimely sets aside a `start` while a `stop` waits.
use mathlib.Core.Path.{◌≡◌}
use tinkoff_invest_sdkv.Prelude.{Bool, true, false, not, ◌&&◌, ◌||◌, if◌then◌else◌, ◌∷◌}
use tinkoff_invest_sdkv.Streams.{StreamOptions}
use tinkoff_invest_sdkv.Streams.Progress.{
  Progress, absent, top, announced, opening, calling, returned, waiting, is_absent, looks, begin,
  announce, enter, go_to, hear_data, broken, back_off, end, farewell,
}
use tinkoff_invest_sdkv.MarketData.Stream.{
  Status, Call, call, start, stop, disconnect, handle_read_closed, handle_write_done,
  handle_response, handle_done,
}
use tinkoff_invest_sdkv.MarketData.World.{World, idle, run, begun, published}

-- `joining`: a `stop` waits for the thread. `doubled`: a second thread was started beside the first,
-- which is not followed from then on.
pub record Threaded : Type 0 where
  pub world : World
  pub progress : Progress
  pub joining : Bool
  pub doubled : Bool

-- The thread sees whether data came in the stream's own flag.
abbrev pub seen : Threaded → Progress
seen t = record t.progress { heard = t.world.stream.got_data }

-- `start` and the thread that it makes.
unfoldable pub launched : Threaded → Threaded
launched t =
    let (s, spawned) = start t.world.stream in
    record t {
      world = record t.world { stream = s };
      progress = if spawned then begin t.progress else t.progress;
      doubled = t.doubled || spawned && not (is_absent t.progress.place);
    }

-- `stop` up to its `join`.
abbrev pub halted : Threaded → Threaded
halted t = record t {
  world = run t.world (stop t.world.stream);
  joining = t.joining || t.world.stream.worker;
}

-- A handler runs beside the thread.
abbrev pub beside : Threaded → World → Threaded
beside t w = record t { world = w }

-- The thread goes on.
abbrev pub goes : Threaded → World → Progress → Threaded
goes t w p = record t { world = w; progress = p }

pub data Step (o : StreamOptions) : Threaded → Threaded → Type 0 where
  sends : (t : Threaded) (c : Call) → Step o t (beside t (run t.world (call t.world.stream c)))
  starts : (t : Threaded) → Step o t (launched t)
  stops : (t : Threaded) → Step o t (halted t)
  joins :
      (t : Threaded)
      → t.joining ≡ true
      → t.progress.place ≡ absent
      → Step o t (record t { joining = false })
  announces :
      (t : Threaded)
      → t.progress.place ≡ top
      → t.world.stream.stopping ≡ false
      → Step o t (goes t t.world (announce t.progress))
  connects :
      (t : Threaded)
      → t.progress.place ≡ announced
      → t.world.stream.stopping ≡ false
      → Step o t (goes t (begun t.world) (enter opening t.progress))
  refuses :
      (t : Threaded)
      → t.progress.place ≡ announced
      → t.world.stream.stopping ≡ true
      → Step o t (goes t t.world (enter returned t.progress))
  publishes :
      (t : Threaded)
      → t.progress.place ≡ opening
      → Step o t (goes t (published t.world) (go_to calling t.progress))
  write_dones :
      (t : Threaded) (ok : Bool)
      → t.world.writing ≡ true
      → Step o t (
          beside t (run (record t.world { writing = false }) (handle_write_done t.world.stream ok)))
  read_closes :
      (t : Threaded)
      → t.world.active ≡ true
      → Step o t (beside t (run t.world (handle_read_closed t.world.stream)))
  responds :
      (t : Threaded)
      → t.world.active ≡ true
      → Step o t (goes t (run t.world (handle_response t.world.stream)) (hear_data (seen t)))
  finishes :
      (t : Threaded) (status : Status)
      → t.world.active ≡ true
      → t.world.held ≡ false
      → t.world.writing ≡ false
      → Step o t
          (beside t (run (record t.world { active = false }) (handle_done t.world.stream status)))
  disconnects :
      (t : Threaded)
      → t.progress.place ≡ calling
      → t.world.stream.done ≡ true
      → Step o t (
          goes t
            (record t.world { stream = disconnect t.world.stream; phase = idle })
            (go_to returned t.progress))
  breaks :
      (t : Threaded)
      → t.progress.place ≡ returned
      → t.world.stream.stopping ≡ false
      → o.reconnect ≡ true
      → Step o t (goes t t.world (back_off o t.world.stream.status (seen t)))
  gives_up :
      (t : Threaded)
      → t.progress.place ≡ returned
      → t.world.stream.stopping ≡ false
      → o.reconnect ≡ false
      → Step o t (goes t t.world (end (broken t.world.stream.status ∷ farewell) (seen t)))
  retries :
      (t : Threaded)
      → t.progress.place ≡ waiting
      → t.world.stream.stopping ≡ false
      → Step o t (goes t t.world (go_to top t.progress))
  ends :
      (t : Threaded)
      → looks t.progress.place ≡ true
      → t.world.stream.stopping ≡ true
      → Step o t (goes t t.world (end farewell t.progress))

pub data Reach (o : StreamOptions) (v : Threaded) : Threaded → Type 0 where
  here : Reach o v v
  next : {t u : Threaded} → Reach o v t → Step o t u → Reach o v u

-- No `start` comes while a `stop` waits for the thread.
abbrev pub IsTimely : {o : StreamOptions} {t u : Threaded} → Step o t u → Type 0
IsTimely (starts t) = t.joining ≡ false
IsTimely _ = Unit

abbrev pub AllTimely : {o : StreamOptions} {v t : Threaded} → Reach o v t → Type 0
AllTimely here = Unit
AllTimely (next r s) = AllTimely r × IsTimely s
