-- ===== src/Streams/Examples.antt =====
-- Runs of the reconnection loop and of the handlers of include/tinvest/streams/server_stream.hpp.
use Server.{handle_done, start, stop}
use tinkoff_invest_sdkv.Prelude.Word.{to_i64}
use tinkoff_invest_sdkv.Prelude.{none, ◌≡◌, ◌≤◌, ◌⊎◌, refl, arith, true, false, List, [], ◌∷◌}
use tinkoff_invest_sdkv.Prelude.Int.{pos, ◌*ℤ◌}
use tinkoff_invest_sdkv.Error.{Status}
use tinkoff_invest_sdkv.Streams.{default_options, Round, run_stream, delay, opening, run_loop}
use tinkoff_invest_sdkv.Streams.Backoff.{waits_of}
use tinkoff_invest_sdkv.Streams.Server
use tinkoff_invest_sdkv.Streams.Server.{
  ServerStream, Delivery, hears_connected, delivers, begin_call, receive_all, payload,
  receive_all_lem, end_call,
}
use tinkoff_invest_sdkv.Streams.Progress.{absent, is_absent, hear_data}
use tinkoff_invest_sdkv.Streams.Moves.{IsTold, IsOrderly}
use tinkoff_invest_sdkv.Streams.World.{
  World, progress, started, halted, heralded, opened, called, received, finished, perform,
  AllTimely, Reach, here, next, starts, announces, opens, calls, receives, stops, finishes,
}
use tinkoff_invest_sdkv.Streams.Refines.{Reach-run_stream, Reach-notices}
use tinkoff_invest_sdkv.Streams.Server.{handle_data, pass}
use tinkoff_invest_sdkv.Streams.{notified, connecting, connected}
use tinkoff_invest_sdkv.Streams.Safety.{Reach-started, IsAbsent, Reach-clean}
use tinkoff_invest_sdkv.Streams.Stopping.{Nearer, remaining, stop_ends}

abbrev unreachable : Status
unreachable = record { code = 14; message = [] }

abbrev failed_round : Round
failed_round = record {
  stopping_first = false;
  got_data = false;
  status = unreachable;
  stopping_then = false;
  stopping_last = false;
}

-- Two failures, a call that brought data and broke, and a stop in the next call.
abbrev four_rounds : List Round
four_rounds =
    failed_round
    ∷ failed_round
    ∷ record failed_round { got_data = true }
    ∷ record failed_round { stopping_then = true }
    ∷ []

waits_run : waits_of (run_stream default_options four_rounds).0 ≡ pos 100 ∷ pos 200 ∷ pos 100 ∷ []
unfolding waits_of run_stream run_loop opening delay to_i64 ◌*ℤ◌
waits_run = refl

abbrev new_stream : ServerStream
new_stream = record {
  worker = false;
  stopping = false;
  done = false;
  got_data = false;
  status = record { code = 0; message = [] };
  ctx = false;
}

start_run : (Server.start new_stream).1 ≡ true
unfolding start
start_run = refl

stop_run : (Server.stop (begin_call new_stream).0).1 ≡ Server.tries_cancel ∷ Server.wakes_all ∷ []
unfolding stop begin_call
stop_run = refl

end_run : (end_call (Server.handle_done (begin_call new_stream).0 unreachable).0).1 ≡ unreachable
unfolding end_call handle_done
end_run = refl

abbrev unstarted : World
unstarted = record {
  stream = new_stream;
  place = absent;
  attempt = 0;
  log = [];
  active = false;
  cancelled = false;
  joining = false;
  misuse = false;
}

unstarted-IsAbsent : IsAbsent unstarted
unstarted-IsAbsent = record { place = refl; ctx = refl; active = refl }

-- The call runs.
abbrev call_runs : World
call_runs = called (opened (heralded (started unstarted)))

reaches_call : Reach default_options unstarted call_runs
unfolding started start
reaches_call =
    next
      (next (next (next here (starts unstarted)) (announces (started unstarted) refl refl))
        (opens (heralded (started unstarted)) refl refl))
      (calls (opened (heralded (started unstarted))) refl)

-- A message comes, and a user stops the stream then.
abbrev heard : World
heard = received call_runs

reaches_joining : Reach default_options unstarted (halted heard)
reaches_joining = next (next reaches_call (receives call_runs refl)) (stops heard)

timely : AllTimely reaches_joining
unfolding reaches_joining reaches_call
timely = ((((((tt, refl), tt), tt), tt), tt), tt)

Reach-clean_example : (halted heard).misuse ≡ false
Reach-clean_example =
    Reach-clean default_options unstarted (halted heard) unstarted-IsAbsent refl refl
      reaches_joining timely

abbrev done_after : World
done_after = finished (halted heard) unreachable

stop_ends_example :
    (((halted heard).active ≡ false) ⊎ ((halted heard).cancelled ≡ true))
    × (((halted heard).place ≡ absent) ⊎ Nearer default_options (halted heard))
    × (remaining (halted heard) ≤ 4)
    × (remaining done_after ≤ remaining (halted heard))
unfolding started start halted stop perform begin_call received handle_data hear_data
stop_ends_example =
    stop_ends default_options unstarted (halted heard) done_after unstarted-IsAbsent refl refl
      reaches_joining timely refl (finishes (halted heard) unreachable refl) tt

Reach-run_stream_example : IsTold default_options (progress (halted heard))
Reach-run_stream_example =
    Reach-run_stream default_options unstarted (halted heard) unstarted-IsAbsent refl refl refl
      reaches_joining timely

Reach-notices_example : IsOrderly 100 30_000 (progress (halted heard))
Reach-notices_example =
    Reach-notices default_options 100 30_000 unstarted (halted heard) refl refl (omega arith)
      unstarted-IsAbsent refl refl refl reaches_joining timely

-- What the user has heard by then.
heard_run : (halted heard).log ≡ notified connecting none ∷ notified connected none ∷ []
unfolding started start halted stop perform begin_call received handle_data hear_data
heard_run = refl

Reach-started_example :
    ((started (halted heard)).misuse ≡ true) × ((started (halted heard)).stream.stopping ≡ false)
unfolding started start halted stop perform begin_call received handle_data hear_data is_absent
Reach-started_example =
    Reach-started default_options unstarted (halted heard) unstarted-IsAbsent refl refl
      reaches_joining timely refl refl
