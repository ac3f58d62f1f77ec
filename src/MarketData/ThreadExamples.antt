-- ===== src/MarketData/ThreadExamples.antt =====
-- A run of the stream of src/market_data_stream.cpp with its thread on one subscription.
use tinkoff_invest_sdkv.Prelude.{◌≡◌, ◌≤◌, refl, arith, ◌⊎◌, true, false, [], ◌∷◌, none, Bytes}
use tinkoff_invest_sdkv.Streams.{notified, connecting, connected, default_options}
use tinkoff_invest_sdkv.Streams.Progress.{
  is_absent, absent, opening, calling, announce, enter, go_to, hear_data,
}
use tinkoff_invest_sdkv.Streams.Moves.{IsTold, IsOrderly}
use tinkoff_invest_sdkv.MarketData.Requests.{
  subscribe_trades, keys_of, plain_key, action_of, single,
}
use tinkoff_invest_sdkv.MarketData.Stream.{
  Call, call, unsubscribes_trades, Stream, start, stop, connect, publish, maybe_write,
  handle_response, handle_write_done,
}
use tinkoff_invest_sdkv.MarketData.World.{idle, run, begun, published}
use tinkoff_invest_sdkv.MarketData.Thread.{
  Threaded, seen, launched, halted, beside, goes, starts, stops, announces, connects, publishes,
  AllTimely, responds, write_dones, Reach, here, next,
}
use tinkoff_invest_sdkv.MarketData.ThreadRefines.{
  TimelyReach, IsAtRest, Reach-single, Reach-IsTold, Reach-IsOrderly,
}
use tinkoff_invest_sdkv.MarketData.Registry.{IsRegistry}
use tinkoff_invest_sdkv.MarketData.Users.{Session, makes, lets, is_internal, Reads, Session-Reads}
use tinkoff_invest_sdkv.MarketData.ThreadStopping.{remaining, Nearer, Reach-stop_ends}

abbrev share : Bytes
share = b'S' ∷ []

-- A user has subscribed to the trades of the share, and there is no thread.
abbrev unstarted_stream : Stream
unstarted_stream = record {
  worker = false;
  stopping = false;
  done = true;
  got_data = false;
  broken = true;
  hold_released = true;
  status = record { code = 0; message = [] };
  ctx = false;
  reactor = false;
  write_queue = [];
  write_in_flight = false;
  subscriptions =
      (b't' ∷ b'r' ∷ b'a' ∷ b'd' ∷ b'e' ∷ b's' ∷ b'|' ∷ share, subscribe_trades (share ∷ []) true)
      ∷ [];
}

abbrev unstarted : Threaded
unstarted = record {
  world = record {
    stream = unstarted_stream;
    phase = idle;
    active = false;
    held = false;
    writing = false;
    misuse = false;
    sent = [];
  };
  progress = record { place = absent; attempt = 0; log = []; heard = false };
  joining = false;
  doubled = false;
}

unstarted-IsAtRest : IsAtRest unstarted
unstarted-IsAtRest = record {
  world = record { phase = refl; reactor = refl; active = refl; writing = refl };
  clean = refl;
  place = refl;
  log = refl;
  joining = refl;
  doubled = refl;
}

abbrev begins : Threaded
begins = launched unstarted

abbrev announced_once : Threaded
announced_once = goes begins begins.world (announce begins.progress)

abbrev set_up : Threaded
set_up = goes announced_once (begun announced_once.world) (enter opening announced_once.progress)

-- The call runs, and its subscription is being written.
abbrev writes_one : Threaded
writes_one = goes set_up (published set_up.world) (go_to calling set_up.progress)

-- A message comes, and a user stops the stream then.
abbrev heard : Threaded
heard =
    goes writes_one (run writes_one.world (handle_response writes_one.world.stream))
      (hear_data (seen writes_one))

reaches_joining : Reach default_options unstarted (halted heard)
unfolding launched start connect publish run maybe_write
reaches_joining =
    next
      (next
        (next
          (next (next (next here (starts unstarted)) (announces begins refl refl))
            (connects announced_once refl refl))
          (publishes set_up refl))
        (responds writes_one refl))
      (stops heard)

timely : AllTimely reaches_joining
unfolding reaches_joining
timely = ((((((tt, refl), tt), tt), tt), tt), tt)

Reach-single_example :
    ((halted heard).doubled ≡ false)
    × ((halted heard).world.misuse ≡ false)
    × TimelyReach unstarted.world (halted heard).world
Reach-single_example =
    Reach-single default_options unstarted (halted heard) unstarted-IsAtRest reaches_joining timely

Reach-IsTold_example : IsTold default_options (halted heard).progress
Reach-IsTold_example =
    Reach-IsTold default_options unstarted (halted heard) unstarted-IsAtRest reaches_joining timely

Reach-IsOrderly_example : IsOrderly 100 30_000 (halted heard).progress
Reach-IsOrderly_example =
    Reach-IsOrderly default_options 100 30_000 unstarted (halted heard) refl refl (omega arith)
      unstarted-IsAtRest reaches_joining timely

-- The write fails after the stop.
abbrev unwritten : Threaded
unwritten = beside (halted heard) (
    run (record (halted heard).world { writing = false })
      (handle_write_done (halted heard).world.stream false))

Reach-stop_ends_example :
    (((halted heard).progress.place ≡ opening)
      ⊎ ((halted heard).world.active ≡ false)
      ⊎ ((halted heard).world.held ≡ false))
    × (((halted heard).progress.place ≡ absent) ⊎ Nearer default_options (halted heard))
    × (remaining (halted heard) ≤ 5)
    × (remaining unwritten ≤ remaining (halted heard))
unfolding launched start connect publish run maybe_write handle_response stop
Reach-stop_ends_example =
    Reach-stop_ends default_options unstarted (halted heard) unwritten unstarted-IsAtRest
      reaches_joining timely refl (write_dones (halted heard) false refl) tt

-- What the user has heard by then, and what is left.
heard_run : (halted heard).progress.log ≡ notified connecting none ∷ notified connected none ∷ []
unfolding launched start connect publish run maybe_write handle_response stop hear_data
heard_run = refl

-- A `start` while the `stop` waits makes a second thread beside the first.
second_thread_run : (launched (halted heard)).doubled ≡ true
unfolding launched start connect publish run maybe_write handle_response stop hear_data is_absent
second_thread_run = refl

unstarted-IsRegistry : IsRegistry unstarted_stream.subscriptions
unfolding keys_of subscribe_trades plain_key action_of single
unstarted-IsRegistry = record {
  sorted = (tt, tt);
  entries = (record { key = refl; subscribes = refl; alone = refl }, tt);
}

-- The user starts the stream, the thread notifies `connecting`, and the user cancels the subscription.
abbrev cancels : Call
cancels = unsubscribes_trades (share ∷ [])

cancelling :
    Session default_options unstarted
      (cancels ∷ [])
      (beside announced_once (run announced_once.world (call announced_once.world.stream cancels)))
unfolding launched start is_internal
cancelling = makes (lets Session.begins (announces begins refl refl) refl) cancels

Session-Reads_example :
    Reads unstarted_stream.subscriptions
      (cancels ∷ [])
      (run announced_once.world (call announced_once.world.stream cancels)).stream
Session-Reads_example =
    Session-Reads default_options unstarted _ (cancels ∷ []) refl unstarted-IsRegistry cancelling
