-- ===== src/MarketData/ThreadSafety.antt =====
-- The thread of src/market_data_stream.cpp in every interleaving: where it is, and who owns it.
use tinkoff_invest_sdkv.Prelude.{
  ◌≡◌, refl, ap, ◌∙◌, arith, ◌⊎◌, Bool, true, false, ◌||◌, List, [], ◌∷◌,
}
use tinkoff_invest_sdkv.Streams.{StreamOptions}
use tinkoff_invest_sdkv.Streams.Progress.{
  absent, top, announced, opening, calling, returned, waiting, is_absent, looks, enter, go_to,
  hear_data, back_off,
}
use tinkoff_invest_sdkv.MarketData.Requests.{MarketDataRequest}
use tinkoff_invest_sdkv.MarketData.Stream.{
  Stream, Status, Effect, start_write, remove_hold, try_cancel, notify_all, notifies, Call, call,
  send, enqueue, maybe_write, start, stop, connect, publish, disconnect, handle_read_closed,
  handle_write_done, handle_response, handle_done,
}
use tinkoff_invest_sdkv.MarketData.World.{
  World, idle, connecting, live, run, perform, begun, published,
}
use tinkoff_invest_sdkv.MarketData.View.{request_of, call-send}
use tinkoff_invest_sdkv.MarketData.Safety.{Inv as WorldInv}
use tinkoff_invest_sdkv.MarketData.Thread.{
  Threaded, seen, launched, halted, beside, goes, IsTimely, Step, sends, starts, stops, joins,
  announces, connects, refuses, publishes, write_dones, read_closes, responds, finishes,
  disconnects, breaks, gives_up, retries, ends,
}

-- Effects change neither the phase nor the stream.
perform_kept :
    (w : World) (es : List Effect)
    → ((perform w es).phase ≡ w.phase) × ((perform w es).stream ≡ w.stream)
unfolding perform
perform_kept w [] = (refl, refl)
perform_kept w (start_write r ∷ es) = perform_kept _ es
perform_kept w (remove_hold ∷ es) = perform_kept _ es
perform_kept w (try_cancel ∷ es) = perform_kept _ es
perform_kept w (notify_all ∷ es) = perform_kept _ es
perform_kept w (notifies s ∷ es) = perform_kept _ es

pub run_kept :
    (w : World) (p : Stream × List Effect) → ((run w p).phase ≡ w.phase) × ((run w p).stream ≡ p.0)
unfolding run
run_kept w (s, es) = perform_kept (record w { stream = s }) es

-- What the thread's loop reads of the stream.
abbrev pub SameFlags : Stream → Stream → Type 0
SameFlags t s = (t.worker ≡ s.worker) × (t.stopping ≡ s.stopping) × (t.got_data ≡ s.got_data)

same_flags : {s t : Stream} (u : Stream) → s ≡ t → SameFlags t u → SameFlags s u
same_flags u e (a, b, c) = (
  ap (λ (s : Stream). s.worker) e ∙ a,
  ap (λ (s : Stream). s.stopping) e ∙ b,
  ap (λ (s : Stream). s.got_data) e ∙ c,
)

-- Where the thread is, the call of its world is.
pub record IsLinked (t : Threaded) : Type 0 where
  pub outside :
      ((t.progress.place ≡ opening)
        × (t.world.phase ≡ connecting)
        × (t.progress.heard ≡ t.world.stream.got_data))
      ⊎ ((t.progress.place ≡ calling)
          × (t.world.phase ≡ live)
          × (t.progress.heard ≡ t.world.stream.got_data))
      ⊎ ((t.progress.place ≡ returned)
          × (t.world.phase ≡ idle)
          × ((t.progress.heard ≡ t.world.stream.got_data) ⊎ (t.world.stream.stopping ≡ true)))
      ⊎ (((t.progress.place ≡ absent)
            ⊎ (t.progress.place ≡ top)
            ⊎ (t.progress.place ≡ announced)
            ⊎ (t.progress.place ≡ waiting))
          × (t.world.phase ≡ idle))

-- There is one thread at most, and its handle is the stream's or a waiting stop's.
pub record Inv (t : Threaded) : Type 0 where
  pub single : t.doubled ≡ false
  pub joining :
      (t.joining ≡ false) ⊎ ((t.world.stream.stopping ≡ true) × (t.world.stream.worker ≡ false))
  pub owned : (t.progress.place ≡ absent) ⊎ (t.world.stream.worker || t.joining ≡ true)
  pub linked : IsLinked t

kept-Inv :
    (t : Threaded) (w : World)
    → w.phase ≡ t.world.phase
    → SameFlags w.stream t.world.stream
    → Inv t
    → Inv (beside t w)
kept-Inv t w p (a, b, c) i = ground arith

-- A handler that keeps the flags, run beside the thread.
run-Inv :
    (t : Threaded) (w : World) (p : Stream × List Effect)
    → w.phase ≡ t.world.phase
    → SameFlags p.0 t.world.stream
    → Inv t
    → Inv (beside t (run w p))
run-Inv t w p e h i =
    let (f, g) = run_kept w p in kept-Inv t (run w p) (f ∙ e) (same_flags t.world.stream g h) i

send_flags :
    (s : Stream) (r : MarketDataRequest) (remember : Bool) → SameFlags (send s r remember).0 s
unfolding send enqueue maybe_write
send_flags s r remember = ground arith

pub call_flags : (s : Stream) (c : Call) → SameFlags (call s c).0 s
call_flags s c =
    same_flags s (ap (λ (p : Stream × List Effect). p.0) (call-send s c))
      (send_flags s (request_of c).0 (request_of c).1)

write_done_flags : (s : Stream) (ok : Bool) → SameFlags (handle_write_done s ok).0 s
unfolding handle_write_done maybe_write handle_read_closed
write_done_flags s true = ground arith
write_done_flags s false = ground arith

read_closed_flags : (s : Stream) → SameFlags (handle_read_closed s).0 s
unfolding handle_read_closed
read_closed_flags s = ground arith

done_flags : (s : Stream) (status : Status) → SameFlags (handle_done s status).0 s
unfolding handle_done
done_flags s status = ground arith

publish_flags : (s : Stream) → SameFlags (publish s).0 s
unfolding publish maybe_write
publish_flags s = ground arith

start-Inv : (t : Threaded) → t.joining ≡ false → Inv t → Inv (launched t)
unfolding launched start is_absent
start-Inv t j i = ground arith

stop_flags :
    (s : Stream)
    → ((stop s).0.worker ≡ false)
      × ((stop s).0.stopping ≡ true)
      × ((stop s).0.got_data ≡ s.got_data)
unfolding stop
stop_flags s = ground arith

stop-Inv : (t : Threaded) → Inv t → Inv (halted t)
unfolding run stop
stop-Inv t i = ground arith

begun-Inv :
    (t : Threaded)
    → t.progress.place ≡ announced
    → Inv t
    → Inv (goes t (begun t.world) (enter opening t.progress))
unfolding connect
begun-Inv t p i = ground arith

called-Inv :
    (t : Threaded) (w : World)
    → t.progress.place ≡ opening
    → w.phase ≡ live
    → SameFlags w.stream t.world.stream
    → Inv t
    → Inv (goes t w (go_to calling t.progress))
called-Inv t w p e (a, b, c) i = ground arith

published-Inv :
    (t : Threaded)
    → t.progress.place ≡ opening
    → Inv t
    → Inv (goes t (published t.world) (go_to calling t.progress))
published-Inv t p i =
    let (f, g) = run_kept (record t.world { phase = live }) (publish t.world.stream) in
    called-Inv t (published t.world) p f
      (same_flags t.world.stream g (publish_flags t.world.stream)) i

-- While a call is active the thread is in it.
respond-Inv :
    (t : Threaded)
    → WorldInv t.world
    → t.world.active ≡ true
    → Inv t
    → Inv (goes t (run t.world (handle_response t.world.stream)) (hear_data (seen t)))
unfolding run handle_response hear_data
respond-Inv t v a i = ground arith

-- The loop goes on between two calls.
back-Inv :
    (t : Threaded)
    → t.progress.place ≡ calling
    → Inv t
    → Inv (
        goes t
          (record t.world { stream = disconnect t.world.stream; phase = idle })
          (go_to returned t.progress))
unfolding disconnect
back-Inv t p i = ground arith

pub Step-Inv :
    {o : StreamOptions} {t u : Threaded}
    → (s : Step o t u) → IsTimely s
    → WorldInv t.world
    → Inv t
    → Inv u
unfolding looks back_off
Step-Inv (sends t c) e v i = run-Inv t t.world _ refl (call_flags t.world.stream c) i
Step-Inv (starts t) j v i = start-Inv t j i
Step-Inv (stops t) e v i = stop-Inv t i
Step-Inv (joins t j p) e v i = ground arith
Step-Inv (announces t p s) e v i = ground arith
Step-Inv (connects t p s) e v i = begun-Inv t p i
Step-Inv (refuses t p s) e v i = ground arith
Step-Inv (publishes t p) e v i = published-Inv t p i
Step-Inv (write_dones t ok h) e v i =
    run-Inv t (record t.world { writing = false }) _ refl (write_done_flags t.world.stream ok) i
Step-Inv (read_closes t a) e v i = run-Inv t t.world _ refl (read_closed_flags t.world.stream) i
Step-Inv (responds t a) e v i = respond-Inv t v a i
Step-Inv (finishes t status a h k) e v i =
    run-Inv t (record t.world { active = false }) _ refl (done_flags t.world.stream status) i
Step-Inv (disconnects t p d) e v i = back-Inv t p i
Step-Inv (breaks t p s c) e v i = ground arith
Step-Inv (gives_up t p s c) e v i = ground arith
Step-Inv (retries t p s) e v i = ground arith
Step-Inv (ends t p s) e v i = ground arith
