-- ===== src/Streams/World.antt =====
-- The stream of include/tinvest/streams/server_stream.hpp beside its thread and its gRPC call: the
-- steps that user threads, the worker in its loop `run` and the callbacks of the reactor make, in any
-- order that gRPC allows. IsTimely sets aside a `start` while a `stop` waits.
use tinkoff_invest_sdkv.Prelude.{
  ◌≡◌, ℕ, Bool, true, false, not, ◌||◌, if◌then◌else◌, List, [], ◌∷◌, none,
}
use tinkoff_invest_sdkv.Error.{Status}
use tinkoff_invest_sdkv.Streams.{StreamOptions, Notice}
use tinkoff_invest_sdkv.Streams.Progress.{
  Progress, Place, absent, top, announced, opening, calling, returned, waiting, is_absent, looks,
  begin, announce, enter, go_to, hear_data, broken, back_off, end, farewell,
}
use tinkoff_invest_sdkv.Streams.Server.{
  ServerStream, ServerEffect, tries_cancel, wakes_all, start, stop, begin_call, handle_done,
  end_call, handle_data,
}

unfoldable pub has_context : Place → Bool
has_context absent = false
has_context top = false
has_context announced = false
has_context opening = true
has_context calling = true
has_context returned = false
has_context waiting = false

unfoldable pub is_calling : Place → Bool
is_calling absent = false
is_calling top = false
is_calling announced = false
is_calling opening = false
is_calling calling = true
is_calling returned = false
is_calling waiting = false

-- `active`: the call has begun and `OnDone` has not come. `cancelled`: `TryCancel` was called on its
-- context. `joining`: a `stop` waits for the thread. `misuse`: a second thread was started beside the
-- first, which is not followed from then on, or a context or a reactor was used that `run_once` does not hold.
pub record World : Type 0 where
  pub stream : ServerStream
  pub place : Place
  pub attempt : ℕ
  pub log : List Notice
  pub active : Bool
  pub cancelled : Bool
  pub joining : Bool
  pub misuse : Bool

-- How far the thread is.
abbrev pub progress : World → Progress
progress w = record { place = w.place; attempt = w.attempt; log = w.log; heard = w.stream.got_data }

-- The thread goes on, and the stream becomes another.
abbrev pub go_on : Progress → ServerStream → World → World
go_on p s w = record w { stream = s; place = p.place; attempt = p.attempt; log = p.log }

unfoldable pub perform : World → List ServerEffect → World
perform w [] = w
perform w (tries_cancel ∷ es) =
    perform (record w { misuse = w.misuse || not (has_context w.place); cancelled = true }) es
perform w (wakes_all ∷ es) = perform w es

-- `start` and the thread that it makes.
unfoldable pub started : World → World
started w =
    let (s, spawned) = start w.stream in
    if spawned
    then record (go_on (begin (progress w)) s w) { misuse = w.misuse || not (is_absent w.place) }
    else record w { stream = s }

-- `stop` up to its `join`.
unfoldable pub halted : World → World
halted w =
    let (s, es) = stop w.stream in
    perform (record w { stream = s; joining = w.joining || w.stream.worker }) es

abbrev pub heralded : World → World
heralded w = go_on (announce (progress w)) w.stream w

-- The critical section of `run_once`, for a new context.
abbrev pub opened : World → World
opened w = record (go_on (enter opening (progress w)) (begin_call w.stream).0 w) {
  cancelled = false;
}

-- `run_once` finds `stopping_` there and returns at once.
abbrev pub refused : World → World
refused w = go_on (enter returned (progress w)) (begin_call w.stream).0 w

abbrev pub called : World → World
called w = record (go_on (go_to calling (progress w)) w.stream w) { active = true }

-- `OnReadDone` with a message, whatever it is.
unfoldable pub received : World → World
received w = record (go_on (hear_data (progress w)) (handle_data {0} none w.stream tt).0 w) {
  misuse = w.misuse || not (is_calling w.place);
}

unfoldable pub finished : World → Status → World
finished w status = record w {
  stream = (handle_done w.stream status).0;
  active = false;
  misuse = w.misuse || not (is_calling w.place);
}

abbrev pub closed : World → World
closed w = go_on (go_to returned (progress w)) (end_call w.stream).0 w

-- The end of a round, up to the wait, and the round after it.
abbrev pub backed_off : StreamOptions → World → World
backed_off o w = go_on (back_off o w.stream.status (progress w)) w.stream w

abbrev pub retried : World → World
retried w = go_on (go_to top (progress w)) w.stream w

abbrev pub ended : List Notice → World → World
ended ns w = go_on (end ns (progress w)) w.stream w

pub data Step (o : StreamOptions) : World → World → Type 0 where
  starts : (w : World) → Step o w (started w)
  stops : (w : World) → Step o w (halted w)
  joins :
      (w : World) → w.joining ≡ true → w.place ≡ absent → Step o w (record w { joining = false })
  announces : (w : World) → w.place ≡ top → w.stream.stopping ≡ false → Step o w (heralded w)
  opens : (w : World) → w.place ≡ announced → w.stream.stopping ≡ false → Step o w (opened w)
  refuses : (w : World) → w.place ≡ announced → w.stream.stopping ≡ true → Step o w (refused w)
  calls : (w : World) → w.place ≡ opening → Step o w (called w)
  receives : (w : World) → w.active ≡ true → Step o w (received w)
  finishes : (w : World) (status : Status) → w.active ≡ true → Step o w (finished w status)
  closes : (w : World) → w.place ≡ calling → w.stream.done ≡ true → Step o w (closed w)
  breaks :
      (w : World)
      → w.place ≡ returned
      → w.stream.stopping ≡ false
      → o.reconnect ≡ true
      → Step o w (backed_off o w)
  gives_up :
      (w : World)
      → w.place ≡ returned
      → w.stream.stopping ≡ false
      → o.reconnect ≡ false
      → Step o w (ended (broken w.stream.status ∷ farewell) w)
  retries : (w : World) → w.place ≡ waiting → w.stream.stopping ≡ false → Step o w (retried w)
  ends : (w : World) → looks w.place ≡ true → w.stream.stopping ≡ true → Step o w (ended farewell w)

pub data Reach (o : StreamOptions) (v : World) : World → Type 0 where
  here : Reach o v v
  next : {w u : World} → Reach o v w → Step o w u → Reach o v u

-- No `start` comes while a `stop` waits for the thread.
abbrev pub IsTimely : {o : StreamOptions} {w u : World} → Step o w u → Type 0
IsTimely (starts w) = w.joining ≡ false
IsTimely _ = Unit

abbrev pub AllTimely : {o : StreamOptions} {v w : World} → Reach o v w → Type 0
AllTimely here = Unit
AllTimely (next r s) = AllTimely r × IsTimely s
