-- ===== src/Streams/Safety.antt =====
-- The stream of include/tinvest/streams/server_stream.hpp in every interleaving with its thread and
-- its call.
use tinkoff_invest_sdkv.Prelude.{◌≡◌, arith, ◌⊎◌, inl, true, false, not, ◌||◌, List, ◌∷◌}
use tinkoff_invest_sdkv.Error.{Status}
use tinkoff_invest_sdkv.Streams.{StreamOptions, Notice}
use tinkoff_invest_sdkv.Streams.Server.{start, stop, begin_call, handle_done, handle_data, end_call}
use tinkoff_invest_sdkv.Streams.Progress.{
  absent, top, announced, opening, calling, returned, waiting, is_absent, looks, hear_data,
  back_off, broken, farewell,
}
use tinkoff_invest_sdkv.Streams.World.{
  IsTimely, AllTimely, World, has_context, is_calling, perform, started, halted, opened, refused,
  received, finished, ended, Step, starts, stops, joins, announces, opens, refuses, calls, receives,
  finishes, closes, breaks, gives_up, retries, ends, Reach, here, next,
}

-- There is no thread.
pub record IsAbsent (w : World) : Type 0 where
  pub place : w.place ≡ absent
  pub ctx : w.stream.ctx ≡ false
  pub active : w.active ≡ false

-- The thread is outside a call.
pub record IsOutside (w : World) : Type 0 where
  pub place : (w.place ≡ top) ⊎ (w.place ≡ announced) ⊎ (w.place ≡ returned) ⊎ (w.place ≡ waiting)
  pub ctx : w.stream.ctx ≡ false
  pub active : w.active ≡ false
  pub owned : w.stream.worker || w.joining ≡ true

-- The context is published; a stop has cancelled it.
pub record IsOpening (w : World) : Type 0 where
  pub place : w.place ≡ opening
  pub ctx : w.stream.ctx ≡ true
  pub active : w.active ≡ false
  pub done : w.stream.done ≡ false
  pub owned : w.stream.worker || w.joining ≡ true
  pub stopping : (w.stream.stopping ≡ false) ⊎ (w.cancelled ≡ true)

-- The call runs until `done_` says that it is over.
pub record IsCalling (w : World) : Type 0 where
  pub place : w.place ≡ calling
  pub ctx : w.stream.ctx ≡ true
  pub active : w.active ≡ not w.stream.done
  pub owned : w.stream.worker || w.joining ≡ true
  pub stopping : (w.stream.stopping ≡ false) ⊎ (w.cancelled ≡ true)

-- A stop that waits keeps the flag set, and has taken the thread's handle.
pub record Inv (w : World) : Type 0 where
  pub clean : w.misuse ≡ false
  pub joining : (w.joining ≡ false) ⊎ ((w.stream.stopping ≡ true) × (w.stream.worker ≡ false))
  pub place : IsAbsent w ⊎ IsOutside w ⊎ IsOpening w ⊎ IsCalling w

start-Inv : (w : World) → Inv w → w.joining ≡ false → Inv (started w)
unfolding started start is_absent
start-Inv w v j = ground arith

stop-Inv : (w : World) → Inv w → Inv (halted w)
unfolding halted stop perform has_context
stop-Inv w v = ground arith

open-Inv : (w : World) → Inv w → w.place ≡ announced → w.stream.stopping ≡ false → Inv (opened w)
unfolding begin_call
open-Inv w v p s = ground arith

refuse-Inv : (w : World) → Inv w → w.place ≡ announced → w.stream.stopping ≡ true → Inv (refused w)
unfolding begin_call
refuse-Inv w v p s = ground arith

receive-Inv : (w : World) → Inv w → w.active ≡ true → Inv (received w)
unfolding received handle_data hear_data is_calling
receive-Inv w v a = ground arith

finish-Inv : (w : World) (status : Status) → Inv w → w.active ≡ true → Inv (finished w status)
unfolding finished handle_done is_calling
finish-Inv w status v a = ground arith

-- The end of the loop.
end-Inv :
    (w : World) (ns : List Notice)
    → Inv w
    → (w.place ≡ top) ⊎ (w.place ≡ returned) ⊎ (w.place ≡ waiting)
    → Inv (ended ns w)
end-Inv w ns v p = ground arith

-- Every step keeps the invariant.
pub Step-Inv : {o : StreamOptions} {w u : World} (s : Step o w u) → IsTimely s → Inv w → Inv u
unfolding end_call back_off looks
Step-Inv (starts w) j v = start-Inv w v j
Step-Inv (stops w) t v = stop-Inv w v
Step-Inv (joins w j p) t v = ground arith
Step-Inv (announces w p s) t v = ground arith
Step-Inv (opens w p s) t v = open-Inv w v p s
Step-Inv (refuses w p s) t v = refuse-Inv w v p s
Step-Inv (calls w p) t v = ground arith
Step-Inv (receives w a) t v = receive-Inv w v a
Step-Inv (finishes w status a) t v = finish-Inv w status v a
Step-Inv (closes w p d) t v = ground arith
Step-Inv (breaks w p s r) t v = ground arith
Step-Inv (gives_up w p s r) t v = end-Inv w (broken w.stream.status ∷ farewell) v (ground arith)
Step-Inv (retries w p s) t v = ground arith
Step-Inv (ends w p s) t v = end-Inv w farewell v (ground arith)

pub Reach-Inv : {o : StreamOptions} {v w : World} (r : Reach o v w) → AllTimely r → Inv v → Inv w
Reach-Inv here a i = i
Reach-Inv (next r s) (a, t) i = Step-Inv s t (Reach-Inv r a i)

-- From a stream without a thread no interleaving in which no `start` comes while a `stop` waits for the
-- thread misuses what `run_once` owns: there is at most one thread, `TryCancel` is called only on the
-- context of a `run_once` that has not returned, and no callback comes to a reactor that is gone.
pub Reach-clean :
    (o : StreamOptions) (v w : World)
    → IsAbsent v
    → v.joining ≡ false
    → v.misuse ≡ false
    → (r : Reach o v w) → AllTimely r
    → w.misuse ≡ false
Reach-clean o v w a j m r t =
    (Reach-Inv r t (record { clean = m; joining = inl j; place = inl a })).clean

-- A `start` that comes while a `stop` waits for a thread that has not ended makes a second thread beside
-- it and clears `stopping_`, from a stream without a thread in any interleaving that is timely till then.
pub Reach-started :
    (o : StreamOptions) (v w : World)
    → IsAbsent v
    → v.joining ≡ false
    → v.misuse ≡ false
    → (r : Reach o v w) → AllTimely r
    → w.joining ≡ true
    → is_absent w.place ≡ false
    → ((started w).misuse ≡ true) × ((started w).stream.stopping ≡ false)
unfolding started start
Reach-started o v w a j m r t k p =
    let i = Reach-Inv r t (record { clean = m; joining = inl j; place = inl a }) in
    ground (arith, k, p)
