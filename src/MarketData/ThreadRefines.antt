-- ===== src/MarketData/ThreadRefines.antt =====
-- Every interleaving of src/market_data_stream.cpp with its thread: the call of its world keeps to World,
-- and what the thread notifies refines the loop `run_stream`.
use tinkoff_invest_sdkv.Prelude.{
  ◌≡◌, ℕ, ◌*◌, ◌<◌, refl, sym, subst, arith, ◌⊎◌, inl, inr, true, false, [], ◌∷◌, Bool-cases,
}
use tinkoff_invest_sdkv.Prelude.Int.{pos}
use tinkoff_invest_sdkv.Prelude.Word.{i64_half}
use tinkoff_invest_sdkv.Streams.{StreamOptions}
use tinkoff_invest_sdkv.Streams.Progress.{
  absent, opening, calling, returned, Move, hear_data, back_off, end, broken, farewell,
}
use tinkoff_invest_sdkv.Streams.Trace.{Trace}
use tinkoff_invest_sdkv.Streams.Moves.{
  Move-Trace, IsTold, Trace-IsTold, IsOrderly, IsTold-IsOrderly,
}
use tinkoff_invest_sdkv.MarketData.Stream.{start}
use tinkoff_invest_sdkv.MarketData.World.{
  World, idle, IsTimely as WorldIsTimely, AllTimely as WorldAllTimely, Step as WorldStep,
  Reach as WorldReach,
}
use tinkoff_invest_sdkv.MarketData.Safety.{IsIdle, Inv as WorldInv, Reach-Inv as Reach-WorldInv}
use tinkoff_invest_sdkv.MarketData.Thread.{
  IsTimely, AllTimely, Threaded, launched, Step, sends, starts, stops, joins, announces, connects,
  refuses, publishes, write_dones, read_closes, responds, finishes, disconnects, breaks, gives_up,
  retries, ends, Reach, here, next,
}
use tinkoff_invest_sdkv.MarketData.ThreadSafety.{Inv, Step-Inv}

-- How the world came where it is, each new worker in time.
abbrev pub TimelyReach : World → World → Type 0
TimelyReach v w = (r : WorldReach v w) × WorldAllTimely r

extended :
    {v w u : World} → TimelyReach v w → (s : WorldStep w u) → WorldIsTimely s → TimelyReach v u
extended (r, a) s e = (WorldReach.next r s, (a, e))

module _ (o : StreamOptions) where
  module _ (v : World) where
    unowned_idle :
        (t : Threaded)
        → t.world.stream.worker ≡ false
        → t.joining ≡ false
        → Inv t
        → t.world.phase ≡ idle
    unowned_idle t e j i = ground arith

    launched-WorldReach :
        (t : Threaded)
        → t.joining ≡ false
        → Inv t
        → TimelyReach v t.world
        → TimelyReach v (launched t).world
    unfolding launched
    launched-WorldReach t j i (r, a) = (
      WorldReach.next r (WorldStep.starts t.world),
      (
        a,
        elim (Bool-cases t.world.stream.worker) [
          | inl e ↦ inl e
          | inr e ↦ inr (unowned_idle t e j i)
        ],
      ),
    )

    Step-WorldReach :
        {t u : Threaded} (s : Step o t u)
        → IsTimely s
        → Inv t
        → TimelyReach v t.world
        → TimelyReach v u.world
    Step-WorldReach (sends t c) e i r = extended r (WorldStep.calls t.world c) tt
    Step-WorldReach (starts t) j i r = launched-WorldReach t j i r
    Step-WorldReach (stops t) e i r = extended r (WorldStep.stops t.world) tt
    Step-WorldReach (joins t j p) e i r = r
    Step-WorldReach (announces t p s) e i r = r
    Step-WorldReach (connects t p s) e i r =
        extended r (WorldStep.connects t.world (ground arith) s) tt
    Step-WorldReach (refuses t p s) e i r = r
    Step-WorldReach (publishes t p) e i r =
        extended r (WorldStep.publishes t.world (ground arith)) tt
    Step-WorldReach (write_dones t ok h) e i r = extended r (WorldStep.write_dones t.world ok h) tt
    Step-WorldReach (read_closes t a) e i r = extended r (WorldStep.read_closes t.world a) tt
    Step-WorldReach (responds t a) e i r = extended r (WorldStep.responds t.world a) tt
    Step-WorldReach (finishes t status a h k) e i r =
        extended r (WorldStep.finishes t.world status a h k) tt
    Step-WorldReach (disconnects t p d) e i r =
        extended r (WorldStep.disconnects t.world (ground arith) d) tt
    Step-WorldReach (breaks t p s c) e i r = r
    Step-WorldReach (gives_up t p s c) e i r = r
    Step-WorldReach (retries t p s) e i r = r
    Step-WorldReach (ends t p s) e i r = r

    -- The calls of the thread's world are those of a world that keeps the rules of gRPC.
    pub Reach-WorldReach :
        {t u : Threaded} (q : Reach o t u)
        → AllTimely q
        → WorldInv v
        → TimelyReach v t.world
        → Inv t
        → TimelyReach v u.world × WorldInv u.world × Inv u
    Reach-WorldReach here b w (r, a) i = ((r, a), Reach-WorldInv r a w, i)
    Reach-WorldReach (next q s) (b, e) w r i =
        let (a, k, j) = Reach-WorldReach q b w r i in
        let (z, y) = Step-WorldReach s e j a in ((z, y), Reach-WorldInv z y w, Step-Inv s e k j)

  start-Move : (t : Threaded) → Move o t.progress (launched t).progress
  unfolding launched start
  start-Move t = elim (Bool-cases t.world.stream.worker) [
    | inl e ↦ rw e (Move.rests _)
    | inr e ↦ rw e (Move.begins _)
  ]

  -- In a call the thread has heard what the stream's flag says.
  in_call :
      (t : Threaded)
      → WorldInv t.world
      → Inv t
      → t.world.active ≡ true
      → ((t.progress.place ≡ opening) ⊎ (t.progress.place ≡ calling))
        × (t.world.stream.got_data ≡ t.progress.heard)
  in_call t v i a = ground arith

  -- Back from a call that was not refused.
  after_call :
      (t : Threaded)
      → Inv t
      → t.progress.place ≡ returned
      → t.world.stream.stopping ≡ false
      → t.world.stream.got_data ≡ t.progress.heard
  after_call t i p s = ground arith

  -- Each step is a move of the loop, or none.
  Step-Move :
      {t u : Threaded} → Step o t u → WorldInv t.world → Inv t → Move o t.progress u.progress
  Step-Move (sends t c) v i = Move.rests _
  Step-Move (starts t) v i = start-Move t
  Step-Move (stops t) v i = Move.rests _
  Step-Move (joins t j p) v i = Move.rests _
  Step-Move (announces t p s) v i = Move.announces _ p
  Step-Move (connects t p s) v i = Move.enters _ opening p (inl refl)
  Step-Move (refuses t p s) v i = Move.enters _ returned p (inr refl)
  Step-Move (publishes t p) v i = Move.calls _ p
  Step-Move (write_dones t ok h) v i = Move.rests _
  Step-Move (read_closes t a) v i = Move.rests _
  Step-Move (responds t a) v i =
      let (p, e) = in_call t v i a in
      subst (λ h. Move o t.progress (hear_data (record t.progress { heard = h }))) (sym e)
        (Move.hears t.progress p)
  Step-Move (finishes t status a h k) v i = Move.rests _
  Step-Move (disconnects t p d) v i = Move.closes _ p
  Step-Move (breaks t p s c) v i =
      subst
        (λ h.
          Move o t.progress (back_off o t.world.stream.status (record t.progress { heard = h })))
        (sym (after_call t i p s)) (Move.breaks t.progress t.world.stream.status p c)
  Step-Move (gives_up t p s c) v i =
      subst
        (λ h.
          Move o t.progress
            (end (broken t.world.stream.status ∷ farewell) (record t.progress { heard = h })))
        (sym (after_call t i p s)) (Move.gives_up t.progress t.world.stream.status p c)
  Step-Move (retries t p s) v i = Move.retries _ p
  Step-Move (ends t p s) v i = Move.ends _ p

  Reach-Trace :
      {v t : Threaded} (q : Reach o v t)
      → AllTimely q
      → WorldInv v.world
      → Inv v
      → Trace o v.progress
      → Trace o t.progress
  Reach-Trace here b w i t = t
  Reach-Trace (next q s) (b, e) w i t =
      let (a, k, j) = Reach-WorldReach _ q b w (WorldReach.here, tt) i in
      Move-Trace o (Step-Move s k j) (Reach-Trace q b w i t)

-- Nothing runs: no thread, no call, and no rule of gRPC is broken.
pub record IsAtRest (v : Threaded) : Type 0 where
  pub world : IsIdle v.world
  pub clean : v.world.misuse ≡ false
  pub place : v.progress.place ≡ absent
  pub log : v.progress.log ≡ []
  pub joining : v.joining ≡ false
  pub doubled : v.doubled ≡ false

pub rest-WorldInv : (v : Threaded) → IsAtRest v → WorldInv v.world
rest-WorldInv v r = record { clean = r.clean; place = inl r.world }

pub rest-Inv : (v : Threaded) → IsAtRest v → Inv v
rest-Inv v r =
    let phase : v.world.phase ≡ idle = r.world.phase in
    let place : v.progress.place ≡ absent = r.place in
    record {
      single = r.doubled;
      joining = inl r.joining;
      owned = inl place;
      linked = record { outside = inr (inr (inr (inl place, phase))) };
    }

-- From a stream at rest, whatever users, the worker and gRPC do, in any order in which no `start` comes
-- while a `stop` waits for the thread: no second thread is started beside the first, no rule of gRPC is
-- broken, and the stream and its call have come where they are by steps of `World`, in which a `start`
-- that makes a worker comes only while the last one is outside of `run_once`.
pub Reach-single :
    (o : StreamOptions) (v t : Threaded)
    → IsAtRest v
    → (q : Reach o v t) → AllTimely q
    → (t.doubled ≡ false) × (t.world.misuse ≡ false) × TimelyReach v.world t.world
Reach-single o v t r q b =
    let w = rest-WorldInv v r in
    let (a, k, i) = Reach-WorldReach o v.world q b w (WorldReach.here, tt) (rest-Inv v r) in
    (i.single, k.clean, a)

-- Every interleaving in which no `start` comes while a `stop` waits for the thread refines the loop. From
-- a stream at rest, whatever else users, the worker and gRPC do, in any order: as long as no thread was
-- started nothing is notified; else there are rounds on which `run_stream` ends with exactly what the
-- current or last thread has notified and waited for, followed by `stopped` if it has not ended yet.
pub Reach-IsTold :
    (o : StreamOptions) (v t : Threaded)
    → IsAtRest v
    → (q : Reach o v t) → AllTimely q
    → IsTold o t.progress
Reach-IsTold o v t r q b =
    Trace-IsTold o t.progress
      (Reach-Trace o q b (rest-WorldInv v r) (rest-Inv v r) (inl (r.place, inl r.log)))

-- In every interleaving from a stream at rest in which no `start` comes while a `stop` waits for the
-- thread, for options that are not negative and whose initial backoff is less than 2 ^ 55 milliseconds:
-- what a thread notifies keeps the order of states, with `stopped` still to come while it runs, and each
-- of its waits is the initial backoff doubled at most eight times, cut to the longest one.
pub Reach-IsOrderly :
    (o : StreamOptions) (initial longest : ℕ) (v t : Threaded)
    → o.initial_backoff ≡ pos initial
    → o.max_backoff ≡ pos longest
    → initial * 256 < i64_half
    → IsAtRest v
    → (q : Reach o v t) → AllTimely q
    → IsOrderly initial longest t.progress
Reach-IsOrderly o initial longest v t e f h r q b =
    IsTold-IsOrderly o initial longest t.progress e f h (Reach-IsTold o v t r q b)
