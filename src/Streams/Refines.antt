-- ===== src/Streams/Refines.antt =====
-- Every interleaving of include/tinvest/streams/server_stream.hpp refines the loop `run_stream`.
use tinkoff_invest_sdkv.Prelude.{
  ◌≡◌, ℕ, ◌*◌, ◌<◌, refl, sym, subst, arith, inl, inr, true, false, [], Bool-cases,
}
use tinkoff_invest_sdkv.Prelude.Int.{pos}
use tinkoff_invest_sdkv.Prelude.Word.{i64_half}
use tinkoff_invest_sdkv.Streams.{StreamOptions}
use tinkoff_invest_sdkv.Streams.Progress.{
  opening, calling, returned, enter, back_off, hear_data, Move,
}
use tinkoff_invest_sdkv.Streams.Server.{start, stop, begin_call, handle_done, handle_data, end_call}
use tinkoff_invest_sdkv.Streams.World.{
  AllTimely, World, progress, perform, started, halted, received, finished, Step, starts, stops,
  joins, announces, opens, refuses, calls, receives, finishes, closes, breaks, gives_up, retries,
  ends, Reach, here, next,
}
use tinkoff_invest_sdkv.Streams.Safety.{IsAbsent, Inv, Reach-Inv}
use tinkoff_invest_sdkv.Streams.Trace.{Trace}
use tinkoff_invest_sdkv.Streams.Moves.{
  Move-Trace, IsTold, Trace-IsTold, IsOrderly, IsTold-IsOrderly,
}

module _ (o : StreamOptions) where
  start-Move : (w : World) → Move o (progress w) (progress (started w))
  unfolding started start
  start-Move w = elim (Bool-cases w.stream.worker) [
    | inl e ↦ rw e (Move.rests _)
    | inr e ↦ rw e (Move.begins _)
  ]

  halted_progress : (w : World) → progress (halted w) ≡ progress w
  unfolding halted stop perform
  halted_progress w = elim (Bool-cases w.stream.ctx) [ inl e ↦ rw e refl | inr e ↦ rw e refl ]

  open_heard : (w : World) → (begin_call w.stream).0.got_data ≡ false
  unfolding begin_call
  open_heard w = ground arith

  received_progress : (w : World) → progress (received w) ≡ hear_data (progress w)
  unfolding received handle_data hear_data
  received_progress w = elim (Bool-cases w.stream.got_data) [
    | inl e ↦ rw e refl
    | inr e ↦ rw e refl
  ]

  active_place : (w : World) → Inv w → w.active ≡ true → w.place ≡ calling
  active_place w i a = ground arith

  -- Each step is a move of the loop, or none.
  Step-Move : {w u : World} → Step o w u → Inv w → Move o (progress w) (progress u)
  unfolding finished handle_done end_call back_off
  Step-Move (starts w) i = start-Move w
  Step-Move (stops w) i = subst (Move o (progress w)) (sym (halted_progress w)) (Move.rests _)
  Step-Move (joins w j p) i = Move.rests _
  Step-Move (announces w p s) i = Move.announces _ p
  Step-Move (opens w p s) i =
      subst (Move o (progress w))
        (λ i. record (enter opening (progress w)) { heard = sym (open_heard w) i })
        (Move.enters _ opening p (inl refl))
  Step-Move (refuses w p s) i =
      subst (Move o (progress w))
        (λ i. record (enter returned (progress w)) { heard = sym (open_heard w) i })
        (Move.enters _ returned p (inr refl))
  Step-Move (calls w p) i = Move.calls _ p
  Step-Move (receives w a) i =
      subst (Move o (progress w)) (sym (received_progress w))
        (Move.hears _ (inr (active_place w i a)))
  Step-Move (finishes w status a) i = Move.rests _
  Step-Move (closes w p d) i = Move.closes _ p
  Step-Move (breaks w p s c) i = Move.breaks _ w.stream.status p c
  Step-Move (gives_up w p s c) i = Move.gives_up _ w.stream.status p c
  Step-Move (retries w p s) i = Move.retries _ p
  Step-Move (ends w p s) i = Move.ends _ p

  Reach-Trace :
      {v w : World} (r : Reach o v w)
      → AllTimely r
      → Inv v
      → Trace o (progress v)
      → Trace o (progress w)
  Reach-Trace here a i t = t
  Reach-Trace (next r s) (a, b) i t =
      Move-Trace o (Step-Move s (Reach-Inv r a i)) (Reach-Trace r a i t)

-- Every interleaving in which no `start` comes while a `stop` waits for the thread refines the loop. From a
-- stream without a thread, whatever else users, the worker and gRPC do, in any order: as long as no thread
-- was started nothing is notified; else there are rounds on which `run_stream` ends with exactly what the
-- current or last thread has notified and waited for, followed by `stopped` if it has not ended yet.
pub Reach-run_stream :
    (o : StreamOptions) (v w : World)
    → IsAbsent v
    → v.joining ≡ false
    → v.misuse ≡ false
    → v.log ≡ []
    → (r : Reach o v w) → AllTimely r
    → IsTold o (progress w)
Reach-run_stream o v w a j m l r b =
    let i : Inv v = record { clean = m; joining = inl j; place = inl a } in
    Trace-IsTold o (progress w) (Reach-Trace o r b i (inl (a.place, inl l)))

-- In every interleaving from a stream without a thread in which no `start` comes while a `stop` waits for
-- the thread, for options that are not negative and whose
-- initial backoff is less than 2 ^ 55 milliseconds: what a thread notifies keeps the order of states,
-- with `stopped` still to come while it runs, and each of its waits is the initial backoff doubled at
-- most eight times, cut to the longest one.
pub Reach-notices :
    (o : StreamOptions) (initial longest : ℕ) (v w : World)
    → o.initial_backoff ≡ pos initial
    → o.max_backoff ≡ pos longest
    → initial * 256 < i64_half
    → IsAbsent v
    → v.joining ≡ false
    → v.misuse ≡ false
    → v.log ≡ []
    → (r : Reach o v w) → AllTimely r
    → IsOrderly initial longest (progress w)
Reach-notices o initial longest v w e f h a j m l r b =
    IsTold-IsOrderly o initial longest (progress w) e f h (Reach-run_stream o v w a j m l r b)
