-- ===== src/MarketData/ThreadStopping.antt =====
-- A `stop` of src/market_data_stream.cpp comes to its end.
use tinkoff_invest_sdkv.Prelude.{
  ◌≡◌, ℕ, ◌<◌, ◌≤◌, sym, subst, ◌∙◌, arith, ◌⊎◌, inl, inr, Bool, true, false, [], Bool-cases,
}
use tinkoff_invest_sdkv.Streams.{StreamOptions}
use tinkoff_invest_sdkv.Streams.Progress.{
  Place, absent, top, announced, opening, calling, returned, waiting, looks, hear_data, back_off,
}
use tinkoff_invest_sdkv.MarketData.Requests.{MarketDataRequest}
use tinkoff_invest_sdkv.MarketData.Stream.{
  Stream, Call, call, send, start, stop, publish, maybe_write, disconnect, handle_read_closed,
  handle_write_done, handle_response, handle_done,
}
use tinkoff_invest_sdkv.MarketData.World.{run, Reach as WorldReach}
use tinkoff_invest_sdkv.MarketData.Safety.{Inv as WorldInv}
use tinkoff_invest_sdkv.MarketData.View.{request_of, call-send}
use tinkoff_invest_sdkv.MarketData.Thread.{
  IsTimely, AllTimely, Threaded, launched, beside, Step, sends, starts, stops, joins, announces,
  connects, refuses, publishes, write_dones, read_closes, responds, finishes, disconnects, breaks,
  gives_up, retries, ends, Reach,
}
use tinkoff_invest_sdkv.MarketData.ThreadSafety.{Inv}
use tinkoff_invest_sdkv.MarketData.ThreadRefines.{
  IsAtRest, rest-WorldInv, rest-Inv, Reach-WorldReach,
}

-- How many steps of the thread and of the call are left, when it is to stop, until the thread is gone:
-- by where it is, whether the call is active and whether a write is outstanding.
unfoldable pub left : Place → Bool → Bool → ℕ
left absent active writing = 0
left top active writing = 1
left returned active writing = 1
left waiting active writing = 1
left announced active writing = 2
left calling false writing = 2
left calling true false = 3
left calling true true = 4
left opening active writing = 5

abbrev pub remaining : Threaded → ℕ
remaining t = left t.progress.place t.world.active t.world.writing

-- A step that brings the end of a waiting `stop` nearer.
abbrev pub Nearer : StreamOptions → Threaded → Type 0
Nearer o t = (u : Threaded) × Step o t u × (remaining u < remaining t)

-- In its call the thread waits for the end of a write, for the end of the call, or not at all.
call_moves :
    (o : StreamOptions) (t : Threaded)
    → WorldInv t.world
    → Inv t
    → t.joining ≡ true
    → t.progress.place ≡ calling
    → Nearer o t
unfolding left run handle_write_done handle_read_closed handle_done disconnect
call_moves o t v i j p = elim (Bool-cases t.world.active) [
  | inl a ↦ elim (Bool-cases t.world.writing) [
    | inl w ↦ (_, write_dones t false w, ground arith)
    | inr w ↦ (_, finishes t t.world.stream.status a (ground arith) w, ground arith)
  ]
  | inr a ↦ (_, disconnects t p (ground arith), ground arith)
]

moves :
    (o : StreamOptions) (t : Threaded)
    → WorldInv t.world
    → Inv t
    → t.joining ≡ true
    → (t.progress.place ≡ absent) ⊎ Nearer o t
unfolding left run publish maybe_write looks
moves o t v i j = elim (i.linked.outside) [
  | inl (p, q, h) ↦ inr (_, publishes t p, ground arith)
  | inr (inl (p, q, h)) ↦ inr (call_moves o t v i j p)
  | inr (inr (inl (p, q, h))) ↦ inr (_, ends t (ground arith) (ground arith), ground arith)
  | inr (inr (inr (inl p, q))) ↦ inl p
  | inr (inr (inr (inr (inl p), q))) ↦ inr (_, ends t (ground arith) (ground arith), ground arith)
  | inr (inr (inr (inr (inr (inl p)), q))) ↦ inr (_, refuses t p (ground arith), ground arith)
  | inr (inr (inr (inr (inr (inr p)), q))) ↦
      inr (_, ends t (ground arith) (ground arith), ground arith)
]

send_stopping :
    (s : Stream) (r : MarketDataRequest) (remember : Bool)
    → s.stopping ≡ true
    → send s r remember ≡ (s, [])
unfolding send
send_stopping s r remember e = ground (arith, e)

-- A call of the class sends nothing once the stream is to stop.
call_stopping : (s : Stream) (c : Call) → s.stopping ≡ true → call s c ≡ (s, [])
call_stopping s c e = call-send s c ∙ send_stopping s (request_of c).0 (request_of c).1 e

calls_keep :
    (t : Threaded) (c : Call)
    → t.world.stream.stopping ≡ true
    → remaining (beside t (run t.world (call t.world.stream c))) ≤ remaining t
unfolding run
calls_keep t c e =
    subst (λ p. remaining (beside t (run t.world p)) ≤ remaining t)
      (sym (call_stopping t.world.stream c e)) (ground arith)

keeps :
    {o : StreamOptions} {t u : Threaded} (s : Step o t u)
    → IsTimely s
    → WorldInv t.world
    → Inv t
    → t.joining ≡ true
    → remaining u ≤ remaining t
unfolding left launched start run stop publish maybe_write handle_write_done handle_read_closed
    handle_response handle_done disconnect hear_data back_off looks
keeps (sends t c) e v i j = calls_keep t c (ground arith)
keeps (starts t) e v i j = ground (arith, e, j)
keeps (stops t) e v i j = ground arith
keeps (joins t k p) e v i j = ground arith
keeps (announces t p k) e v i j = ground arith
keeps (connects t p k) e v i j = ground arith
keeps (refuses t p k) e v i j = ground arith
keeps (publishes t p) e v i j = ground arith
keeps (write_dones t true h) e v i j = ground arith
keeps (write_dones t false h) e v i j = ground arith
keeps (read_closes t a) e v i j = ground arith
keeps (responds t a) e v i j = ground arith
keeps (finishes t status a h k) e v i j = ground arith
keeps (disconnects t p d) e v i j = ground arith
keeps (breaks t p s r) e v i j = ground arith
keeps (gives_up t p s r) e v i j = ground arith
keeps (retries t p s) e v i j = ground arith
keeps (ends t p k) e v i j = ground arith

-- While a `stop` waits for the thread of a stream that was at rest at first, and as long as no `start`
-- comes while one waits: the hold of a call that
-- runs is gone once its reactor is published, so that gRPC may end the call; the thread is gone or a
-- step is possible that lessens what remains, at most five steps; and no other step of anyone adds to
-- what remains, so that nothing is written anew and no further call is begun.
pub Reach-stop_ends :
    (o : StreamOptions) (v t u : Threaded)
    → IsAtRest v
    → (q : Reach o v t) → AllTimely q
    → t.joining ≡ true
    → (s : Step o t u) → IsTimely s
    → ((t.progress.place ≡ opening) ⊎ (t.world.active ≡ false) ⊎ (t.world.held ≡ false))
      × ((t.progress.place ≡ absent) ⊎ Nearer o t)
      × (remaining t ≤ 5)
      × (remaining u ≤ remaining t)
unfolding left
Reach-stop_ends o v t u r q b j s e =
    let w = rest-WorldInv v r in
    let (a, k, i) = Reach-WorldReach o v.world q b w (WorldReach.here, tt) (rest-Inv v r) in
    (ground arith, moves o t k i j, ground arith, keeps s e k i j)
