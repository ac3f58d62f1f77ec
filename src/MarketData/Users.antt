-- ===== src/MarketData/Users.antt =====
-- A user of src/market_data_stream.cpp who starts the stream and subscribes, while its thread and gRPC do
-- what they do.
use tinkoff_invest_sdkv.Prelude.{
  ◌≡◌, refl, sym, ap, subst, ◌∙◌, arith, Bool, true, false, if◌then◌else◌, List, [], ◌∷◌, ◌++◌,
}
use tinkoff_invest_sdkv.Streams.{StreamOptions}
use tinkoff_invest_sdkv.MarketData.Registry.{Registry, IsRegistry}
use tinkoff_invest_sdkv.MarketData.Stream.{
  Stream, Effect, Call, call, start, connect, publish, maybe_write, disconnect, handle_read_closed,
  handle_write_done, handle_response, handle_done,
}
use tinkoff_invest_sdkv.MarketData.World.{World, run}
use tinkoff_invest_sdkv.MarketData.View.{
  View, view_of, apply, request_of, call_all, apply_all, call_all_refines,
}
use tinkoff_invest_sdkv.MarketData.Thread.{
  Threaded, launched, beside, Step, sends, starts, stops, joins, announces, connects, refuses,
  publishes, write_dones, read_closes, responds, finishes, disconnects, breaks, gives_up, retries,
  ends,
}
use tinkoff_invest_sdkv.MarketData.ThreadSafety.{run_kept, call_flags}

-- A step that no user makes.
unfoldable pub is_internal : {o : StreamOptions} {t u : Threaded} → Step o t u → Bool
is_internal (sends t c) = false
is_internal (starts t) = false
is_internal (stops t) = false
is_internal (joins t j p) = true
is_internal (announces t p s) = true
is_internal (connects t p s) = true
is_internal (refuses t p s) = true
is_internal (publishes t p) = true
is_internal (write_dones t ok h) = true
is_internal (read_closes t a) = true
is_internal (responds t a) = true
is_internal (finishes t status a h k) = true
is_internal (disconnects t p d) = true
is_internal (breaks t p s c) = true
is_internal (gives_up t p s c) = true
is_internal (retries t p s) = true
is_internal (ends t p s) = true

-- The user starts the stream and makes some calls, in any interleaving with steps that no user makes.
pub data Session (o : StreamOptions) (v : Threaded) : List Call → Threaded → Type 0 where
  begins : Session o v [] (launched v)
  makes :
      {cs : List Call} {t : Threaded}
      → Session o v cs t
      → (c : Call) → Session o v (cs ++ c ∷ []) (beside t (run t.world (call t.world.stream c)))
  lets :
      {cs : List Call} {t u : Threaded}
      → Session o v cs t
      → (s : Step o t u) → is_internal s ≡ true
      → Session o v cs u

-- What a user has done to a stream.
abbrev SameUse : Stream → Stream → Type 0
SameUse t s = (t.stopping ≡ s.stopping) × (t.subscriptions ≡ s.subscriptions)

run_use :
    (w : World) (p : Stream × List Effect) (s : Stream) → SameUse p.0 s → SameUse (run w p).stream s
run_use w p s (a, b) =
    let (f, g) = run_kept w p in
    (ap (λ (s : Stream). s.stopping) g ∙ a, ap (λ (s : Stream). s.subscriptions) g ∙ b)

write_done_use : (s : Stream) (ok : Bool) → SameUse (handle_write_done s ok).0 s
unfolding handle_write_done maybe_write handle_read_closed
write_done_use s true = ground arith
write_done_use s false = ground arith

read_closed_use : (s : Stream) → SameUse (handle_read_closed s).0 s
unfolding handle_read_closed
read_closed_use s = ground arith

publish_use : (s : Stream) → SameUse (publish s).0 s
unfolding publish maybe_write
publish_use s = ground arith

response_use : (s : Stream) → SameUse (handle_response s).0 s
unfolding handle_response
response_use s = ground arith

-- Only users change what they see.
internal_use :
    {o : StreamOptions} {t u : Threaded} (s : Step o t u)
    → is_internal s ≡ true
    → SameUse u.world.stream t.world.stream
unfolding is_internal connect disconnect handle_done
internal_use (sends t c) e = ground (arith, e)
internal_use (starts t) e = ground (arith, e)
internal_use (stops t) e = ground (arith, e)
internal_use (joins t j p) e = (refl, refl)
internal_use (announces t p s) e = (refl, refl)
internal_use (connects t p s) e = (refl, refl)
internal_use (refuses t p s) e = (refl, refl)
internal_use (publishes t p) e = run_use _ _ t.world.stream (publish_use t.world.stream)
internal_use (write_dones t ok h) e = run_use _ _ t.world.stream (write_done_use t.world.stream ok)
internal_use (read_closes t a) e = run_use _ _ t.world.stream (read_closed_use t.world.stream)
internal_use (responds t a) e = run_use _ _ t.world.stream (response_use t.world.stream)
internal_use (finishes t status a h k) e = run_use _ _ t.world.stream (refl, refl)
internal_use (disconnects t p d) e = (refl, refl)
internal_use (breaks t p s c) e = (refl, refl)
internal_use (gives_up t p s c) e = (refl, refl)
internal_use (retries t p s) e = (refl, refl)
internal_use (ends t p s) e = (refl, refl)

apply_all-append :
    (cs : List Call) (c : Call) (v : View)
    → apply_all (cs ++ c ∷ []) v ≡ apply_all (c ∷ []) (apply_all cs v)
unfolding apply_all
apply_all-append [] c v = refl
apply_all-append (b ∷ cs) c v =
    apply_all-append cs c (if (request_of b).1 then apply (request_of b).0 v else v)

-- The stream is not stopping, and its registry is that of the calls.
pub record Reads (d : Registry) (cs : List Call) (s : Stream) : Type 0 where
  pub going : s.stopping ≡ false
  pub registry : IsRegistry s.subscriptions
  pub reads : view_of s.subscriptions ≡ apply_all cs (view_of d)

same-Reads :
    (d : Registry) (cs : List Call) (s t : Stream) → SameUse t s → Reads d cs s → Reads d cs t
same-Reads d cs s t (a, b) r = record {
  going = a ∙ r.going;
  registry = subst IsRegistry (sym b) r.registry;
  reads = ap view_of b ∙ r.reads;
}

call_stopping : (s : Stream) (c : Call) → (call s c).0.stopping ≡ s.stopping
call_stopping s c = let (a, b, c) = call_flags s c in b

call-Reads :
    (d : Registry) (cs : List Call) (s : Stream) (c : Call)
    → Reads d cs s
    → Reads d (cs ++ c ∷ []) (call s c).0
unfolding call_all
call-Reads d cs s c r =
    let (v, e) = call_all_refines s (c ∷ []) r.going r.registry in
    record {
      going = call_stopping s c ∙ r.going;
      registry = v;
      reads = e ∙ ap (apply_all (c ∷ [])) r.reads ∙ sym (apply_all-append cs c (view_of d));
    }

begin-Reads :
    (v : Threaded)
    → v.world.stream.worker ≡ false
    → IsRegistry v.world.stream.subscriptions
    → Reads v.world.stream.subscriptions [] (launched v).world.stream
unfolding launched start apply_all
begin-Reads v w d = rw w (record { going = refl; registry = d; reads = refl })

-- From a stream without a worker whose registry is well formed, in every interleaving: after the user has
-- started the stream and made some calls, the stream is not stopping, and its registry is well formed and
-- reads as what those calls mean, in their order.
pub Session-Reads :
    (o : StreamOptions) (v t : Threaded) (cs : List Call)
    → v.world.stream.worker ≡ false
    → IsRegistry v.world.stream.subscriptions
    → Session o v cs t
    → Reads v.world.stream.subscriptions cs t.world.stream
Session-Reads o v t cs w d begins = begin-Reads v w d
Session-Reads o v u es w d (makes {cs} {t} p c) =
    let s = t.world.stream in
    same-Reads _ _ (call s c).0 _ (run_use t.world (call s c) (call s c).0 (refl, refl))
      (call-Reads _ _ s c (Session-Reads o v t cs w d p))
Session-Reads o v r es w d (lets {cs} {t} {u} p s e) =
    same-Reads _ cs t.world.stream _ (internal_use s e) (Session-Reads o v t cs w d p)
