-- ===== src/MarketData/Sync.antt =====
-- What the server has been told by src/market_data_stream.cpp: the requests written to the current
-- call and those still queued amount to the registry, unless a subscription comes while the worker
-- connects.
use mathlib.Core.List.{append_assoc}
use tinkoff_invest_sdkv.Prelude.{
  ◌≡◌, refl, sym, ap, subst, ◌∙◌, arith, ◌⊎◌, inl, inr, true, false, not, ◌&&◌, ◌||◌, List, [], ◌∷◌,
  ◌++◌, Bool-cases, if_both, if◌then◌else◌,
}
use tinkoff_invest_sdkv.Prelude.Dict.{lookup}
use tinkoff_invest_sdkv.MarketData.Requests.{MarketDataRequest}
use tinkoff_invest_sdkv.MarketData.Registry.{update, replay, IsRegistry}
use tinkoff_invest_sdkv.MarketData.RegistryLaws.{
  SameMap, update-SameMap, replay-append, replay-values,
}
use tinkoff_invest_sdkv.MarketData.Stream.{
  Status, remove_hold, send, enqueue, maybe_write, write_from, stop, connect, publish,
  handle_read_closed, handle_write_done, handle_response, handle_done,
}
use tinkoff_invest_sdkv.MarketData.World.{
  World, Phase, idle, connecting, live, run, begun, published,
}
use tinkoff_invest_sdkv.MarketData.Safety.{Inv}

-- All that the current call has been or will be told.
abbrev pub told : World → List MarketDataRequest
told w = w.sent ++ w.stream.write_queue

abbrev pub InStep : World → Type 0
InStep w = SameMap (replay [] (told w)) w.stream.subscriptions

-- While the worker connects, and then until the stream is broken.
abbrev pub SyncedAt : Phase → World → Type 0
SyncedAt idle w = Unit
SyncedAt connecting w = (w.sent ≡ []) × InStep w
SyncedAt live w = (w.stream.hold_released ≡ true) ⊎ (w.stream.done ≡ true) ⊎ InStep w

abbrev pub Synced : World → Type 0
Synced w = SyncedAt w.phase w

-- The world `u` is `w` after more was written from the queue.
pub record Wrote (w u : World) : Type 0 where
  pub same_told : told u ≡ told w
  same_subscriptions : u.stream.subscriptions ≡ w.stream.subscriptions
  same_phase : u.phase ≡ w.phase

write_from-Wrote :
    (w : World) (q : List MarketDataRequest)
    → w.stream.write_queue ≡ q
    → Wrote w (run w (write_from w.stream q))
unfolding run write_from
write_from-Wrote w [] e = record { same_told = refl; same_subscriptions = refl; same_phase = refl }
write_from-Wrote w (r ∷ rs) e = record {
  same_told = append_assoc w.sent (r ∷ []) rs ∙ ap (◌++◌ w.sent) (sym e);
  same_subscriptions = refl;
  same_phase = refl;
}

pub unchanged-Wrote : (w : World) → Wrote w (run w (w.stream, []))
unfolding run
unchanged-Wrote w = record { same_told = refl; same_subscriptions = refl; same_phase = refl }

pub maybe_write-Wrote : (w : World) → Wrote w (run w (maybe_write w.stream))
unfolding maybe_write
maybe_write-Wrote w =
    if_both (λ p. Wrote w (run w p)) _ (unchanged-Wrote w)
      (write_from-Wrote w w.stream.write_queue refl)

Wrote-InStep : (w u : World) → Wrote w u → InStep w → InStep u
Wrote-InStep w u h s =
    subst (λ d. SameMap (replay [] (told u)) d) (sym h.same_subscriptions)
      (subst (λ rs. SameMap (replay [] rs) w.stream.subscriptions) (sym h.same_told) s)

-- A connection starts with the whole registry queued.
pub begun-Synced : (w : World) → IsRegistry w.stream.subscriptions → Synced (begun w)
unfolding connect
begun-Synced w v = (refl, λ k. replay-values w.stream.subscriptions k v)

live-Synced : (u : World) → u.phase ≡ live → InStep u → Synced u
live-Synced u e s = subst (λ p. SyncedAt p u) (sym e) (inr (inr s))

-- Writing from the queue of a live stream keeps it in step.
pub write-Synced : (w : World) → w.phase ≡ live → InStep w → Synced (run w (maybe_write w.stream))
write-Synced w p s =
    let h = maybe_write-Wrote w in
    live-Synced (run w (maybe_write w.stream)) (h.same_phase ∙ p)
      (Wrote-InStep w (run w (maybe_write w.stream)) h s)

pub published-Synced : (w : World) → InStep w → Synced (published w)
unfolding publish run
published-Synced w s =
    let start = record w { phase = live } in
    let t = record w.stream { reactor = true } in
    if_both (λ p. Synced (run start p)) w.stream.done (inr (inr s))
      (if_both (λ p. Synced (run start p))
        ((w.stream.stopping || w.stream.broken) && not w.stream.hold_released)
        {x = (record t { hold_released = true }, remove_hold ∷ [])} {y = maybe_write t} (inl refl)
        (write-Synced (record start { stream = t }) refl s))

-- A request that is remembered goes to the end of the queue and into the registry at once.
send_queued :
    (w : World) (r : MarketDataRequest)
    → InStep w
    → InStep (record w {
      stream = record w.stream {
        subscriptions = update w.stream.subscriptions r;
        write_queue = w.stream.write_queue ++ (r ∷ []);
      };
    })
send_queued w r s k =
    ap (λ rs. lookup k (replay [] rs)) (sym (append_assoc w.sent w.stream.write_queue (r ∷ [])))
    ∙ ap (lookup k) (replay-append [] (told w) (r ∷ []))
    ∙ unfold replay in (update-SameMap r (replay [] (told w)) w.stream.subscriptions s k)

-- A live stream that takes no request has let go of its hold or is over.
blocked :
    (w : World)
    → Inv w
    → w.phase ≡ live
    → (w.stream.reactor && not w.stream.broken && not w.stream.hold_released) ≡ false
    → (w.stream.hold_released ≡ true) ⊎ (w.stream.done ≡ true)
blocked w v p t = ground arith

pub lost-Synced :
    (w : World)
    → w.phase ≡ live
    → (w.stream.hold_released ≡ true) ⊎ (w.stream.done ≡ true)
    → Synced w
lost-Synced w p (inl h) = subst (λ q. SyncedAt q w) (sym p) (inl h)
lost-Synced w p (inr h) = subst (λ q. SyncedAt q w) (sym p) (inr (inl h))

-- A remembered request on a live stream goes to the server and into the registry.
pub enqueue-Synced :
    (w : World) (r : MarketDataRequest)
    → Inv w
    → w.phase ≡ live
    → InStep w
    → Synced
        (run w (enqueue (record w.stream { subscriptions = update w.stream.subscriptions r }) r))
unfolding enqueue run
enqueue-Synced w r v p s =
    let s' = record w.stream { subscriptions = update w.stream.subscriptions r } in
    let q = record s' { write_queue = w.stream.write_queue ++ (r ∷ []) } in
    let test = w.stream.reactor && not w.stream.broken && not w.stream.hold_released in
    elim (Bool-cases test) [
      | inl t ↦
          subst (λ b. Synced (run w (if b then maybe_write q else (s', [])))) (sym t)
            (write-Synced (record w { stream = q }) p (send_queued w r s))
      | inr t ↦
          subst (λ b. Synced (run w (if b then maybe_write q else (s', [])))) (sym t)
            (lost-Synced (record w { stream = s' }) p (blocked w v p t))
    ]

-- The world `u` is `w` after a step that touches neither the requests nor the registry.
pub record Keeps (w u : World) : Type 0 where
  queue : u.stream.write_queue ≡ w.stream.write_queue
  sent : u.sent ≡ w.sent
  pub subscriptions : u.stream.subscriptions ≡ w.stream.subscriptions
  phase : u.phase ≡ w.phase
  released : (w.stream.hold_released ≡ false) ⊎ (u.stream.hold_released ≡ true)
  over : (w.stream.done ≡ false) ⊎ (u.stream.done ≡ true)

Keeps-Wrote : (w u : World) → Keeps w u → Wrote w u
Keeps-Wrote w u k = record {
  same_told = ap (λ s. s ++ u.stream.write_queue) k.sent ∙ ap (◌++◌ w.sent) k.queue;
  same_subscriptions = k.subscriptions;
  same_phase = k.phase;
}

Keeps-SyncedAt : (p : Phase) (w u : World) → Keeps w u → SyncedAt p w → SyncedAt p u
Keeps-SyncedAt idle w u k s = tt
Keeps-SyncedAt connecting w u k (e, s) = (k.sent ∙ e, Wrote-InStep w u (Keeps-Wrote w u k) s)
Keeps-SyncedAt live w u k (inl h) = inl (ground arith)
Keeps-SyncedAt live w u k (inr (inl h)) = inr (inl (ground arith))
Keeps-SyncedAt live w u k (inr (inr s)) = inr (inr (Wrote-InStep w u (Keeps-Wrote w u k) s))

pub Keeps-Synced : (w u : World) → Keeps w u → Synced w → Synced u
Keeps-Synced w u k s = subst (λ p. SyncedAt p u) (sym k.phase) (Keeps-SyncedAt w.phase w u k s)

pub stop-Keeps : (w : World) → Keeps w (run w (stop w.stream))
unfolding run stop
stop-Keeps w = ground arith

pub read_closed-Keeps : (w : World) → Keeps w (run w (handle_read_closed w.stream))
unfolding run handle_read_closed
read_closed-Keeps w = ground arith

pub response-Keeps : (w : World) → Keeps w (run w (handle_response w.stream))
unfolding run handle_response
response-Keeps w = ground arith

pub done-Keeps :
    (w : World) (status : Status)
    → Keeps w (run (record w { active = false }) (handle_done w.stream status))
unfolding run handle_done
done-Keeps w status = ground arith

pub failed_write-Keeps :
    (w : World) → Keeps w (run (record w { writing = false }) (handle_write_done w.stream false))
unfolding run handle_write_done handle_read_closed
failed_write-Keeps w = ground arith

-- What is lost stays lost when a write is reported or a request is sent.
pub lost_after_write :
    (w : World)
    → (w.stream.hold_released ≡ true) ⊎ (w.stream.done ≡ true)
    → let u = run (record w { writing = false }) (handle_write_done w.stream true) in
      ((u.stream.hold_released ≡ true) ⊎ (u.stream.done ≡ true)) × (u.phase ≡ w.phase)
unfolding run handle_write_done maybe_write
lost_after_write w h = ground arith

pub send_phase :
    (w : World) (r : MarketDataRequest) → (run w (send w.stream r true)).phase ≡ w.phase
unfolding run send enqueue maybe_write
send_phase w r = ground arith

pub lost_after_send :
    (w : World) (r : MarketDataRequest)
    → (w.stream.hold_released ≡ true) ⊎ (w.stream.done ≡ true)
    → let u = run w (send w.stream r true) in
      ((u.stream.hold_released ≡ true) ⊎ (u.stream.done ≡ true)) × (u.phase ≡ w.phase)
unfolding run send enqueue maybe_write
lost_after_send w r h = ground arith
