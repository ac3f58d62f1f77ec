-- ===== src/MarketData/Connecting.antt =====
-- A request that comes while the worker of src/market_data_stream.cpp connects.
use tinkoff_invest_sdkv.Prelude.{
  ◌≡◌, refl, sym, ap, subst, ◌∙◌, arith, true, false, if◌then◌else◌, not, ◌&&◌, ◌||◌, [], ◌∷◌, none,
  some, Bytes, if_both,
}
use tinkoff_invest_sdkv.Prelude.Dict.{lookup, lookup-insert, bytes_eq_refl}
use tinkoff_invest_sdkv.MarketData.Requests.{
  MarketDataRequest, action_of, subscribe, keys_of, single,
}
use tinkoff_invest_sdkv.MarketData.Registry.{
  Registry, update, replay, IsRegistry, remember, remember_from,
}
use tinkoff_invest_sdkv.MarketData.RegistryLaws.{update-subscribe, replay-values}
use tinkoff_invest_sdkv.MarketData.Stream.{
  remove_hold, send, enqueue, maybe_write, connect, publish,
}
use tinkoff_invest_sdkv.MarketData.World.{World, live, run, begun, published}
use tinkoff_invest_sdkv.MarketData.Safety.{IsIdle}
use tinkoff_invest_sdkv.MarketData.Sync.{told, maybe_write-Wrote}
use tinkoff_invest_sdkv.MarketData.Reconnect.{published_subscriptions}

send_unpublished :
    (w : World) (r : MarketDataRequest)
    → w.stream.stopping ≡ false
    → w.stream.reactor ≡ false
    → run w (send w.stream r true)
      ≡ record w { stream = record w.stream { subscriptions = update w.stream.subscriptions r } }
unfolding run send enqueue
send_unpublished w r s p = ground arith

told-published : (w : World) → told (published w) ≡ told w
unfolding run publish
told-published w =
    let start = record w { phase = live } in
    let t = record w.stream { reactor = true } in
    if_both (λ p. told (run start p) ≡ told w) w.stream.done refl
      (if_both (λ p. told (run start p) ≡ told w)
        ((w.stream.stopping || w.stream.broken) && not w.stream.hold_released)
        {x = (record t { hold_released = true }, remove_hold ∷ [])} {y = maybe_write t} refl
        (maybe_write-Wrote (record start { stream = t })).same_told)

published_live :
    (w : World)
    → w.stream.done ≡ false
    → w.stream.stopping ≡ false
    → w.stream.broken ≡ false
    → w.stream.hold_released ≡ false
    → let s = (published w).stream in
      (s.reactor ≡ true) × (s.broken ≡ false) × (s.hold_released ≡ false)
unfolding run publish maybe_write
published_live w d s b h = ground arith

lookup-update_one :
    (d : Registry) (r : MarketDataRequest) (k : Bytes)
    → action_of r ≡ subscribe
    → keys_of r ≡ k ∷ []
    → lookup k (update d r) ≡ some (single r 0)
lookup-update_one d r k a e =
    ap (lookup k) (update-subscribe d r a)
    ∙ unfold remember remember_from in
      (ap (λ ks. lookup k (remember_from r ks 0 d)) e)
      ∙ unfold remember_from in
        (lookup-insert k k (single r 0) d)
        ∙ ap (λ b. if b then some (single r 0) else lookup k d) (bytes_eq_refl k)

-- The gap: a subscription to a new target that comes while the worker connects is registered, but the
-- call that is then published, though it is sound, is never told of it.
pub subscribe_while_connecting :
    (w : World) (r : MarketDataRequest) (k : Bytes)
    → IsIdle w
    → IsRegistry w.stream.subscriptions
    → w.stream.stopping ≡ false
    → action_of r ≡ subscribe
    → keys_of r ≡ k ∷ []
    → lookup k w.stream.subscriptions ≡ none
    → let u = published (run (begun w) (send (begun w).stream r true)) in
      (lookup k u.stream.subscriptions ≡ some (single r 0))
      × (lookup k (replay [] (told u)) ≡ none)
      × (u.stream.reactor ≡ true)
      × (u.stream.broken ≡ false)
      × (u.stream.hold_released ≡ false)
subscribe_while_connecting w r k i d s a e n =
    let b = begun w in
    let v = record b {
      stream = record b.stream { subscriptions = update w.stream.subscriptions r };
    } in
    let sent : run b (send b.stream r true) ≡ v =
      unfold connect in (send_unpublished b r s i.reactor) in
    let start : let x = (published v).stream in
        (x.reactor ≡ true) × (x.broken ≡ false) × (x.hold_released ≡ false) =
      unfold connect in (published_live v refl s refl refl) in
    subst
      (λ x.
        (lookup k (published x).stream.subscriptions ≡ some (single r 0))
        × (lookup k (replay [] (told (published x))) ≡ none)
        × ((published x).stream.reactor ≡ true)
        × ((published x).stream.broken ≡ false)
        × ((published x).stream.hold_released ≡ false))
      (sym sent)
      (
        ap (lookup k) (published_subscriptions v)
            ∙ lookup-update_one w.stream.subscriptions r k a e,
        ap (λ rs. lookup k (replay [] rs)) (told-published v)
            ∙ unfold connect in (replay-values w.stream.subscriptions k d) ∙ n,
        start.0,
        start.1,
        start.2,
      )
