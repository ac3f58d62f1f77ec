-- ===== src/MarketData/View.antt =====
-- What a user of src/market_data_stream.cpp sees of the registry: which targets are subscribed, and with
-- which request. The order of keys, the queue and the state of the call are forgotten.
use mathlib.Core.Path.{fun_ext}
use tinkoff_invest_sdkv.Prelude.{
  ℕ, ◌+◌, ◌≡◌, refl, sym, ap, subst, ◌∙◌, arith, if_both, Bool, true, false, not, ◌&&◌,
  if◌then◌else◌, List, [], ◌∷◌, Option, none, some, Bytes, bytes_eq,
}
use tinkoff_invest_sdkv.Prelude.Dict.{lookup, insert, lookup-insert}
use tinkoff_invest_sdkv.MarketData.Requests.{
  MarketDataRequest, SubscriptionAction, unspecified, subscribe, unsubscribe, action_of, keys_of,
  single, get_my_subscriptions, subscribe_candles, unsubscribe_candles, subscribe_order_book,
  unsubscribe_order_book, subscribe_trades, unsubscribe_trades, subscribe_last_prices,
  unsubscribe_last_prices, subscribe_info, unsubscribe_info,
}
use tinkoff_invest_sdkv.MarketData.Registry.{
  Registry, remember_from, remember, forget, update, IsRegistry,
}
use tinkoff_invest_sdkv.MarketData.RegistryLaws.{has, lookup-forget_all, update-IsRegistry}
use tinkoff_invest_sdkv.MarketData.Stream.{
  Stream, Call, subscribes_candles, unsubscribes_candles, subscribes_order_book,
  unsubscribes_order_book, subscribes_trades, unsubscribes_trades, subscribes_last_prices,
  unsubscribes_last_prices, subscribes_info, unsubscribes_info, gets_my_subscriptions, sends, call,
  send, enqueue, maybe_write,
}

-- The subscription of every target that has one.
abbrev pub View : Type 0
View = Bytes → Option MarketDataRequest

abbrev pub view_of : Registry → View
view_of d = λ k. lookup k d

-- A request sets its targets, each to its own part of the request, the last for a target named twice.
unfoldable pub set_targets : MarketDataRequest → List Bytes → ℕ → View → View
set_targets r [] i v = v
set_targets r (j ∷ js) i v =
    set_targets r js (i + 1) (λ k. if bytes_eq j k then some (single r i) else v k)

unfoldable pub clear_targets : List Bytes → View → View
clear_targets js v = λ k. if has js k then none else v k

-- The abstract meaning of a request.
unfoldable pub apply : MarketDataRequest → View → View
apply r v = elim (action_of r) [
  | subscribe ↦ set_targets r (keys_of r) 0 v
  | unsubscribe ↦ clear_targets (keys_of r) v
  | unspecified ↦ v
]

view_of-remember_from :
    (r : MarketDataRequest) (ks : List Bytes) (i : ℕ) (d : Registry)
    → view_of (remember_from r ks i d) ≡ set_targets r ks i (view_of d)
unfolding remember_from set_targets
view_of-remember_from r [] i d = refl
view_of-remember_from r (j ∷ js) i d =
    view_of-remember_from r js (i + 1) (insert j (single r i) d)
    ∙ ap (set_targets r js (i + 1)) (fun_ext λ k. lookup-insert j k (single r i) d)

view_of-update : (d : Registry) (r : MarketDataRequest) → view_of (update d r) ≡ apply r (view_of d)
unfolding update remember forget apply clear_targets
view_of-update d r = go (action_of r) refl
  where
    go : (a : SubscriptionAction) → action_of r ≡ a → view_of (update d r) ≡ apply r (view_of d)
    go subscribe e = rw (e, update, apply) (view_of-remember_from r (keys_of r) 0 d)
    go unsubscribe e = rw (e, update, apply) (fun_ext λ k. lookup-forget_all (keys_of r) k d)
    go unspecified e = rw (e, update, apply) refl

-- The request of a call, and whether it is to be remembered.
unfoldable pub request_of : Call → MarketDataRequest × Bool
request_of (subscribes_candles ids interval waiting_close) =
    (subscribe_candles ids interval waiting_close, true)
request_of (unsubscribes_candles ids interval) = (unsubscribe_candles ids interval, true)
request_of (subscribes_order_book ids depth type) = (subscribe_order_book ids depth type, true)
request_of (unsubscribes_order_book ids depth type) = (unsubscribe_order_book ids depth type, true)
request_of (subscribes_trades ids with_open_interest) =
    (subscribe_trades ids with_open_interest, true)
request_of (unsubscribes_trades ids) = (unsubscribe_trades ids, true)
request_of (subscribes_last_prices ids) = (subscribe_last_prices ids, true)
request_of (unsubscribes_last_prices ids) = (unsubscribe_last_prices ids, true)
request_of (subscribes_info ids) = (subscribe_info ids, true)
request_of (unsubscribes_info ids) = (unsubscribe_info ids, true)
request_of gets_my_subscriptions = (get_my_subscriptions, false)
request_of (sends r remember) = (r, remember)

pub call-send : (s : Stream) (c : Call) → call s c ≡ send s (request_of c).0 (request_of c).1
unfolding call request_of
call-send s (subscribes_candles ids interval waiting_close) = refl
call-send s (unsubscribes_candles ids interval) = refl
call-send s (subscribes_order_book ids depth type) = refl
call-send s (unsubscribes_order_book ids depth type) = refl
call-send s (subscribes_trades ids with_open_interest) = refl
call-send s (unsubscribes_trades ids) = refl
call-send s (subscribes_last_prices ids) = refl
call-send s (unsubscribes_last_prices ids) = refl
call-send s (subscribes_info ids) = refl
call-send s (unsubscribes_info ids) = refl
call-send s gets_my_subscriptions = refl
call-send s (sends r remember) = refl

send_state :
    (s : Stream) (r : MarketDataRequest) (remember : Bool)
    → let t = (send s r remember).0 in
      (t.stopping ≡ s.stopping)
      × (t.subscriptions
          ≡ (if not s.stopping && remember then update s.subscriptions r else s.subscriptions))
unfolding send enqueue maybe_write
send_state s r remember = ground arith

-- The calls of a user in order, whatever else the stream does.
unfoldable pub call_all : Stream → List Call → Stream
call_all s [] = s
call_all s (c ∷ cs) = call_all (call s c).0 cs

-- What the calls mean.
unfoldable pub apply_all : List Call → View → View
apply_all [] v = v
apply_all (c ∷ cs) v = apply_all cs (if (request_of c).1 then apply (request_of c).0 v else v)

remembered :
    (s : Stream) (r : MarketDataRequest) (remember : Bool)
    → s.stopping ≡ false
    → view_of (send s r remember).0.subscriptions
      ≡ (if remember then apply r (view_of s.subscriptions) else view_of s.subscriptions)
remembered s r true e =
    ap view_of (
      (send_state s r true).1
      ∙ ap (λ b. if not b && true then update s.subscriptions r else s.subscriptions) e)
    ∙ view_of-update s.subscriptions r
remembered s r false e = ap view_of (
    (send_state s r false).1
    ∙ ap (λ b. if not b && false then update s.subscriptions r else s.subscriptions) e)

send-IsRegistry :
    (s : Stream) (r : MarketDataRequest) (remember : Bool)
    → IsRegistry s.subscriptions
    → IsRegistry (send s r remember).0.subscriptions
send-IsRegistry s r remember v =
    subst IsRegistry (sym (send_state s r remember).1)
      (if_both IsRegistry (not s.stopping && remember) (update-IsRegistry s.subscriptions r v) v)

-- The registry refines the table of subscriptions: on a stream that is not stopping, after any calls of
-- its methods in any order, it is well formed and reads as what the calls mean.
pub call_all_refines :
    (s : Stream) (cs : List Call)
    → s.stopping ≡ false
    → IsRegistry s.subscriptions
    → IsRegistry (call_all s cs).subscriptions
      × (view_of (call_all s cs).subscriptions ≡ apply_all cs (view_of s.subscriptions))
unfolding call_all apply_all
call_all_refines s [] e v = (v, refl)
call_all_refines s (c ∷ cs) e v =
    let (r, remember) = request_of c in
    let t = (send s r remember).0 in
    let same : (call s c).0 ≡ t = ap (λ p. p.0) (call-send s c) in
    let (w, reads) =
      call_all_refines t cs ((send_state s r remember).0 ∙ e) (send-IsRegistry s r remember v) in
    (
      subst (λ x. IsRegistry (call_all x cs).subscriptions) (sym same) w,
      ap (λ x. view_of (call_all x cs).subscriptions) same
          ∙ reads
          ∙ ap (apply_all cs) (remembered s r remember e),
    )
