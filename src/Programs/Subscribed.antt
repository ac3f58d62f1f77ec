-- ===== src/Programs/Subscribed.antt =====
-- The program examples/quotes_stream.cpp is subscribed to what it wants.
use mathlib.Core.List.{append_cancel_left, append_cancel_right}
use tinkoff_invest_sdkv.Prelude.{
  ◌≡◌, refl, ap, ◌∙◌, arith, ◌⊎◌, inl, inr, ℕ, zero, suc, ◌+◌, true, false, List, [], ◌∷◌, ◌++◌,
  map, get_elem?, get_elem?-map, none, some, Bytes, bytes_eq, bytes_eq_iff, Bool-cases,
}
use tinkoff_invest_sdkv.Prelude.Codes.{codes}
use tinkoff_invest_sdkv.Prelude.Digits.{int_to_string, to_digits}
use tinkoff_invest_sdkv.Prelude.Dict.{lookup}
use tinkoff_invest_sdkv.Streams.{StreamOptions}
use tinkoff_invest_sdkv.MarketData.Requests.{
  MarketDataRequest, last_price, candles, subscribe, action_of, keys_of, single, id_of, plain_key,
  candle_key, subscribe_last_prices, subscribe_candles,
}
use tinkoff_invest_sdkv.MarketData.Registry.{IsRegistry, only_at}
use tinkoff_invest_sdkv.MarketData.RegistryLaws.{has}
use tinkoff_invest_sdkv.MarketData.View.{View, view_of, set_targets, apply, request_of, apply_all}
use tinkoff_invest_sdkv.MarketData.Thread.{Threaded}
use tinkoff_invest_sdkv.MarketData.Users.{Session, Session-Reads}
use tinkoff_invest_sdkv.Programs.Quotes.{quotes_calls, instruments_of, one_minute}

set_targets-all :
    (r : MarketDataRequest) (js : List Bytes) (i : ℕ) (v : View) (k : Bytes) (s : MarketDataRequest)
    → ((j : ℕ) → get_elem? js j ≡ some k → single r (i + j) ≡ s)
    → (has js k ≡ true) ⊎ (v k ≡ some s)
    → set_targets r js i v k ≡ some s
unfolding set_targets has
set_targets-all r [] i v k s p (inl h) = ground (arith, h)
set_targets-all r [] i v k s p (inr e) = e
set_targets-all r (j ∷ js) i v k s p h =
    set_targets-all r js (i + 1) _ k s (λ m e. ap (single r) (omega arith) ∙ p (suc m) e)
      (elim (Bool-cases (bytes_eq j k)) [
        | inl e ↦
            let at : single r i ≡ s =
              ap (single r) (omega arith) ∙ p 0 (ap some ((bytes_eq_iff j k).0 e)) in
            inr (rw e (ap some at))
        | inr e ↦ elim h [ inl w ↦ inl (ground (arith, e, w)) | inr w ↦ inr (rw e w) ]
      ])

set_targets-other :
    (r : MarketDataRequest) (js : List Bytes) (i : ℕ) (v : View) (k : Bytes)
    → has js k ≡ false
    → set_targets r js i v k ≡ v k
unfolding set_targets has
set_targets-other r [] i v k h = refl
set_targets-other r (j ∷ js) i v k h =
    let e : bytes_eq j k ≡ false = ground (arith, h) in
    set_targets-other r js (i + 1) _ k (ground (arith, h)) ∙ rw e refl

has-map :
    (f : Bytes → Bytes) (xs : List Bytes) (x : Bytes)
    → has xs x ≡ true
    → has (map f xs) (f x) ≡ true
unfolding has
has-map f [] x h = h
has-map f (y ∷ ys) x h = elim (Bool-cases (bytes_eq y x)) [
  | inl e ↦
      let same : bytes_eq (f y) (f x) ≡ true =
        (bytes_eq_iff (f y) (f x)).1 (ap f ((bytes_eq_iff y x).0 e)) in
      rw same refl
  | inr e ↦ let rest = has-map f ys x (ground (arith, e, h)) in ground (arith, rest)
]

get_elem-map :
    {A B : Type 0} (f : A → B) (xs : List A) (j : ℕ) (x : A)
    → get_elem? xs j ≡ some x
    → get_elem? (map f xs) j ≡ some (f x)
get_elem-map f [] j x h = absurd (cc h)
get_elem-map f (y ∷ ys) zero x h = cc
get_elem-map f (y ∷ ys) (suc j) x h = get_elem-map f ys j x h

-- A request with one part for each of some instruments, each under a key of its own.
set_targets-part :
    (r : MarketDataRequest) (ids : List Bytes) (key : Bytes → Bytes)
    (part : Bytes → MarketDataRequest) (v : View) (id : Bytes)
    → keys_of r ≡ map key ids
    → ((a b : Bytes) → key a ≡ key b → a ≡ b)
    → ((j : ℕ) (x : Bytes) → get_elem? ids j ≡ some x → single r j ≡ part x)
    → has ids id ≡ true
    → set_targets r (keys_of r) 0 v (key id) ≡ some (part id)
set_targets-part r ids key part v id e inj parts h =
    ap (λ ks. set_targets r ks 0 v (key id)) e
    ∙ set_targets-all r (map key ids) 0 v (key id) (part id)
        (λ j g.
          let (x, at, same) = get_elem?-map key ids j (key id) g in
          ap (single r) (omega arith) ∙ parts j x at ∙ ap part (inj x id same))
        (inl (has-map key ids id h))

id_of_empty : (id : Bytes) → id_of id [] ≡ id
id_of_empty [] = refl
id_of_empty (c ∷ s) = refl

-- The keys under which the two subscriptions to an instrument are kept.
abbrev pub price_key : Bytes → Bytes
price_key id = codes "last_price|" ++ id

abbrev pub minute_key : Bytes → Bytes
minute_key id = codes "candles|" ++ id ++ codes "|1"

price_keys : (ids : List Bytes) → keys_of (subscribe_last_prices ids) ≡ map price_key ids
unfolding keys_of subscribe_last_prices plain_key
price_keys [] = refl
price_keys (id ∷ ids) =
    ap (λ x. price_key x ∷ _) (id_of_empty id) ∙ ap (λ ks. price_key id ∷ ks) (price_keys ids)

minute_keys :
    (ids : List Bytes) → keys_of (subscribe_candles ids one_minute false) ≡ map minute_key ids
unfolding keys_of subscribe_candles candle_key int_to_string to_digits
minute_keys [] = refl
minute_keys (id ∷ ids) =
    ap (λ x. minute_key x ∷ _) (id_of_empty id) ∙ ap (λ ks. minute_key id ∷ ks) (minute_keys ids)

price_key-injective : (a b : Bytes) → price_key a ≡ price_key b → a ≡ b
price_key-injective a b e = append_cancel_left (codes "last_price|") a b e

minute_key-injective : (a b : Bytes) → minute_key a ≡ minute_key b → a ≡ b
minute_key-injective a b e =
    append_cancel_right a b (codes "|1") (append_cancel_left (codes "candles|") _ _ e)

-- The keys of prices are not those of candles.
no_price_key : (ids : List Bytes) (id : Bytes) → has (map minute_key ids) (price_key id) ≡ false
unfolding has bytes_eq
no_price_key [] id = refl
no_price_key (x ∷ ids) id = no_price_key ids id

price_parts :
    (ids : List Bytes) (j : ℕ) (x : Bytes)
    → get_elem? ids j ≡ some x
    → single (subscribe_last_prices ids) j ≡ subscribe_last_prices (x ∷ [])
unfolding single subscribe_last_prices
price_parts ids j x e =
    ap (λ l. last_price (record { subscription_action = subscribe; instruments = l }))
      (only_at _ j _ (get_elem-map _ ids j x e))

minute_parts :
    (ids : List Bytes) (j : ℕ) (x : Bytes)
    → get_elem? ids j ≡ some x
    → single (subscribe_candles ids one_minute false) j
      ≡ subscribe_candles (x ∷ []) one_minute false
unfolding single subscribe_candles
minute_parts ids j x e =
    ap
      (λ l. candles (record {
        subscription_action = subscribe;
        instruments = l;
        waiting_close = false;
        candle_source_type = none;
      }))
      (only_at _ j _ (get_elem-map _ ids j x e))

quotes_view :
    (arguments : List Bytes) (v : View)
    → let ids = instruments_of arguments in
      let prices = subscribe_last_prices ids in
      let minutes = subscribe_candles ids one_minute false in
      apply_all (quotes_calls arguments) v
      ≡ set_targets minutes (keys_of minutes) 0 (set_targets prices (keys_of prices) 0 v)
unfolding apply_all apply quotes_calls request_of action_of subscribe_last_prices subscribe_candles
quotes_view arguments v = refl

wanted :
    (ids : List Bytes) (v : View) (id : Bytes)
    → has ids id ≡ true
    → let prices = subscribe_last_prices ids in
      let minutes = subscribe_candles ids one_minute false in
      let u = set_targets minutes (keys_of minutes) 0 (set_targets prices (keys_of prices) 0 v) in
      (u (price_key id) ≡ some (subscribe_last_prices (id ∷ [])))
      × (u (minute_key id) ≡ some (subscribe_candles (id ∷ []) one_minute false))
wanted ids v id h =
    let prices = subscribe_last_prices ids in
    let minutes = subscribe_candles ids one_minute false in
    let w = set_targets prices (keys_of prices) 0 v in
    (
      set_targets-other minutes (keys_of minutes) 0 w (price_key id)
            (ap (λ ks. has ks (price_key id)) (minute_keys ids) ∙ no_price_key ids id)
          ∙ set_targets-part prices ids price_key (λ x. subscribe_last_prices (x ∷ [])) v id
              (price_keys ids) price_key-injective (price_parts ids) h,
      set_targets-part minutes ids minute_key (λ x. subscribe_candles (x ∷ []) one_minute false) w
          id (minute_keys ids) minute_key-injective (minute_parts ids) h,
    )

-- In every interleaving of a stream without a worker with its thread and gRPC: once
-- examples/quotes_stream.cpp has made its calls, the registry holds, for each of its instruments, named
-- once or more, a subscription to the last prices of that instrument alone and one to its candles of one
-- minute, not only closed ones, each under its own key.
pub quotes_calls-subscribes :
    (o : StreamOptions) (v t : Threaded) (arguments : List Bytes) (id : Bytes)
    → v.world.stream.worker ≡ false
    → IsRegistry v.world.stream.subscriptions
    → Session o v (quotes_calls arguments) t
    → has (instruments_of arguments) id ≡ true
    → (lookup (price_key id) t.world.stream.subscriptions ≡ some (subscribe_last_prices (id ∷ [])))
      × (lookup (minute_key id) t.world.stream.subscriptions
          ≡ some (subscribe_candles (id ∷ []) one_minute false))
quotes_calls-subscribes o v t arguments id w d p h =
    let r = Session-Reads o v t (quotes_calls arguments) w d p in
    let start = v.world.stream.subscriptions in
    let reads : view_of t.world.stream.subscriptions ≡ _ =
      r.reads ∙ quotes_view arguments (view_of start) in
    let (a, b) = wanted (instruments_of arguments) (view_of start) id h in
    (ap (λ (f : View). f (price_key id)) reads ∙ a, ap (λ (f : View). f (minute_key id)) reads ∙ b)
