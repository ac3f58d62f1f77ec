-- ===== src/MarketData/Registry.antt =====
-- The registry of subscriptions of src/market_data_stream.cpp: `remember_locked`, `forget_locked` and
-- the part of `send` that chooses between them.
use tinkoff_invest_sdkv.Prelude.{
  ℕ, ◌+◌, ◌≡◌, refl, ap, inl, inr, List, [], ◌∷◌, some, Bytes, bytes_eq, All, get_elem?,
  get_elem?-map, Bool-cases, bytes_lt,
}
use tinkoff_invest_sdkv.Prelude.Dict.{Dict, insert, erase}
use tinkoff_invest_sdkv.Prelude.Sorted.{IsSorted}
use tinkoff_invest_sdkv.MarketData.Requests.{
  MarketDataRequest, candles, order_book, trades, info, last_price, get_my_subscriptions, other,
  not_set, unspecified, subscribe, unsubscribe, single, only, keys_of, action_of, candle_key,
  order_book_key,
}

abbrev pub Registry : Type 0
Registry = Dict MarketDataRequest

-- The loop of `remember_locked` from index i.
unfoldable pub remember_from : MarketDataRequest → List Bytes → ℕ → Registry → Registry
remember_from r [] i d = d
remember_from r (k ∷ ks) i d = remember_from r ks (i + 1) (insert k (single r i) d)

unfoldable pub remember : Registry → MarketDataRequest → Registry
remember d r = remember_from r (keys_of r) 0 d

unfoldable pub forget_all : List Bytes → Registry → Registry
forget_all [] d = d
forget_all (k ∷ ks) d = forget_all ks (erase k d)

unfoldable pub forget : Registry → MarketDataRequest → Registry
forget d r = forget_all (keys_of r) d

-- What `send` does to the registry when it is to remember the request.
unfoldable pub update : Registry → MarketDataRequest → Registry
update d r = elim (action_of r) [
  | subscribe ↦ remember d r
  | unsubscribe ↦ forget d r
  | unspecified ↦ d
]

-- The subscriptions that a sequence of requests amounts to.
unfoldable pub replay : Registry → List MarketDataRequest → Registry
replay d [] = d
replay d (r ∷ rs) = replay (update d r) rs

-- What the registry holds under a key: a subscription to the key's instrument alone.
pub record IsEntry (k : Bytes) (r : MarketDataRequest) : Type 0 where
  pub key : keys_of r ≡ k ∷ []
  pub subscribes : action_of r ≡ subscribe
  pub alone : single r 0 ≡ r

pub record IsRegistry (d : Registry) : Type 0 where
  pub sorted : IsSorted d
  pub entries : All (λ e. IsEntry e.0 e.1) d

pub only_at :
    {I : Type 0} (xs : List I) (i : ℕ) (x : I) → get_elem? xs i ≡ some x → only xs i ≡ x ∷ []
unfolding only
only_at xs i x e = rw (e, only) refl

-- A request cut down to one instrument is an entry under that instrument's key.
pub single-IsEntry :
    (r : MarketDataRequest) (i : ℕ) (k : Bytes)
    → action_of r ≡ subscribe
    → get_elem? (keys_of r) i ≡ some k
    → IsEntry k (single r i)
unfolding single keys_of action_of
single-IsEntry (candles p) i k a h =
    let (x, e, f) = get_elem?-map candle_key p.instruments i k h in
    rw (only_at p.instruments i x e)
      (record { key = ap (λ j. j ∷ []) f; subscribes = a; alone = refl })
single-IsEntry (order_book p) i k a h =
    let (x, e, f) = get_elem?-map order_book_key p.instruments i k h in
    rw (only_at p.instruments i x e)
      (record { key = ap (λ j. j ∷ []) f; subscribes = a; alone = refl })
single-IsEntry (trades p) i k a h =
    let (x, e, f) = get_elem?-map _ p.instruments i k h in
    rw (only_at p.instruments i x e)
      (record { key = ap (λ j. j ∷ []) f; subscribes = a; alone = refl })
single-IsEntry (info p) i k a h =
    let (x, e, f) = get_elem?-map _ p.instruments i k h in
    rw (only_at p.instruments i x e)
      (record { key = ap (λ j. j ∷ []) f; subscribes = a; alone = refl })
single-IsEntry (last_price p) i k a h =
    let (x, e, f) = get_elem?-map _ p.instruments i k h in
    rw (only_at p.instruments i x e)
      (record { key = ap (λ j. j ∷ []) f; subscribes = a; alone = refl })
single-IsEntry get_my_subscriptions i k a h = cc
single-IsEntry other i k a h = cc
single-IsEntry not_set i k a h = cc

pub insert-entries :
    (k : Bytes) (r : MarketDataRequest) (d : Registry)
    → IsEntry k r
    → All (λ e. IsEntry e.0 e.1) d
    → All (λ e. IsEntry e.0 e.1) (insert k r d)
unfolding insert
insert-entries k r [] h a = (h, tt)
insert-entries k r ((j, s) ∷ d) h (b, a) = elim (Bool-cases (bytes_eq j k)) [
  | inl e ↦ rw e (h, a)
  | inr e ↦ rw e (elim (Bool-cases (bytes_lt k j)) [
    | inl l ↦ rw l (h, (b, a))
    | inr l ↦ rw l (b, insert-entries k r d h a)
  ])
]

pub erase-entries :
    (k : Bytes) (d : Registry)
    → All (λ e. IsEntry e.0 e.1) d
    → All (λ e. IsEntry e.0 e.1) (erase k d)
unfolding erase
erase-entries k [] a = tt
erase-entries k ((j, s) ∷ d) (b, a) = elim (Bool-cases (bytes_eq j k)) [
  | inl e ↦ rw e (erase-entries k d a)
  | inr e ↦ rw e (b, erase-entries k d a)
]
