-- ===== src/MarketData/RegistryLaws.antt =====
-- The registry of src/market_data_stream.cpp stays well formed, and sending its requests in order to
-- a fresh stream, as every reconnection does, makes the same registry again.
use mathlib.Core.List.{append_assoc}
use tinkoff_invest_sdkv.Prelude.{
  ℕ, ◌+◌, ◌≡◌, refl, sym, ap, ◌∙◌, inl, inr, arith, Bool, false, ◌||◌, if◌then◌else◌, List, [], ◌∷◌,
  ◌++◌, Option, none, some, Bytes, bytes_eq, bytes_eq_iff, length, length-append, get_elem?,
  get_elem?-append_length, Bool-cases,
}
use tinkoff_invest_sdkv.Prelude.Dict.{lookup, insert, erase, values, lookup-insert, lookup-erase}
use tinkoff_invest_sdkv.Prelude.Sorted.{insert-IsSorted, erase-IsSorted, lookup_below}
use tinkoff_invest_sdkv.MarketData.Requests.{
  MarketDataRequest, SubscriptionAction, unspecified, subscribe, unsubscribe, single, keys_of,
  action_of,
}
use tinkoff_invest_sdkv.MarketData.Registry.{
  Registry, remember_from, remember, forget_all, forget, update, replay, IsEntry, IsRegistry,
  single-IsEntry, insert-entries, erase-entries,
}

insert-IsRegistry :
    (k : Bytes) (r : MarketDataRequest) (d : Registry)
    → IsEntry k r
    → IsRegistry d
    → IsRegistry (insert k r d)
insert-IsRegistry k r d h v = record {
  sorted = insert-IsSorted k r d v.sorted;
  entries = insert-entries k r d h v.entries;
}

remember_from-IsRegistry :
    (r : MarketDataRequest) (before ks : List Bytes) (i : ℕ) (d : Registry)
    → action_of r ≡ subscribe
    → before ++ ks ≡ keys_of r
    → length before ≡ i
    → IsRegistry d
    → IsRegistry (remember_from r ks i d)
unfolding remember_from
remember_from-IsRegistry r before [] i d a e l v = v
remember_from-IsRegistry r before (k ∷ ks) i d a e l v =
    let here : get_elem? (keys_of r) i ≡ some k =
      ap (λ xs. get_elem? xs i) (sym e)
      ∙ ap (get_elem? (before ++ k ∷ ks)) (sym l)
      ∙ get_elem?-append_length before ks k in
    remember_from-IsRegistry r (before ++ k ∷ []) ks (i + 1) (insert k (single r i) d) a
      (append_assoc before (k ∷ []) ks ∙ e) (omega (arith, length-append {0} before (k ∷ [])))
      (insert-IsRegistry k (single r i) d (single-IsEntry r i k a here) v)

forget_all-IsRegistry :
    (ks : List Bytes) (d : Registry) → IsRegistry d → IsRegistry (forget_all ks d)
unfolding forget_all
forget_all-IsRegistry [] d v = v
forget_all-IsRegistry (k ∷ ks) d v =
    forget_all-IsRegistry ks (erase k d)
      (record { sorted = erase-IsSorted k d v.sorted; entries = erase-entries k d v.entries })

-- Every request that `send` remembers keeps the registry well formed: keys ascend, and each holds a
-- subscription to its own instrument alone.
pub update-IsRegistry :
    (d : Registry) (r : MarketDataRequest) → IsRegistry d → IsRegistry (update d r)
unfolding update remember forget
update-IsRegistry d r v = go (action_of r) refl
  where
    go : (a : SubscriptionAction) → action_of r ≡ a → IsRegistry (update d r)
    go subscribe e = rw (e, update) (remember_from-IsRegistry r [] (keys_of r) 0 d e refl refl v)
    go unsubscribe e = rw (e, update) (forget_all-IsRegistry (keys_of r) d v)
    go unspecified e = rw (e, update) v

-- An entry is stored again under its own key.
update-entry :
    (k : Bytes) (r : MarketDataRequest) (d : Registry) → IsEntry k r → update d r ≡ insert k r d
unfolding update remember remember_from
update-entry k r d h =
    rw (h.subscribes, update)
      (ap (λ ks. remember_from r ks 0 d) h.key ∙ ap (λ s. insert k s d) h.alone)

-- The first value that two lookups find.
abbrev or_else {ℓ} : {A : Type ℓ} → Option A → Option A → Option A
or_else (some a) o = some a
or_else none o = o

or_else-none {ℓ} : {A : Type ℓ} (o : Option A) → or_else o none ≡ o
or_else-none none = refl
or_else-none (some a) = refl

replay-values-from :
    (d c : Registry) (k : Bytes)
    → IsRegistry d
    → lookup k (replay c (values d)) ≡ or_else (lookup k d) (lookup k c)
unfolding replay lookup
replay-values-from [] c k v = refl
replay-values-from ((j, r) ∷ d) c k v =
    let ih =
      replay-values-from d (insert j r c) k
        (record { sorted = v.sorted.1; entries = v.entries.1 }) in
    let start = ap (λ x. lookup k (replay x (values d))) (update-entry j r c v.entries.0) in
    start ∙ ih ∙ elim (Bool-cases (bytes_eq j k)) [
      | inl e ↦
          let gone : lookup k d ≡ none =
            ap (λ i. lookup i d) (sym ((bytes_eq_iff j k).0 e)) ∙ lookup_below j d v.sorted.0 in
          rw (e, gone) (lookup-insert j k r c ∙ ap (λ b. if b then some r else lookup k c) e)
      | inr e ↦ rw e (
          ap (or_else (lookup k d))
            (lookup-insert j k r c ∙ ap (λ b. if b then some r else lookup k c) e))
    ]

-- The requests that a reconnection sends amount to the registry that they were taken from.
pub replay-values :
    (d : Registry) (k : Bytes) → IsRegistry d → lookup k (replay [] (values d)) ≡ lookup k d
replay-values d k v = replay-values-from d [] k v ∙ unfold lookup in (or_else-none (lookup k d))

-- Two registries that answer alike.
abbrev pub SameMap : Registry → Registry → Type 0
SameMap c d = (k : Bytes) → lookup k c ≡ lookup k d

insert-SameMap :
    (j : Bytes) (r : MarketDataRequest) (c d : Registry)
    → SameMap c d
    → SameMap (insert j r c) (insert j r d)
insert-SameMap j r c d s k =
    lookup-insert j k r c
    ∙ ap (λ o. if bytes_eq j k then some r else o) (s k)
    ∙ sym (lookup-insert j k r d)

erase-SameMap : (j : Bytes) (c d : Registry) → SameMap c d → SameMap (erase j c) (erase j d)
erase-SameMap j c d s k =
    lookup-erase j k c ∙ ap (λ o. if bytes_eq j k then none else o) (s k) ∙ sym (lookup-erase j k d)

remember_from-SameMap :
    (r : MarketDataRequest) (ks : List Bytes) (i : ℕ) (c d : Registry)
    → SameMap c d
    → SameMap (remember_from r ks i c) (remember_from r ks i d)
unfolding remember_from
remember_from-SameMap r [] i c d s = s
remember_from-SameMap r (k ∷ ks) i c d s =
    remember_from-SameMap r ks (i + 1) (insert k (single r i) c) (insert k (single r i) d)
      (insert-SameMap k (single r i) c d s)

forget_all-SameMap :
    (ks : List Bytes) (c d : Registry) → SameMap c d → SameMap (forget_all ks c) (forget_all ks d)
unfolding forget_all
forget_all-SameMap [] c d s = s
forget_all-SameMap (k ∷ ks) c d s =
    forget_all-SameMap ks (erase k c) (erase k d) (erase-SameMap k c d s)

-- `send` treats them alike.
pub update-SameMap :
    (r : MarketDataRequest) (c d : Registry) → SameMap c d → SameMap (update c r) (update d r)
unfolding update remember forget
update-SameMap r c d s = go (action_of r) refl
  where
    go : (a : SubscriptionAction) → action_of r ≡ a → SameMap (update c r) (update d r)
    go subscribe e = rw (e, update) (remember_from-SameMap r (keys_of r) 0 c d s)
    go unsubscribe e = rw (e, update) (forget_all-SameMap (keys_of r) c d s)
    go unspecified e = rw (e, update) s

pub replay-append :
    (d : Registry) (rs ss : List MarketDataRequest) → replay d (rs ++ ss) ≡ replay (replay d rs) ss
unfolding replay
replay-append d [] ss = refl
replay-append d (r ∷ rs) ss = replay-append (update d r) rs ss

-- Whether a key is listed.
unfoldable pub has : List Bytes → Bytes → Bool
has [] k = false
has (j ∷ js) k = bytes_eq j k || has js k

pub lookup-forget_all :
    (ks : List Bytes) (k : Bytes) (d : Registry)
    → lookup k (forget_all ks d) ≡ (if has ks k then none else lookup k d)
unfolding forget_all has
lookup-forget_all [] k d = refl
lookup-forget_all (j ∷ js) k d =
    lookup-forget_all js k (erase j d) ∙ ground (arith, lookup-erase j k d)

pub lookup-remember_other :
    (r : MarketDataRequest) (ks : List Bytes) (i : ℕ) (k : Bytes) (d : Registry)
    → has ks k ≡ false
    → lookup k (remember_from r ks i d) ≡ lookup k d
unfolding remember_from has
lookup-remember_other r [] i k d h = refl
lookup-remember_other r (j ∷ js) i k d h =
    lookup-remember_other r js (i + 1) k (insert j (single r i) d) (ground arith)
    ∙ ground (arith, lookup-insert j k (single r i) d)

pub update-subscribe :
    (d : Registry) (r : MarketDataRequest) → action_of r ≡ subscribe → update d r ≡ remember d r
unfolding update
update-subscribe d r e = rw (e, update) refl

update-unsubscribe :
    (d : Registry) (r : MarketDataRequest) → action_of r ≡ unsubscribe → update d r ≡ forget d r
unfolding update
update-unsubscribe d r e = rw (e, update) refl

-- An unsubscription from the targets of a subscription takes it out of the registry, whatever its
-- options were, and touches no other key.
pub update_cancels :
    (d : Registry) (r u : MarketDataRequest) (k : Bytes)
    → action_of r ≡ subscribe
    → action_of u ≡ unsubscribe
    → keys_of u ≡ keys_of r
    → lookup k (update (update d r) u) ≡ (if has (keys_of r) k then none else lookup k d)
unfolding remember forget
update_cancels d r u k a b e =
    rw (update-unsubscribe (update d r) u b, e, update-subscribe d r a)
      (lookup-forget_all (keys_of r) k (remember_from r (keys_of r) 0 d)
        ∙ elim (Bool-cases (has (keys_of r) k)) [
          | inl h ↦ rw h refl
          | inr h ↦ rw h (lookup-remember_other r (keys_of r) 0 k d h)
        ])
