-- ===== src/Services/Limits.antt =====
-- From the tariff to the calls: `load_rate_limits` of src/client.cpp, the method names of
-- include/tinvest/services.hpp, the rate limiter and the overloads with a callback.
use tinkoff_invest_sdkv.Prelude.{
  ℕ, zero, suc, ◌+◌, ◌≤◌, ◌<◌, ◌≡◌, refl, sym, ap, ◌∙◌, arith, Bool, true, false, List, [], ◌∷◌,
  ◌++◌, some, Bytes, All, get_elem?, inl, inr,
}
use tinkoff_invest_sdkv.Prelude.Int.{pos_part}
use tinkoff_invest_sdkv.Prelude.Dict.{lookup}
use tinkoff_invest_sdkv.Error.{value}
use tinkoff_invest_sdkv.RateLimiter.{
  Group, RateLimiter, UnaryLimit, new_group, set_limit, configure, configure_all, try_acquire,
  admit,
}
use tinkoff_invest_sdkv.RateLimiter.Serving.{capacity, admit_rolled, admit_granted, admit_refused}
use tinkoff_invest_sdkv.RateLimiter.Bounds.{try_acquire_known, admit_group_self, admit_group_keeps}
use tinkoff_invest_sdkv.RateLimiter.Table.{names, Unnamed, configure_named}
use tinkoff_invest_sdkv.Unary.{Outcome, unary_async}
use tinkoff_invest_sdkv.Unary.Single.{unary_async_lem}
use tinkoff_invest_sdkv.Client.{load_rate_limits}
use tinkoff_invest_sdkv.Services.{Service, path, call_async}
use tinkoff_invest_sdkv.Services.Tables.{Method}

-- Which of the calls of one method, made at the given times, are started.
unfoldable pub started_calls {ℓ} :
    {A : Type ℓ} → RateLimiter → Service → Method → (Bytes → Outcome A) → List ℕ → List Bool
started_calls r s m call [] = []
started_calls r s m call (t ∷ ts) =
    let a = call_async r s m t call in a.started ∷ started_calls a.limiter s m call ts

-- The first n of as many calls, and no other.
unfoldable pub first_of : ℕ → List ℕ → List Bool
first_of n [] = []
first_of zero (t ∷ ts) = false ∷ first_of zero ts
first_of (suc n) (t ∷ ts) = true ∷ first_of n ts

-- The limiter maps a name to a group.
record Serves (r : RateLimiter) (name : Bytes) (id : ℕ) (g : Group) : Type 0 where
  mapped : lookup name r.by_method ≡ some id
  stored : get_elem? r.groups id ≡ some g

started_lem {ℓ} :
    {A : Type ℓ} (r : RateLimiter) (name : Bytes) (now : ℕ) (o : Outcome A)
    → (unary_async r name now o).started ≡ (try_acquire r name now).0
started_lem r name now o = elim ((unary_async_lem r name now o).1) [
  | inl (granted, started, rest) ↦ started ∙ sym granted
  | inr (refused, started, rest) ↦ started ∙ sym refused
]

-- A call asks the group of its name.
acquire_self :
    (r : RateLimiter) (name : Bytes) (id now : ℕ) (g h : Group) (b : Bool)
    → Serves r name id g
    → admit r.window now g ≡ (b, h)
    → ((try_acquire r name now).0 ≡ b)
      × Serves (try_acquire r name now).1 name id h
      × ((try_acquire r name now).1.window ≡ r.window)
acquire_self r name id now g h b v e =
    let known = try_acquire_known r name now id v.mapped in
    let (same, stored) = admit_group_self r id now g v.stored in
    let (table, window) = admit_group_keeps r id now in
    rw known (
      same ∙ ap (λ p. p.0) e,
      record { mapped = ap (lookup name) table ∙ v.mapped; stored = stored ∙ ap (λ p. some p.1) e },
      window,
    )

module _ {ℓ} {A : Type ℓ} (s : Service) (m : Method) (call : Bytes → Outcome A) where
  -- A call and those after it, by what the limiter makes of the first.
  started_step :
      (r : RateLimiter) (id t : ℕ) (ts : List ℕ) (g h : Group) (b : Bool)
      → Serves r (path s m) id g
      → admit r.window t g ≡ (b, h)
      → (u : RateLimiter) × (started_calls r s m call (t ∷ ts) ≡ b ∷ started_calls u s m call ts)
        × Serves u (path s m) id h
        × (u.window ≡ r.window)
  unfolding started_calls call_async
  started_step r id t ts g h b v e =
      let o = call (path s m) in
      let (same, next, window) = acquire_self r (path s m) id t g h b v e in
      let limiter = (unary_async_lem r (path s m) t o).0 in
      (
        (try_acquire r (path s m) t).1,
        ap (λ x. x ∷ started_calls (unary_async r (path s m) t o).limiter s m call ts)
              (started_lem r (path s m) t o ∙ same)
            ∙ ap (λ u. b ∷ started_calls u s m call ts) limiter,
        next,
        window,
      )

  inside_window :
      (left : ℕ) (r : RateLimiter) (id : ℕ) (g : Group) (ts : List ℕ)
      → Serves r (path s m) id g
      → 0 < capacity g
      → left + g.count ≡ capacity g
      → All (λ t. t < g.window_start + r.window) ts
      → started_calls r s m call ts ≡ first_of left ts
  unfolding started_calls first_of
  inside_window left r id g [] v p e h = refl
  inside_window zero r id g (t ∷ ts) v p e (h, hs) =
      let full = admit_refused r.window t g p h (omega arith) in
      let (u, step, next, window) = started_step r id t ts g g false v full in
      step ∙ ap (λ xs. false ∷ xs) (inside_window zero u id g ts next p e (rw window hs))
  inside_window (suc left) r id g (t ∷ ts) v p e (h, hs) =
      let g' = record g { count = g.count + 1 } in
      let granted = admit_granted r.window t g p h (omega arith) in
      let (u, step, next, window) = started_step r id t ts g g' true v granted in
      step
      ∙ ap (λ xs. true ∷ xs) (inside_window left u id g' ts next p (omega arith) (rw window hs))

configure_all-window :
    (r : RateLimiter) (ls : List UnaryLimit) → (configure_all r ls).window ≡ r.window
unfolding configure_all set_limit
configure_all-window r [] = refl
configure_all-window r (l ∷ ls) = configure_all-window (set_limit r l.methods l.limit_per_minute) ls

-- After a tariff was loaded whose last entry for a method has the limit n > 0, of the calls of the
-- method in one window, from the first call on, just the first n are started, and the client itself
-- refuses the others.
pub loaded_limits {ℓ} :
    {A : Type ℓ} (s : Service) (m : Method) (call : Bytes → Outcome A) (r : RateLimiter)
    (ks ls : List UnaryLimit) (l : UnaryLimit) (t : ℕ) (ts : List ℕ)
    → names l.methods (path s m) ≡ true
    → Unnamed (path s m) ls
    → 0 < pos_part l.limit_per_minute
    → r.window ≤ t
    → All (λ u. u < t + r.window) ts
    → started_calls (load_rate_limits r (value (ks ++ l ∷ ls))).0 s m call (t ∷ ts)
      ≡ first_of (pos_part l.limit_per_minute) (t ∷ ts)
unfolding load_rate_limits
loaded_limits s m call r ks ls l t ts h u p w hs =
    let c = configure r (ks ++ l ∷ ls) in
    let (id, stored, mapped) = configure_named r ks ls l in
    let same : c.window ≡ r.window =
      unfold configure in (configure_all-window (record r { by_method = [] }) (ks ++ l ∷ ls)) in
    let serves : Serves c (path s m) id (new_group l.limit_per_minute) = record {
      mapped = mapped (path s m) h u;
      stored = stored;
    } in
    first_call (pos_part l.limit_per_minute) c id serves refl same
  where
    first_call :
        (n : ℕ) (c : RateLimiter) (id : ℕ)
        → Serves c (path s m) id (new_group l.limit_per_minute)
        → pos_part l.limit_per_minute ≡ n
        → c.window ≡ r.window
        → started_calls c s m call (t ∷ ts) ≡ first_of n (t ∷ ts)
    first_call zero c id v e same = absurd (omega arith)
    first_call (suc n) c id v e same =
        let g = record (new_group l.limit_per_minute) { window_start = t; count = 1 } in
        let rolled =
          admit_rolled c.window t (new_group l.limit_per_minute) p (omega (arith, same)) in
        let (d, step, next, window) = started_step s m call c id t ts _ g true v rolled in
        step
        ∙ unfold first_of in
          (ap (λ xs. true ∷ xs)
            (inside_window s m call n d id g ts next p (omega arith) (rw (window, same) hs)))
