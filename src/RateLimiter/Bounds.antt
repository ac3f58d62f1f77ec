-- ===== src/RateLimiter/Bounds.antt =====
-- How many calls include/tinvest/rate_limiter.hpp lets through.
use tinkoff_invest_sdkv.Prelude.{
  ℕ, ◌+◌, ◌*◌, ◌≤◌, ◌<◌, ◌≡◌, ◌≢◌, refl, sym, ap, ◌∙◌, ◌⊎◌, arith, inl, inr, Bool, true, false,
  ◌&&◌, if◌then◌else◌, ◌==◌, List, [], ◌∷◌, Option, none, some, Bytes, All, get_elem?,
  get_elem?-set_self, get_elem?-set_ne, Option-cases, Bool-cases, All-set, All-get_elem?,
}
use native.Mathlib.Decide.{ℕ_discrete}
use native.Mathlib.Nat.{le_refl}
use tinkoff_invest_sdkv.Prelude.Dict.{Dict, lookup}
use tinkoff_invest_sdkv.RateLimiter.{Group, RateLimiter, admit, admit_group, try_acquire, store}
use tinkoff_invest_sdkv.RateLimiter.Serving.{
  serve, capacity, IsWithin, Between, serve_same_window, Between-Before, serve_bound,
}

-- A call of the limiter: the method and the clock reading.
pub record Call : Type 0 where
  pub method : Bytes
  pub now : ℕ

unfoldable hits : Option ℕ → ℕ → Bool
hits none id = false
hits (some i) id = i == id

-- The times of the calls whose method the table maps to a group.
times_of : Dict ℕ → ℕ → List Call → List ℕ
times_of table id [] = []
times_of table id (c ∷ cs) =
    if hits (lookup c.method table) id then c.now ∷ times_of table id cs else times_of table id cs

-- How many of the calls `try_acquire` grants on that group.
unfoldable pub grants : RateLimiter → ℕ → List Call → ℕ
unfolding hits
grants r id [] = 0
grants r id (c ∷ cs) =
    let (granted, s) = try_acquire r c.method c.now in
    (if granted && hits (lookup c.method r.by_method) id then 1 else 0) + grants s id cs

pub admit_group_keeps :
    (r : RateLimiter) (i now : ℕ)
    → ((admit_group r i now).1.by_method ≡ r.by_method)
      × ((admit_group r i now).1.window ≡ r.window)
unfolding admit_group store
admit_group_keeps r i now = ground arith

pub try_acquire_unknown :
    (r : RateLimiter) (m : Bytes) (now : ℕ)
    → lookup m r.by_method ≡ none
    → try_acquire r m now ≡ (true, r)
unfolding try_acquire
try_acquire_unknown r m now e = rw (e, try_acquire) refl

pub try_acquire_known :
    (r : RateLimiter) (m : Bytes) (now i : ℕ)
    → lookup m r.by_method ≡ some i
    → try_acquire r m now ≡ admit_group r i now
unfolding try_acquire
try_acquire_known r m now i e = rw (e, try_acquire) refl

pub admit_group_self :
    (r : RateLimiter) (id now : ℕ) (g : Group)
    → get_elem? r.groups id ≡ some g
    → ((admit_group r id now).0 ≡ (admit r.window now g).0)
      × (get_elem? (admit_group r id now).1.groups id ≡ some (admit r.window now g).1)
unfolding admit_group store
admit_group_self r id now g e =
    rw (e, admit_group) (refl, get_elem?-set_self r.groups id (admit r.window now g).1 g e)

admit_group_ne :
    (r : RateLimiter) (i id now : ℕ)
    → i ≢ id
    → get_elem? (admit_group r i now).1.groups id ≡ get_elem? r.groups id
unfolding admit_group store
admit_group_ne r i id now h = elim (Option-cases (get_elem? r.groups i)) [
  | inl e ↦ rw (e, admit_group) refl
  | inr (g, e) ↦ rw (e, admit_group) (get_elem?-set_ne r.groups i id _ h)
]

-- The grants on a group are those of the group alone, at the times of the calls that map to it.
grants-serve :
    (window : ℕ) (table : Dict ℕ) (r : RateLimiter) (id : ℕ) (g : Group) (cs : List Call)
    → r.window ≡ window
    → r.by_method ≡ table
    → get_elem? r.groups id ≡ some g
    → grants r id cs ≡ serve window g (times_of table id cs)
unfolding grants serve times_of
grants-serve window table r id g [] w b e = refl
grants-serve window table r id g (c ∷ cs) w b e =
    elim (Option-cases (lookup c.method r.by_method)) [
      | inl l ↦
          let l' : lookup c.method table ≡ none = ap (lookup c.method) (sym b) ∙ l in
          rw (l, l', try_acquire_unknown r c.method c.now l)
            (omega (arith, grants-serve window table r id g cs w b e))
      | inr (i, l) ↦
          let l' : lookup c.method table ≡ some i = ap (lookup c.method) (sym b) ∙ l in
          let s = (admit_group r i c.now).1 in
          let (kb, kw) = admit_group_keeps r i c.now in
          rw (l, l', try_acquire_known r c.method c.now i l)
            (elim (ℕ_discrete i id) [
              | yes h ↦
                  let t : (i == id) ≡ true = ground arith in
                  let e' : get_elem? r.groups i ≡ some g = rw h e in
                  let (same, next) = admit_group_self r i c.now g e' in
                  let next' : get_elem? s.groups id ≡ some (admit window c.now g).1 =
                    ap (get_elem? s.groups) (sym h) ∙ next ∙ ap (λ v. some (admit v c.now g).1) w in
                  let ih =
                    grants-serve window table s id (admit window c.now g).1 cs (kw ∙ w) (kb ∙ b)
                      next' in
                  let same' = same ∙ ap (λ v. (admit v c.now g).0) w in
                  rw (t, same') (ground (arith, ih))
              | no h ↦
                  let t : (i == id) ≡ false = ground arith in
                  let e' = admit_group_ne r i id c.now h ∙ e in
                  let ih = grants-serve window table s id g cs (kw ∙ w) (kb ∙ b) e' in
                  rw t (ground (arith, ih))
            ])
    ]

-- The times of the calls lie in a stretch as long as the window.
abbrev pub InStretch : ℕ → ℕ → List Call → Type 0
InStretch a b = All (λ (c : Call). (a ≤ c.now) × (c.now < b))

times_of-Between :
    (table : Dict ℕ) (id a b : ℕ) (cs : List Call)
    → InStretch a b cs
    → Between a b (times_of table id cs)
unfolding times_of
times_of-Between table id a b [] h = tt
times_of-Between table id a b (c ∷ cs) (h, hs) =
    elim (Bool-cases (hits (lookup c.method table) id)) [
      | inl t ↦ rw t (h, times_of-Between table id a b cs hs)
      | inr t ↦ rw t (times_of-Between table id a b cs hs)
    ]

-- In any stretch of time as long as the window, whatever methods are called in whatever order, a
-- group lets at most twice its limit through.
pub grants_bound :
    (r : RateLimiter) (id a : ℕ) (g : Group) (cs : List Call)
    → get_elem? r.groups id ≡ some g
    → 0 < capacity g
    → IsWithin g
    → InStretch a (a + r.window) cs
    → grants r id cs ≤ 2 * capacity g
grants_bound r id a g cs e p v h = omega (
  arith,
  grants-serve r.window r.by_method r id g cs refl refl e,
  serve_bound r.window a g (times_of r.by_method id cs) p v
      (times_of-Between r.by_method id a (a + r.window) cs h),
)

-- And until the current window is over it lets no more through than the limit leaves.
pub grants_same_window :
    (r : RateLimiter) (id : ℕ) (g : Group) (cs : List Call)
    → get_elem? r.groups id ≡ some g
    → 0 < capacity g
    → IsWithin g
    → InStretch 0 (g.window_start + r.window) cs
    → grants r id cs + g.count ≤ capacity g
grants_same_window r id g cs e p v h =
    let ts = times_of r.by_method id cs in
    let end = g.window_start + r.window in
    omega (
      arith,
      grants-serve r.window r.by_method r id g cs refl refl e,
      serve_same_window r.window g ts p v
          (Between-Before 0 end ts (times_of-Between r.by_method id 0 end cs h) end (le_refl end)),
    )

-- The invariant that the two bounds start from.
abbrev pub IsLimited : Group → Type 0
IsLimited g = (capacity g ≡ 0) ⊎ IsWithin g

abbrev pub IsValid : RateLimiter → Type 0
IsValid r = All IsLimited r.groups

admit-IsLimited : (window now : ℕ) (g : Group) → IsLimited g → IsLimited (admit window now g).1
unfolding admit
admit-IsLimited window now g v = ground arith

-- No call of `try_acquire` lets a counter pass its limit.
pub try_acquire-IsValid :
    (r : RateLimiter) (m : Bytes) (now : ℕ) → IsValid r → IsValid (try_acquire r m now).1
unfolding admit_group store
try_acquire-IsValid r m now v = elim (Option-cases (lookup m r.by_method)) [
  | inl l ↦ rw (try_acquire_unknown r m now l) v
  | inr (id, l) ↦ rw (try_acquire_known r m now id l) (elim (Option-cases (get_elem? r.groups id)) [
    | inl e ↦ rw (e, admit_group) v
    | inr (g, e) ↦
        rw (e, admit_group)
          (All-set IsLimited r.groups id (admit r.window now g).1 v
            (admit-IsLimited r.window now g (All-get_elem? IsLimited r.groups id g v e)))
  ])
]
