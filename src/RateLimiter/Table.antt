-- ===== src/RateLimiter/Table.antt =====
-- What `set_limit` and `configure` of include/tinvest/rate_limiter.hpp put into the method table.
use tinkoff_invest_sdkv.Prelude.{
  ℕ, ◌≡◌, refl, ap, ◌∙◌, inr, arith, Bool, true, false, ◌||◌, if◌then◌else◌, List, [], ◌∷◌, ◌++◌,
  some, Bytes, bytes_eq, All, All-append, length, get_elem?, get_elem?-append_left,
  get_elem?-append_length,
}
use tinkoff_invest_sdkv.Prelude.Int.{ℤ}
use tinkoff_invest_sdkv.Prelude.Dict.{Dict, lookup, insert, lookup-insert}
use tinkoff_invest_sdkv.RateLimiter.{
  Group, RateLimiter, UnaryLimit, normalize, new_group, assign, set_limit, configure, configure_all,
  try_acquire,
}
use tinkoff_invest_sdkv.RateLimiter.Bounds.{IsLimited, IsValid, try_acquire_unknown}

-- Whether a method is among those that are named, with or without a slash.
unfoldable pub names : List Bytes → Bytes → Bool
names [] m = false
names (n ∷ ns) m = bytes_eq (normalize n) m || names ns m

lookup-assign :
    (ms : List Bytes) (m : Bytes) (id : ℕ) (table : Dict ℕ)
    → lookup m (assign ms id table) ≡ (if names ms m then some id else lookup m table)
unfolding assign names
lookup-assign [] m id table = refl
lookup-assign (n ∷ ms) m id table =
    lookup-assign ms m id (insert (normalize n) id table)
    ∙ ground (arith, lookup-insert (normalize n) m id table)

-- `set_limit` maps just the methods that it names to one new group, which starts empty; every other
-- method keeps its group, and every old group its state.
pub set_limit_lem :
    (r : RateLimiter) (ms : List Bytes) (per_minute : ℤ) (m : Bytes)
    → let s = set_limit r ms per_minute in
      (lookup m s.by_method ≡ (if names ms m then some (length r.groups) else lookup m r.by_method))
      × (get_elem? s.groups (length r.groups) ≡ some (new_group per_minute))
      × ((id : ℕ) (g : Group) → get_elem? r.groups id ≡ some g → get_elem? s.groups id ≡ some g)
unfolding set_limit
set_limit_lem r ms per_minute m = (
  lookup-assign ms m (length r.groups) r.by_method,
  get_elem?-append_length r.groups [] (new_group per_minute),
  λ id g e. get_elem?-append_left r.groups (new_group per_minute ∷ []) id g e,
)

-- No later entry of the tariff names the method.
abbrev pub Unnamed : Bytes → List UnaryLimit → Type 0
Unnamed m = All λ (l : UnaryLimit). names l.methods m ≡ false

configure_all-Unnamed :
    (r : RateLimiter) (ls : List UnaryLimit) (m : Bytes)
    → Unnamed m ls
    → lookup m (configure_all r ls).by_method ≡ lookup m r.by_method
unfolding configure_all
configure_all-Unnamed r [] m h = refl
configure_all-Unnamed r (l ∷ ls) m (h, hs) =
    let s = set_limit r l.methods l.limit_per_minute in
    configure_all-Unnamed s ls m hs
    ∙ ground (arith, (set_limit_lem r l.methods l.limit_per_minute m).0)

configure_all-groups :
    (r : RateLimiter) (ls : List UnaryLimit) (id : ℕ) (g : Group)
    → get_elem? r.groups id ≡ some g
    → get_elem? (configure_all r ls).groups id ≡ some g
unfolding configure_all
configure_all-groups r [] id g e = e
configure_all-groups r (l ∷ ls) id g e =
    configure_all-groups (set_limit r l.methods l.limit_per_minute) ls id g
      ((set_limit_lem r l.methods l.limit_per_minute []).2 id g e)

configure_all-append :
    (r : RateLimiter) (ks ls : List UnaryLimit)
    → configure_all r (ks ++ ls) ≡ configure_all (configure_all r ks) ls
unfolding configure_all
configure_all-append r [] ls = refl
configure_all-append r (k ∷ ks) ls =
    configure_all-append (set_limit r k.methods k.limit_per_minute) ks ls

-- After `configure` a method that the tariff does not name is not limited: `try_acquire` lets it
-- through and changes nothing, whatever was configured before.
pub configure-Unnamed :
    (r : RateLimiter) (ls : List UnaryLimit) (m : Bytes) (now : ℕ)
    → Unnamed m ls
    → try_acquire (configure r ls) m now ≡ (true, configure r ls)
configure-Unnamed r ls m now h =
    try_acquire_unknown (configure r ls) m now
      (unfold configure lookup in (configure_all-Unnamed (record r { by_method = [] }) ls m h))

-- All methods of one entry of the tariff share one group with the entry's limit and an empty window,
-- but those that a later entry names again.
pub configure_named :
    (r : RateLimiter) (ks ls : List UnaryLimit) (l : UnaryLimit)
    → (id : ℕ) × (get_elem? (configure r (ks ++ l ∷ ls)).groups id
        ≡ some (new_group l.limit_per_minute))
      × ((m : Bytes)
          → names l.methods m ≡ true
          → Unnamed m ls
          → lookup m (configure r (ks ++ l ∷ ls)).by_method ≡ some id)
unfolding configure
configure_named r ks ls l =
    let s = configure_all (record r { by_method = [] }) ks in
    let t = set_limit s l.methods l.limit_per_minute in
    let e = configure_all-append (record r { by_method = [] }) ks (l ∷ ls) in
    (
      length s.groups,
      ap (λ (c : RateLimiter). get_elem? c.groups (length s.groups)) e
          ∙ unfold configure_all in
            (configure_all-groups t ls (length s.groups) (new_group l.limit_per_minute)
              (set_limit_lem s l.methods l.limit_per_minute []).1),
      λ m h u.
          ap (λ (c : RateLimiter). lookup m c.by_method) e
          ∙ unfold configure_all in
            (configure_all-Unnamed t ls m u
              ∙ (set_limit_lem s l.methods l.limit_per_minute m).0
              ∙ ap (λ b. if b then some (length s.groups) else lookup m s.by_method) h),
    )

-- `set_limit` and `configure` keep every counter within its limit.
set_limit-IsValid :
    (r : RateLimiter) (ms : List Bytes) (n : ℤ) → IsValid r → IsValid (set_limit r ms n)
unfolding set_limit
set_limit-IsValid r ms n v =
    All-append IsLimited r.groups (new_group n ∷ []) v (inr (omega arith), tt)

configure_all-IsValid :
    (r : RateLimiter) (ls : List UnaryLimit) → IsValid r → IsValid (configure_all r ls)
unfolding configure_all
configure_all-IsValid r [] v = v
configure_all-IsValid r (l ∷ ls) v =
    configure_all-IsValid (set_limit r l.methods l.limit_per_minute) ls
      (set_limit-IsValid r l.methods l.limit_per_minute v)

pub configure-IsValid :
    (r : RateLimiter) (ls : List UnaryLimit) → IsValid r → IsValid (configure r ls)
unfolding configure
configure-IsValid r ls v = configure_all-IsValid (record r { by_method = [] }) ls v

pub configure-groups :
    (r : RateLimiter) (ls : List UnaryLimit) (id : ℕ) (g : Group)
    → get_elem? r.groups id ≡ some g
    → get_elem? (configure r ls).groups id ≡ some g
unfolding configure
configure-groups r ls id g e = configure_all-groups (record r { by_method = [] }) ls id g e
