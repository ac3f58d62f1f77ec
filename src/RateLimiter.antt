-- ===== src/RateLimiter.antt =====
-- `class RateLimiter` of include/tinvest/rate_limiter.hpp. Each method runs under the mutex and is a
-- function of the whole state; the clock reading is an argument. The shared groups are cells of a
-- store, so that methods of one group alias one counter, also in a call that still waits on a group
-- which has left the table.
pub mod Serving
pub mod Bounds
pub mod Table
pub mod Waiting
mod Examples
use tinkoff_invest_sdkv.Prelude.{
  ℕ, zero, suc, ◌+◌, Bool, true, false, not, if◌then◌else◌, leb, ◌==◌, List, [], ◌∷◌, ◌++◌, Option,
  none, some, Bytes, length, get_elem?, set,
}
use tinkoff_invest_sdkv.Prelude.Int.{ℤ, pos, ltb_ℤ, leb_ℤ}
use tinkoff_invest_sdkv.Prelude.Dict.{Dict, lookup, insert}

pub record Group : Type 0 where
  pub limit : ℤ
  pub count : ℕ
  pub window_start : ℕ

pub record RateLimiter : Type 0 where
  pub window : ℕ
  pub groups : List Group
  pub by_method : Dict ℕ

pub record UnaryLimit : Type 0 where
  pub limit_per_minute : ℤ
  pub methods : List Bytes

-- The leading slash of a method name goes.
unfoldable pub normalize : Bytes → Bytes
normalize [] = []
normalize (c ∷ s) = if c == b'/' then s else c ∷ s

abbrev pub new_group : ℤ → Group
new_group limit = record { limit = limit; count = 0; window_start = 0 }

-- `for (const auto& m : methods) by_method_[normalize(m)] = group`.
unfoldable pub assign : List Bytes → ℕ → Dict ℕ → Dict ℕ
assign [] group table = table
assign (m ∷ ms) group table = assign ms group (insert (normalize m) group table)

-- `set_limit`: one new group for all the methods.
unfoldable pub set_limit : RateLimiter → List Bytes → ℤ → RateLimiter
set_limit r methods per_minute = record r {
  groups = r.groups ++ (new_group per_minute ∷ []);
  by_method = assign methods (length r.groups) r.by_method;
}

unfoldable pub configure_all : RateLimiter → List UnaryLimit → RateLimiter
configure_all r [] = r
configure_all r (l ∷ ls) = configure_all (set_limit r l.methods l.limit_per_minute) ls

-- `configure`: the table is built anew from the tariff's limits.
unfoldable pub configure : RateLimiter → List UnaryLimit → RateLimiter
unfolding configure_all
configure r limits = configure_all (record r { by_method = [] }) limits

unfoldable pub enabled : RateLimiter → Bool
enabled r = not (elim r.by_method [ [] ↦ true | _ ∷ _ ↦ false ])

-- A window that is over starts anew.
unfoldable pub roll_window : ℕ → ℕ → Group → Group
roll_window window now g =
    if leb (g.window_start + window) now then record g { window_start = now; count = 0 } else g

-- One round of the loop of `acquire`, which is also the body of `try_acquire`: whether the call is
-- let through, and the group after it.
unfoldable pub admit : ℕ → ℕ → Group → Bool × Group
unfolding roll_window
admit window now g =
    if leb_ℤ g.limit (pos 0)
    then (true, g)
    else let h = roll_window window now g in
      if ltb_ℤ (pos h.count) h.limit then (true, record h { count = h.count + 1 }) else (false, h)

unfoldable pub store : RateLimiter → ℕ → Bool × Group → Bool × RateLimiter
store r id (granted, g) = (granted, record r { groups = set r.groups id g })

-- A round on a group of the store; every group that the table names is there (`IsLinked`).
unfoldable pub admit_group : RateLimiter → ℕ → ℕ → Bool × RateLimiter
unfolding store
admit_group r id now = elim (get_elem? r.groups id) [
  | none ↦ (true, r)
  | some g ↦ store r id (admit r.window now g)
]

unfoldable pub try_acquire : RateLimiter → Bytes → ℕ → Bool × RateLimiter
try_acquire r method now = elim (lookup method r.by_method) [
  | none ↦ (true, r)
  | some id ↦ admit_group r id now
]

-- A wake-up of a waiting call: what other threads did to the limiter meanwhile, and the clock.
pub record Wake : Type 0 where
  pub others : RateLimiter → RateLimiter
  pub now : ℕ

-- The loop of `acquire` on the group that the call holds; `none` while it still waits.
unfoldable pub acquire_loop : Bool × RateLimiter → ℕ → List Wake → Option RateLimiter
acquire_loop (true, r) id wakes = some r
acquire_loop (false, r) id [] = none
acquire_loop (false, r) id (w ∷ wakes) = acquire_loop (admit_group (w.others r) id w.now) id wakes

-- `acquire`, whose first round is at `now`.
unfoldable pub acquire : RateLimiter → Bytes → ℕ → List Wake → Option RateLimiter
acquire r method now wakes = elim (lookup method r.by_method) [
  | none ↦ some r
  | some id ↦ acquire_loop (admit_group r id now) id wakes
]
