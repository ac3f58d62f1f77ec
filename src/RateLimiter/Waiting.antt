-- ===== src/RateLimiter/Waiting.antt =====
-- The blocking `acquire` of include/tinvest/rate_limiter.hpp.
use tinkoff_invest_sdkv.Prelude.{
  ℕ, ◌+◌, ◌≤◌, ◌<◌, ◌≡◌, refl, ap, ◌∙◌, inl, inr, Bool, true, false, List, [], ◌∷◌, Option, none,
  some, Bytes, get_elem?, Option-cases,
}
use tinkoff_invest_sdkv.Prelude.Dict.{lookup}
use tinkoff_invest_sdkv.RateLimiter.{
  Group, RateLimiter, UnaryLimit, Wake, admit_group, try_acquire, acquire, acquire_loop, configure,
}
use tinkoff_invest_sdkv.RateLimiter.Serving.{capacity, admit_refused}
use tinkoff_invest_sdkv.RateLimiter.Bounds.{
  try_acquire_unknown, try_acquire_known, admit_group_self,
}
use tinkoff_invest_sdkv.RateLimiter.Table.{configure-groups}

-- What a call has made of the limiter when `try_acquire` answers, if it may go on.
abbrev pub granted : Bool × RateLimiter → Option RateLimiter
granted (true, r) = some r
granted (false, r) = none

granted-false : (p : Bool × RateLimiter) → p.0 ≡ false → granted p ≡ none
granted-false (true, r) e = cc
granted-false (false, r) e = refl

acquire_loop-nil : (p : Bool × RateLimiter) (id : ℕ) → acquire_loop p id [] ≡ granted p
unfolding acquire_loop
acquire_loop-nil (true, r) id = refl
acquire_loop-nil (false, r) id = refl

acquire_loop-granted :
    (p : Bool × RateLimiter) (id : ℕ) (wakes : List Wake)
    → p.0 ≡ true
    → acquire_loop p id wakes ≡ some p.1
unfolding acquire_loop
acquire_loop-granted (true, r) id wakes e = refl
acquire_loop-granted (false, r) id wakes e = cc

-- A call that nothing wakes goes on exactly when `try_acquire` lets it through, with the same effect.
pub acquire-try_acquire :
    (r : RateLimiter) (m : Bytes) (now : ℕ) → acquire r m now [] ≡ granted (try_acquire r m now)
unfolding acquire
acquire-try_acquire r m now = elim (Option-cases (lookup m r.by_method)) [
  | inl l ↦ rw (l, acquire, try_acquire_unknown r m now l) refl
  | inr (id, l) ↦
      rw (l, acquire, try_acquire_known r m now id l) (acquire_loop-nil (admit_group r id now) id)
]

-- A new tariff does not reach a call that waits: the call holds on to its old group, so that it
-- waits on though the group has left the table, whatever limits the tariff sets.
pub acquire_configured :
    (r : RateLimiter) (id now : ℕ) (ls : List UnaryLimit) (g : Group)
    → get_elem? r.groups id ≡ some g
    → 0 < capacity g
    → capacity g ≤ g.count
    → now < g.window_start + (configure r ls).window
    → acquire_loop (false, r) id (record { others = λ s. configure s ls; now = now } ∷ []) ≡ none
acquire_configured r id now ls g e p full h =
    let o = configure r ls in
    let (same, next) = admit_group_self o id now g (configure-groups r ls id g e) in
    let a = admit_refused o.window now g p h full in
    unfold acquire_loop in
    (acquire_loop-nil (admit_group o id now) id
      ∙ granted-false (admit_group o id now) (same ∙ ap (λ v. v.0) a))
