-- ===== src/Unary.antt =====
-- The unary calls of include/tinvest/detail/unary.hpp: the retry loop of `unary_sync` and the callback
-- of `unary_async`. What gRPC makes of the calls is an argument.
pub mod Retry
pub mod Single
mod Examples
use tinkoff_invest_sdkv.Prelude.{
  ℕ, zero, suc, ◌+◌, ◌-◌, ◌*◌, ◌^◌, min, max, Bool, true, false, not, ◌&&◌, ◌||◌, if◌then◌else◌,
  leb, ◌==◌, List, [], ◌∷◌, ◌++◌, Option, none, some, Bytes,
}
use tinkoff_invest_sdkv.Prelude.Int.{ℤ, pos, pos_part, magnitude, leb_ℤ, ltb_ℤ}
use tinkoff_invest_sdkv.Prelude.Codes.{codes}
use tinkoff_invest_sdkv.Error.{
  Status, Error, Result, value, error, Metadata, new_error, make_error, ok_code, resource_exhausted,
  unavailable,
}
use tinkoff_invest_sdkv.RateLimiter.{RateLimiter, try_acquire}

-- `max_wait` in milliseconds.
pub record RetryPolicy : Type 0 where
  pub max_attempts : ℤ
  pub on_rate_limit : Bool
  pub on_unavailable : Bool
  pub max_wait : ℤ

-- What a call comes to: the status, the trailing metadata and the response.
pub record Outcome {ℓ} (A : Type ℓ) : Type ℓ where
  pub status : Status
  pub metadata : Metadata
  pub response : A

-- What `unary_sync` does, in order: it takes a slot of the rate limiter, makes the call with this
-- attempt's number, and sleeps so many milliseconds.
pub data Event : Type 0 where
  acquires : Event
  calls : ℕ → Event
  sleeps : ℕ → Event

unfoldable pub ok : Status → Bool
ok s = s.code == ok_code

-- `std::max(1, rp.max_attempts)`.
unfoldable pub attempt_limit : RetryPolicy → ℕ
attempt_limit p = max 1 (pos_part p.max_attempts)

-- `retryable`, with the override of the call's options.
unfoldable pub retryable : RetryPolicy → Option Bool → Error → Bool
retryable p override e =
    let by_policy =
      (e.code == resource_exhausted && p.on_rate_limit)
      || (e.code == unavailable && p.on_unavailable) in
    elim override [ none ↦ by_policy | some retry ↦ by_policy && retry ]

-- The sleep before the next attempt, in milliseconds.
unfoldable pub delay_of : ℕ → Error → ℕ
delay_of attempt e =
    if e.code == resource_exhausted
    then if leb_ℤ (pos 0) e.ratelimit.reset_seconds
      then magnitude e.ratelimit.reset_seconds * 1000 + 200
      else attempt * 1000
    else 100 * 2 ^ min (attempt - 1) 8

-- The sleep if there is another attempt; `none` if the error is returned.
unfoldable pub next_delay : RetryPolicy → Option Bool → ℕ → Error → Option ℕ
next_delay p override attempt e =
    if not (retryable p override e) || leb (attempt_limit p) attempt
    then none
    else if ltb_ℤ p.max_wait (pos (delay_of attempt e))
    then none
    else some (delay_of attempt e)

unfoldable pub result_of {ℓ} : {A : Type ℓ} → Outcome A → Result A
result_of o = if ok o.status then value o.response else error (make_error o.status o.metadata)

-- The rest of the loop after a sleep, put behind what came before.
unfoldable pub after {ℓ} :
    {A : Type ℓ} → List Event → Option (Result A × List Event) → Option (Result A × List Event)
after before none = none
after before (some (r, es)) = some (r, before ++ es)

-- The loop of `unary_sync` from an attempt; `call` says what each attempt comes to, and `none` is the
-- end of the fuel.
unfoldable pub retry_loop {ℓ} :
    {A : Type ℓ}
    → RetryPolicy
    → Option Bool
    → (ℕ → Outcome A)
    → ℕ
    → ℕ
    → Option (Result A × List Event)
retry_loop p override call zero attempt = none
retry_loop p override call (suc fuel) attempt =
    let rest = retry_loop p override call fuel (attempt + 1) in
    let o = call attempt in
    let now = acquires ∷ calls attempt ∷ [] in
    if ok o.status
    then some (result_of o, now)
    else elim (next_delay p override attempt (make_error o.status o.metadata)) [
      | none ↦ some (result_of o, now)
      | some d ↦ after (now ++ (sleeps d ∷ [])) rest
    ]

-- The attempts bound the rounds of the loop.
unfoldable pub unary_sync {ℓ} :
    {A : Type ℓ} → RetryPolicy → Option Bool → (ℕ → Outcome A) → Option (Result A × List Event)
unary_sync p override call = retry_loop p override call (attempt_limit p) 1

-- The error of a call that the client itself refuses.
unfoldable pub client_limit_error : Error
client_limit_error = record new_error {
  code = resource_exhausted;
  message = codes "client-side rate limit exceeded";
  api_code = codes "client";
}

-- What `unary_async` comes to: the limiter, whether the call was started, and the results that the
-- callback is given. gRPC completes a started call once, with the outcome.
pub record Async {ℓ} (A : Type ℓ) : Type ℓ where
  pub limiter : RateLimiter
  pub started : Bool
  pub results : List (Result A)

unfoldable pub unary_async {ℓ} : {A : Type ℓ} → RateLimiter → Bytes → ℕ → Outcome A → Async A
unary_async r method now o =
    let (granted, s) = try_acquire r method now in
    if granted
    then record { limiter = s; started = true; results = result_of o ∷ [] }
    else record { limiter = s; started = false; results = error client_limit_error ∷ [] }
