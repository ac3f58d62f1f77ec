-- ===== src/Unary/Retry.antt =====
-- The retry loop of `unary_sync` in include/tinvest/detail/unary.hpp.
use mathlib.Core.Option.{none-ne-some}
use tinkoff_invest_sdkv.Prelude.{
  ℕ, zero, suc, ◌+◌, ◌≤◌, ◌<◌, ◌≡◌, refl, ap, sym, ◌∙◌, ◌⊎◌, inl, inr, arith, Bool, true, false,
  List, [], ◌∷◌, Option, none, some, length, All, Bool-cases, Option-cases,
}
use tinkoff_invest_sdkv.Prelude.Int.{pos_part}
use tinkoff_invest_sdkv.Error.{Error, Result, make_error}
use tinkoff_invest_sdkv.Unary.{
  RetryPolicy, Outcome, Event, acquires, calls, sleeps, ok, attempt_limit, retryable, next_delay,
  result_of, after, retry_loop, unary_sync,
}

-- The events of attempts from one on, with these sleeps between them.
unfoldable pub attempts_with : ℕ → List ℕ → List Event
attempts_with attempt [] = acquires ∷ calls attempt ∷ []
attempts_with attempt (d ∷ ds) =
    acquires ∷ calls attempt ∷ sleeps d ∷ attempts_with (attempt + 1) ds

-- Every attempt before the last failed, and its error asked for the sleep that follows it; the last
-- one succeeded, or its error asks for none.
unfoldable pub Follows {ℓ} :
    {A : Type ℓ} → RetryPolicy → Option Bool → (ℕ → Outcome A) → ℕ → List ℕ → Type 0
Follows p override call attempt [] =
    (ok (call attempt).status ≡ true)
    ⊎ (next_delay p override attempt (make_error (call attempt).status (call attempt).metadata)
        ≡ none)
Follows p override call attempt (d ∷ ds) =
    (ok (call attempt).status ≡ false)
    × (next_delay p override attempt (make_error (call attempt).status (call attempt).metadata)
        ≡ some d)
    × Follows p override call (attempt + 1) ds

-- A sleep is asked for only below the limit of attempts, and is no longer than `max_wait`.
next_delay_bound :
    (p : RetryPolicy) (override : Option Bool) (attempt : ℕ) (e : Error) (d : ℕ)
    → next_delay p override attempt e ≡ some d
    → (attempt < attempt_limit p) × (d ≤ pos_part p.max_wait)
unfolding next_delay
next_delay_bound p override attempt e d h = ground arith

module _ {ℓ} {A : Type ℓ} (p : RetryPolicy) (override : Option Bool) (call : ℕ → Outcome A) where
  Runs : ℕ → ℕ → Type ℓ
  Runs fuel attempt =
      (delays : List ℕ) × (retry_loop p override call fuel attempt
        ≡ some (result_of (call (attempt + length delays)), attempts_with attempt delays))
      × Follows p override call attempt delays
      × (attempt + length delays ≤ attempt_limit p)
      × All (λ d. d ≤ pos_part p.max_wait) delays

  retry_loop-Runs :
      (fuel attempt : ℕ)
      → attempt_limit p < fuel + attempt
      → attempt ≤ attempt_limit p
      → Runs fuel attempt
  unfolding retry_loop attempts_with Follows Runs after
  retry_loop-Runs zero attempt h k = absurd (omega arith)
  retry_loop-Runs (suc fuel) attempt h k = elim (Bool-cases (ok (call attempt).status)) [
    | inl s ↦
        let e0 : attempt + 0 ≡ attempt = omega arith in
        ([], rw (s, e0) refl, inl s, omega arith, tt)
    | inr s ↦
        let e = make_error (call attempt).status (call attempt).metadata in
        elim (Option-cases (next_delay p override attempt e)) [
          | inl n ↦
              let e0 : attempt + 0 ≡ attempt = omega arith in
              ([], rw (s, n, e0) refl, inr n, omega arith, tt)
          | inr (d, n) ↦
              let (low, short) = next_delay_bound p override attempt e d n in
              let (ds, run, follows, bound, waits) =
                retry_loop-Runs fuel (attempt + 1) (omega arith) (omega arith) in
              let e1 : attempt + length (d ∷ ds) ≡ attempt + 1 + length ds = omega arith in
              (d ∷ ds, rw (s, n, run, e1) refl, (s, n, follows), omega arith, (short, waits))
        ]
  ]

-- `unary_sync` always returns. It makes at least one attempt and at most `max(1, max_attempts)`, each
-- after it took a slot of the rate limiter; every attempt but the last failed with an error that may
-- be retried, and is followed by that error's sleep, never longer than `max_wait`; what is returned is
-- what the last attempt came to.
pub unary_sync_lem {ℓ} :
    {A : Type ℓ} (p : RetryPolicy) (override : Option Bool) (call : ℕ → Outcome A)
    → (delays : List ℕ) × (unary_sync p override call
        ≡ some (result_of (call (1 + length delays)), attempts_with 1 delays))
      × Follows p override call 1 delays
      × (1 + length delays ≤ attempt_limit p)
      × All (λ d. d ≤ pos_part p.max_wait) delays
unfolding unary_sync attempt_limit Runs
unary_sync_lem p override call =
    retry_loop-Runs p override call (attempt_limit p) 1 (omega arith) (omega arith)

retryable-true : (p : RetryPolicy) (e : Error) → retryable p (some true) e ≡ retryable p none e
unfolding retryable
retryable-true p e = ground arith

next_delay-true :
    (p : RetryPolicy) (attempt : ℕ) (e : Error)
    → next_delay p (some true) attempt e ≡ next_delay p none attempt e
unfolding next_delay
next_delay-true p attempt e = rw (retryable-true p e) refl

retry_loop-true {ℓ} :
    {A : Type ℓ} (p : RetryPolicy) (call : ℕ → Outcome A) (fuel attempt : ℕ)
    → retry_loop p (some true) call fuel attempt ≡ retry_loop p none call fuel attempt
unfolding retry_loop
retry_loop-true p call zero attempt = refl
retry_loop-true p call (suc fuel) attempt =
    let e = make_error (call attempt).status (call attempt).metadata in
    let same = next_delay-true p attempt e in
    elim (Bool-cases (ok (call attempt).status)) [
      | inl s ↦ rw s refl
      | inr s ↦ elim (Option-cases (next_delay p none attempt e)) [
        | inl n ↦ rw (s, same, n) refl
        | inr (d, n) ↦
            rw (s, same, n)
              (ap (after (acquires ∷ calls attempt ∷ sleeps d ∷ []))
                (retry_loop-true p call fuel (attempt + 1)))
      ]
    ]

-- The option `retry = true` of a call changes nothing: it does not force a retry that the policy
-- leaves out.
pub unary_sync_forced {ℓ} :
    {A : Type ℓ} (p : RetryPolicy) (call : ℕ → Outcome A)
    → unary_sync p (some true) call ≡ unary_sync p none call
unfolding unary_sync
unary_sync_forced p call = retry_loop-true p call (attempt_limit p) 1

refused_delay :
    (p : RetryPolicy) (attempt : ℕ) (e : Error) → next_delay p (some false) attempt e ≡ none
unfolding next_delay retryable
refused_delay p attempt e = ground arith

no_delays {ℓ} :
    {A : Type ℓ} (p : RetryPolicy) (call : ℕ → Outcome A) (ds : List ℕ)
    → Follows p (some false) call 1 ds
    → ◌≡◌ {A = Option (Result A × List Event)}
        (some (result_of (call (1 + length ds)), attempts_with 1 ds))
        (some (result_of (call 1), acquires ∷ calls 1 ∷ []))
unfolding Follows attempts_with
no_delays p call [] f = refl
no_delays p call (d ∷ ds) (s, n, f) =
    let h = sym (refused_delay p 1 (make_error (call 1).status (call 1).metadata)) ∙ n in
    absurd (none-ne-some d h)

-- With `retry = false` there is one attempt, whatever the policy is and whatever the call comes to.
pub unary_sync_once {ℓ} :
    {A : Type ℓ} (p : RetryPolicy) (call : ℕ → Outcome A)
    → unary_sync p (some false) call ≡ some (result_of (call 1), acquires ∷ calls 1 ∷ [])
unary_sync_once p call =
    let (ds, run, follows, bound, waits) = unary_sync_lem p (some false) call in
    run ∙ no_delays p call ds follows
