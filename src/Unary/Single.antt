-- ===== src/Unary/Single.antt =====
-- `unary_async` of include/tinvest/detail/unary.hpp.
use tinkoff_invest_sdkv.Prelude.{
  ℕ, ◌≡◌, refl, ◌⊎◌, inl, inr, true, false, [], ◌∷◌, Bytes, Bool-cases,
}
use tinkoff_invest_sdkv.Error.{error}
use tinkoff_invest_sdkv.RateLimiter.{RateLimiter, try_acquire}
use tinkoff_invest_sdkv.Unary.{Outcome, unary_async, result_of, client_limit_error}

-- The callback is called exactly once: with what the call came to if the rate limiter grants a slot,
-- and otherwise, without a call, with the client's own error. The limiter changes as by `try_acquire`.
pub unary_async_lem {ℓ} :
    {A : Type ℓ} (r : RateLimiter) (method : Bytes) (now : ℕ) (o : Outcome A)
    → let a = unary_async r method now o in
      (a.limiter ≡ (try_acquire r method now).1)
      × (((try_acquire r method now).0 ≡ true) × (a.started ≡ true) × (a.results ≡ result_of o ∷ [])
          ⊎ ((try_acquire r method now).0 ≡ false)
            × (a.started ≡ false)
            × (a.results ≡ error client_limit_error ∷ []))
unfolding unary_async
unary_async_lem r method now o = elim (Bool-cases (try_acquire r method now).0) [
  | inl t ↦ rw t (refl, inl (refl, refl, refl))
  | inr t ↦ rw t (refl, inr (refl, refl, refl))
]
