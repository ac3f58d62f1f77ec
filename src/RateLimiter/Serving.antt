-- ===== src/RateLimiter/Serving.antt =====
-- What one group of include/tinvest/rate_limiter.hpp lets through.
use tinkoff_invest_sdkv.Prelude.{
  ℕ, ◌+◌, ◌*◌, ◌≤◌, ◌<◌, ◌≡◌, arith, true, false, if◌then◌else◌, List, [], ◌∷◌, All,
}
use native.Mathlib.Decide.{dec_lt}
use tinkoff_invest_sdkv.Prelude.Int.{pos_part}
use tinkoff_invest_sdkv.RateLimiter.{Group, admit}

-- Grants among calls at the given times on one group.
unfoldable pub serve : ℕ → Group → List ℕ → ℕ
serve window g [] = 0
serve window g (t ∷ ts) =
    (if (admit window t g).0 then 1 else 0) + serve window (admit window t g).1 ts

-- The limit of a group that has one, as a number.
abbrev pub capacity : Group → ℕ
capacity g = pos_part g.limit

-- The counter of a limited group never passes its limit.
abbrev pub IsWithin : Group → Type 0
IsWithin g = (g.count ≤ capacity g)

abbrev Before : ℕ → List ℕ → Type 0
Before t = All (λ u. u < t)

abbrev pub Between : ℕ → ℕ → List ℕ → Type 0
Between a b = All (λ u. (a ≤ u) × (u < b))

module _ (window now : ℕ) (g : Group) (limited : 0 < capacity g) where
  pub admit_rolled :
      g.window_start + window ≤ now
      → admit window now g ≡ (true, record g { window_start = now; count = 1 })
  unfolding admit
  admit_rolled h = ground arith

  pub admit_granted :
      now < g.window_start + window
      → g.count < capacity g
      → admit window now g ≡ (true, record g { count = g.count + 1 })
  unfolding admit
  admit_granted h k = ground arith

  pub admit_refused :
      now < g.window_start + window → capacity g ≤ g.count → admit window now g ≡ (false, g)
  unfolding admit
  admit_refused h k = ground arith

-- Until its window is over a group grants no more than what is left.
pub serve_same_window :
    (window : ℕ) (g : Group) (ts : List ℕ)
    → 0 < capacity g
    → IsWithin g
    → Before (g.window_start + window) ts
    → serve window g ts + g.count ≤ capacity g
unfolding serve
serve_same_window window g [] p v h = omega arith
serve_same_window window g (t ∷ ts) p v (h, hs) = elim (dec_lt g.count (capacity g)) [
  | yes k ↦
      let h' = record g { count = g.count + 1 } in
      rw (admit_granted window t g p h k)
        (omega (arith, serve_same_window window h' ts p (omega arith) hs))
  | no k ↦
      rw (admit_refused window t g p h (omega arith))
        (omega (arith, serve_same_window window g ts p v hs))
]

pub Between-Before : (a b : ℕ) (ts : List ℕ) → Between a b ts → (c : ℕ) → b ≤ c → Before c ts
Between-Before a b [] h c k = tt
Between-Before a b (t ∷ ts) (h, hs) c k = (omega arith, Between-Before a b ts hs c k)

-- In a stretch of time as long as a window at most one window starts.
pub serve_bound :
    (window a : ℕ) (g : Group) (ts : List ℕ)
    → 0 < capacity g
    → IsWithin g
    → Between a (a + window) ts
    → serve window g ts + g.count ≤ 2 * capacity g
unfolding serve
serve_bound window a g [] p v h = omega arith
serve_bound window a g (t ∷ ts) p v (h, hs) = elim (dec_lt t (g.window_start + window)) [
  | yes s ↦ elim (dec_lt g.count (capacity g)) [
    | yes k ↦
        let h' = record g { count = g.count + 1 } in
        rw (admit_granted window t g p s k)
          (omega (arith, serve_bound window a h' ts p (omega arith) hs))
    | no k ↦
        rw (admit_refused window t g p s (omega arith))
          (omega (arith, serve_bound window a g ts p v hs))
  ]
  | no s ↦
      let h' = record g { window_start = t; count = 1 } in
      rw (admit_rolled window t g p (omega arith)) (
        omega (
          arith,
          serve_same_window window h' ts p p
              (Between-Before a (a + window) ts hs (t + window) (omega arith)),
        ))
]
