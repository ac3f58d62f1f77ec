-- ===== src/Streams/Backoff.antt =====
-- The waits of the reconnection loop.
use native.Mathlib.Nat.{pow-le-pow_right}
use tinkoff_invest_sdkv.Prelude.{
  ℕ, ◌+◌, ◌*◌, ◌^◌, ◌≤◌, ◌<◌, ◌≡◌, refl, subst, sym, min, arith, Bool, true, false, not,
  if◌then◌else◌, List, [], ◌∷◌, ◌++◌, All, if_both,
}
use tinkoff_invest_sdkv.Prelude.Int.{ℤ, pos, ◌*ℤ◌, *ℤ_pos_parts, eq_of_parts}
use tinkoff_invest_sdkv.Prelude.Word.{to_i64_id, i64_half}
use tinkoff_invest_sdkv.Streams.{
  StreamOptions, default_options, Notice, notified, waits, Round, delay, opening, run_loop,
  run_stream,
}

-- The waits among the notices.
unfoldable pub waits_of : List Notice → List ℤ
waits_of [] = []
waits_of (notified s e ∷ ns) = waits_of ns
waits_of (waits d ∷ ns) = d ∷ waits_of ns

-- The initial backoff doubled at most eight times, or the longest one.
abbrev pub IsBackoff : ℕ → ℕ → ℤ → Type 0
IsBackoff initial longest d = (k : ℕ) × (k ≤ 8) × (d ≡ pos (min (initial * 2 ^ k) longest))

power_bound : (k : ℕ) → k ≤ 8 → 2 ^ k ≤ 256
power_bound k h = pow-le-pow_right {n = 2} (omega arith) h

delay-IsBackoff :
    (o : StreamOptions) (initial longest attempt : ℕ)
    → o.initial_backoff ≡ pos initial
    → o.max_backoff ≡ pos longest
    → initial * 256 < i64_half
    → IsBackoff initial longest (delay o attempt)
unfolding delay
delay-IsBackoff o initial longest attempt e f h =
    let k = min attempt 8 in
    let low : k ≤ 8 = omega arith in
    let small : initial * 2 ^ k ≤ initial * 256 = grind (arith, power_bound k low) in
    let product : pos initial *ℤ pos (2 ^ k) ≡ pos (initial * 2 ^ k) =
      eq_of_parts (pos initial *ℤ pos (2 ^ k)) (pos (initial * 2 ^ k))
        (omega (arith, *ℤ_pos_parts (pos initial) (2 ^ k))) in
    (k, low, rw (e, f, product, to_i64_id (pos (initial * 2 ^ k)) (omega arith)) (ground arith))

waits_of-opening :
    (got_data : Bool) (ns : List Notice) → waits_of (opening got_data ++ ns) ≡ waits_of ns
unfolding waits_of opening
waits_of-opening true ns = refl
waits_of-opening false ns = refl

module _ (o : StreamOptions) (initial longest : ℕ) (e : o.initial_backoff ≡ pos initial)
    (f : o.max_backoff ≡ pos longest) (h : initial * 256 < i64_half) where
  Backoffs : List Notice → Type 0
  Backoffs ns = All (IsBackoff initial longest) (waits_of ns)

  open_round :
      (got_data : Bool) (ns : List Notice) → Backoffs ns → Backoffs (opening got_data ++ ns)
  unfolding Backoffs
  open_round got_data ns a =
      subst (All (IsBackoff initial longest)) (sym (waits_of-opening got_data ns)) a

  run_loop-Backoffs : (attempt : ℕ) (rounds : List Round) → Backoffs (run_loop o attempt rounds).0
  unfolding run_loop waits_of Backoffs
  run_loop-Backoffs attempt [] = tt
  run_loop-Backoffs attempt (r ∷ rs) =
      let failures = if r.got_data then 0 else attempt in
      let rest = run_loop-Backoffs (failures + 1) rs in
      let d = delay-IsBackoff o initial longest failures e f h in
      if_both (λ (p : List Notice × Bool). Backoffs p.0) r.stopping_first tt
        (if_both (λ (p : List Notice × Bool). Backoffs p.0) r.stopping_then
          (open_round r.got_data _ tt)
          (if_both (λ (p : List Notice × Bool). Backoffs p.0) (not o.reconnect)
            (open_round r.got_data _ tt)
            (if_both (λ (p : List Notice × Bool). Backoffs p.0) r.stopping_last
              (open_round r.got_data _ (d, tt)) (open_round r.got_data _ (d, rest)))))

-- Every wait of the loop is the initial backoff doubled at most eight times, cut to the longest one,
-- for options that are not negative and whose initial backoff is less than 2 ^ 55 milliseconds.
pub run_stream_waits :
    (o : StreamOptions) (initial longest : ℕ) (rounds : List Round)
    → o.initial_backoff ≡ pos initial
    → o.max_backoff ≡ pos longest
    → initial * 256 < i64_half
    → All (IsBackoff initial longest) (waits_of (run_stream o rounds).0)
unfolding run_stream Backoffs
run_stream_waits o initial longest rounds e f h = run_loop-Backoffs o initial longest e f h 0 rounds

default_power : (k : ℕ) → k ≤ 8 → 100 * 2 ^ k ≤ 25_600
default_power k h = omega (arith, power_bound k h)

default_backoff :
    (ds : List ℤ)
    → All (IsBackoff 100 30_000) ds
    → All (λ d. (n : ℕ) × (d ≡ pos n) × (n ≤ 25_600)) ds
default_backoff [] a = tt
default_backoff (d ∷ ds) ((k, low, e), a) =
    let short = default_power k low in
    ((min (100 * 2 ^ k) 30_000, e, omega arith), default_backoff ds a)

-- With the default options no wait is longer than 25.6 seconds, so that `max_backoff` is never met.
pub run_stream_default :
    (rounds : List Round)
    → All
        (λ d. (n : ℕ) × (d ≡ pos n) × (n ≤ 25_600))
        (waits_of (run_stream default_options rounds).0)
run_stream_default rounds =
    default_backoff (waits_of (run_stream default_options rounds).0)
      (run_stream_waits default_options 100 30_000 rounds refl refl (omega arith))
