-- ===== src/RateLimiter/Examples.antt =====
-- Runs of include/tinvest/rate_limiter.hpp, after tests/rate_limiter_test.cpp.
use tinkoff_invest_sdkv.Prelude.{
  ◌*◌, ◌≤◌, ◌≡◌, refl, inr, arith, true, false, List, [], ◌∷◌, none, Bytes, bytes_eq,
}
use tinkoff_invest_sdkv.Prelude.Int.{pos}
use tinkoff_invest_sdkv.Prelude.Dict.{lookup}
use tinkoff_invest_sdkv.RateLimiter.{
  Group, RateLimiter, UnaryLimit, Wake, normalize, set_limit, configure, enabled, try_acquire,
  acquire_loop, admit, admit_group,
}
use tinkoff_invest_sdkv.RateLimiter.Serving.{capacity}
use tinkoff_invest_sdkv.RateLimiter.Bounds.{Call, grants, IsValid, grants_bound}
use tinkoff_invest_sdkv.RateLimiter.Waiting.{acquire_configured}

-- "/a", "a" and "b".
abbrev slash_a : Bytes
slash_a = b'/' ∷ b'a' ∷ []

abbrev method_a : Bytes
method_a = b'a' ∷ []

abbrev method_b : Bytes
method_b = b'b' ∷ []

-- A window of 100 ticks, one group of limit 2, in use since time 1000 and full.
abbrev busy_group : Group
busy_group = record { limit = pos 2; count = 2; window_start = 1000 }

abbrev busy : RateLimiter
busy = record { window = 100; groups = busy_group ∷ []; by_method = (method_a, 0) ∷ [] }

busy-IsValid : IsValid busy
busy-IsValid = (inr (omega arith), tt)

-- Three calls just before the end of the window, and three just after it.
abbrev calls_at_end : List Call
calls_at_end =
    record { method = method_a; now = 1090 }
    ∷ record { method = method_b; now = 1095 }
    ∷ record { method = method_a; now = 1110 }
    ∷ record { method = method_a; now = 1111 }
    ∷ record { method = method_a; now = 1112 }
    ∷ []

grants_run : grants busy 0 calls_at_end ≡ 2
unfolding grants try_acquire lookup bytes_eq admit_group admit
grants_run = refl

normalize_run : normalize slash_a ≡ method_a
unfolding normalize
normalize_run = refl

enabled_run : enabled busy ≡ true
unfolding enabled
enabled_run = refl

grants_bound_example : grants busy 0 calls_at_end ≤ 2 * capacity busy_group
grants_bound_example =
    grants_bound busy 0 1090 busy_group calls_at_end refl (omega arith) (omega arith) (ground arith)

abbrev free_group : Group
free_group = record { limit = pos 2; count = 1; window_start = 1000 }

abbrev free : RateLimiter
free = record busy { groups = free_group ∷ [] }

abbrev calls_inside : List Call
calls_inside =
    record { method = method_a; now = 1010 } ∷ record { method = method_a; now = 1020 } ∷ []

abbrev tariff_entry : UnaryLimit
tariff_entry = record { limit_per_minute = pos 3; methods = slash_a ∷ [] }

abbrev wake_after : Wake
wake_after = record { others = λ r. r; now = 1100 }

acquire_configured_example :
    acquire_loop
      (false, busy)
      0
      (record { others = λ s. configure s (tariff_entry ∷ []); now = 1050 } ∷ [])
    ≡ none
unfolding configure set_limit
acquire_configured_example =
    acquire_configured busy 0 1050 (tariff_entry ∷ []) busy_group refl (omega arith) (omega arith)
      (omega arith)
