-- ===== src/Unary/Examples.antt =====
-- Runs of include/tinvest/detail/unary.hpp, after tests/client_test.cpp.
use tinkoff_invest_sdkv.Prelude.Digits.{int_to_string, to_digits}
use tinkoff_invest_sdkv.Prelude.Word.{to_i32}
use tinkoff_invest_sdkv.Prelude.{
  ℕ, ◌+◌, ◌≤◌, ◌≡◌, refl, true, if◌then◌else◌, ◌==◌, List, [], ◌∷◌, none, some, length, All,
  bytes_eq,
}
use tinkoff_invest_sdkv.Prelude.Int.{pos, negsuc, pos_part, neg}
use tinkoff_invest_sdkv.Prelude.Codes.{codes}
use tinkoff_invest_sdkv.Error.{
  value, error, make_error, error_to_string, atoi, value_or, rate_limited, resource_exhausted,
  unavailable, all_digits, get_int_metadata, get_metadata, read_digits, read_sign, skip_space,
}
use tinkoff_invest_sdkv.RateLimiter.{RateLimiter}
use tinkoff_invest_sdkv.Unary.{
  RetryPolicy, Outcome, acquires, calls, sleeps, attempt_limit, result_of, unary_sync,
  client_limit_error, delay_of, next_delay, ok, retry_loop, retryable, after,
}
use tinkoff_invest_sdkv.Unary.Retry.{attempts_with, Follows, unary_sync_lem, unary_sync_forced}

-- The default policy.
abbrev policy : RetryPolicy
policy = record {
  max_attempts = pos 3;
  on_rate_limit = true;
  on_unavailable = true;
  max_wait = pos 65_000;
}

-- The first call meets the rate limit, which is reset in one second, the second is not available, and
-- the third succeeds.
abbrev third_time : ℕ → Outcome ℕ
third_time n =
    if n == 1
    then record {
      status = record { code = resource_exhausted; message = b'8' ∷ b'0' ∷ [] };
      metadata = (codes "x-ratelimit-reset", b'1' ∷ []) ∷ [];
      response = 0;
    }
    else if n == 2
    then record {
      status = record { code = unavailable; message = [] };
      metadata = [];
      response = 0;
    }
    else record { status = record { code = 0; message = [] }; metadata = []; response = 42 }

unary_sync_run :
    unary_sync policy none third_time
    ≡ some (
      value 42,
      acquires ∷ calls 1 ∷ sleeps 1200 ∷ acquires ∷ calls 2 ∷ sleeps 200 ∷ acquires ∷ calls 3 ∷ [],
    )
unfolding unary_sync retry_loop attempt_limit ok next_delay retryable make_error delay_of
    get_int_metadata get_metadata bytes_eq atoi to_i32 read_sign skip_space read_digits after
    result_of
unary_sync_run = refl

atoi_run : atoi (b' ' ∷ b'-' ∷ b'4' ∷ b'2' ∷ b'x' ∷ []) ≡ negsuc 41
unfolding atoi to_i32 read_sign skip_space neg read_digits
atoi_run = refl

error_run :
    error_to_string (make_error (record { code = 3; message = b'3' ∷ b'0' ∷ [] }) [])
    ≡ codes "grpc=3 api=30 30"
unfolding error_to_string int_to_string to_digits make_error all_digits get_metadata
error_run = refl

value_or_run : value_or (error client_limit_error) unavailable ≡ unavailable
unfolding value_or
value_or_run = refl

rate_limited_run : rate_limited client_limit_error ≡ true
unfolding rate_limited client_limit_error
rate_limited_run = refl

unary_sync_lem_example :
    (delays : List ℕ) × (unary_sync policy none third_time
      ≡ some (result_of (third_time (1 + length delays)), attempts_with 1 delays))
    × Follows policy none third_time 1 delays
    × (1 + length delays ≤ attempt_limit policy)
    × All (λ d. d ≤ pos_part policy.max_wait) delays
unary_sync_lem_example = unary_sync_lem policy none third_time

unary_sync_forced_example :
    unary_sync policy (some true) third_time ≡ unary_sync policy none third_time
unary_sync_forced_example = unary_sync_forced policy third_time

abbrev no_limits : RateLimiter
no_limits = record { window = 60_000; groups = []; by_method = [] }
