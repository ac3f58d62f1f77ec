-- ===== src/Error.antt =====
-- include/tinvest/error.hpp, and the part of include/tinvest/detail/unary.hpp that makes an `Error` of
-- a finished call.
use tinkoff_invest_sdkv.Prelude.{
  ℕ, ◌+◌, ◌-◌, ◌*◌, Bool, true, false, not, ◌&&◌, ◌||◌, if◌then◌else◌, leb, ◌==◌, List, [], ◌∷◌,
  ◌++◌, Bytes, bytes_eq,
}
use tinkoff_invest_sdkv.Prelude.Int.{ℤ, pos, negsuc, neg}
use tinkoff_invest_sdkv.Prelude.Word.{to_i32}
use tinkoff_invest_sdkv.Prelude.Digits.{int_to_string}
use tinkoff_invest_sdkv.Prelude.Codes.{codes}

-- `grpc::Status`.
pub record Status : Type 0 where
  pub code : ℕ
  pub message : Bytes

abbrev pub ok_code : ℕ
ok_code = 0

abbrev pub unknown : ℕ
unknown = 2

abbrev pub resource_exhausted : ℕ
resource_exhausted = 8

abbrev pub unavailable : ℕ
unavailable = 14

pub record RateLimitInfo : Type 0 where
  pub limit : ℤ
  pub remaining : ℤ
  pub reset_seconds : ℤ

pub record Error : Type 0 where
  pub code : ℕ
  pub message : Bytes
  pub api_code : Bytes
  pub tracking_id : Bytes
  pub ratelimit : RateLimitInfo

-- `Error{}`.
abbrev pub new_error : Error
new_error = record {
  code = unknown;
  message = [];
  api_code = [];
  tracking_id = [];
  ratelimit = record { limit = negsuc 0; remaining = negsuc 0; reset_seconds = negsuc 0 };
}

abbrev pub is_empty : Bytes → Bool
is_empty [] = true
is_empty (c ∷ s) = false

unfoldable pub rate_limited : Error → Bool
rate_limited e = e.code == resource_exhausted

unfoldable pub error_to_string : Error → Bytes
error_to_string e =
    codes "grpc="
    ++ (int_to_string (pos e.code)
        ++ ((if is_empty e.api_code then [] else codes " api=" ++ e.api_code)
            ++ ((if is_empty e.message then [] else b' ' ∷ e.message)
                ++ (if is_empty e.tracking_id
                    then []
                    else codes " [x-tracking-id: " ++ (e.tracking_id ++ codes "]")))))

-- `Result<T>`.
pub data Result {ℓ} (A : Type ℓ) : Type ℓ where
  value : A → Result A
  error : Error → Result A

unfoldable pub value_or {ℓ} : {A : Type ℓ} → Result A → A → A
value_or (value a) fallback = a
value_or (error e) fallback = fallback

-- Trailing metadata; of entries with one key the first is found.
abbrev pub Metadata : Type 0
Metadata = List (Bytes × Bytes)

unfoldable pub get_metadata : Metadata → Bytes → Bytes
get_metadata [] key = []
get_metadata ((k, v) ∷ md) key =
    let rest = get_metadata md key in if bytes_eq k key then v else rest

abbrev pub is_decimal : ℕ → Bool
is_decimal c = leb b'0' c && leb c b'9'

-- `std::atoi`: white space, a sign, digits up to the first other byte; an overflow wraps.
unfoldable pub read_digits : Bytes → ℕ → ℕ
read_digits [] n = n
read_digits (c ∷ s) n =
    let rest = read_digits s (n * 10 + (c - b'0')) in if is_decimal c then rest else n

unfoldable pub read_sign : Bytes → ℤ
read_sign [] = pos 0
read_sign (c ∷ s) =
    if c == b'-'
    then neg (pos (read_digits s 0))
    else if c == b'+'
    then pos (read_digits s 0)
    else pos (read_digits (c ∷ s) 0)

unfoldable pub skip_space : Bytes → Bytes
skip_space [] = []
skip_space (c ∷ s) =
    let rest = skip_space s in if c == b' ' || leb 9 c && leb c 13 then rest else c ∷ s

unfoldable pub atoi : Bytes → ℤ
atoi s = to_i32 (read_sign (skip_space s))

unfoldable pub get_int_metadata : Metadata → Bytes → ℤ
get_int_metadata md key = let v = get_metadata md key in if is_empty v then negsuc 0 else atoi v

unfoldable pub all_digits : Bytes → Bool
all_digits [] = true
all_digits (c ∷ s) = is_decimal c && all_digits s

unfoldable pub make_error : Status → Metadata → Error
make_error status md =
    let sm = status.message in
    let text = get_metadata md (codes "message") in
    record {
      code = status.code;
      message = if is_empty text then sm else text;
      api_code = if not (is_empty sm) && all_digits sm then sm else [];
      tracking_id = get_metadata md (codes "x-tracking-id");
      ratelimit = record {
        limit = get_int_metadata md (codes "x-ratelimit-limit");
        remaining = get_int_metadata md (codes "x-ratelimit-remaining");
        reset_seconds = get_int_metadata md (codes "x-ratelimit-reset");
      };
    }
