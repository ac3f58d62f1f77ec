-- ===== src/Decimal/Parsed.antt =====
-- What `from_string` of include/tinvest/decimal.hpp returns on any text: always a canonical number,
-- but one that a long text of digits has wrapped.
use mathlib.Core.Option.{some-injective}
use tinkoff_invest_sdkv.Prelude.{
  ℕ, zero, suc, ◌+◌, ◌-◌, ◌*◌, ◌/◌, ◌%◌, ◌^◌, ◌≤◌, ◌<◌, ◌≡◌, ◌≢◌, refl, sym, ap, subst, ◌∙◌, length,
  length-append, All, All-append, ◌||◌, arith, inl, inr, Bool, true, false, [], ◌∷◌, some, Bytes,
  ltb, ◌==◌, Bool-cases,
}
use tinkoff_invest_sdkv.Prelude.Int.{
  ℤ, pos, pos_part, magnitude, ◌+ℤ◌, ◌-ℤ◌, neg, +ℤ_parts, -ℤ_parts, eq_of_parts, ◌*ℤ◌,
}
use tinkoff_invest_sdkv.Prelude.Word.{
  Fits, i64_half, to_i32, to_i64, to_i32_id, to_i64_id, to_i64-Fits,
}
use tinkoff_invest_sdkv.Prelude.Digits.{to_digits, digit_fuel}
use tinkoff_invest_sdkv.Decimal.{Decimal, nano_base, make, normalize, carry, align}
use tinkoff_invest_sdkv.Decimal.Canonical.{IsCanonical}
use tinkoff_invest_sdkv.Decimal.Text.{
  is_digit, read_units, read_nano, finish, finish_nano, finish_units, from_string,
}

-- The first loop always ends with units of `int64_t`.
read_units-Fits :
    (s : Bytes) (u : ℤ) (any : Bool) → Fits i64_half u → Fits i64_half (read_units s u any).0
unfolding read_units
read_units-Fits [] u any f = f
read_units-Fits (c ∷ s) u any f =
    let next = to_i64 (to_i64 (u *ℤ pos 10) +ℤ pos (c - b'0')) in
    elim (Bool-cases (is_digit c)) [
      | inl t ↦ rw t (read_units-Fits s next true (to_i64-Fits _))
      | inr t ↦ rw t f
    ]

-- The second loop never overflows `int32_t`: the nano part stays below 10 ^ 9 for any text.
pub read_nano_bound :
    (s : Bytes) (a scale : ℕ) (any : Bool)
    → a < nano_base
    → a + 10 * scale ≤ nano_base
    → (n : ℕ) × ((read_nano s (pos a) scale any).0 ≡ pos n) × (n < nano_base)
unfolding read_nano
read_nano_bound [] a scale any h k = (a, refl, h)
read_nano_bound (c ∷ s) a scale any h k = elim (Bool-cases (is_digit c)) [
  | inl t ↦
      let d = c - b'0' in
      let small : d ≤ 9 = ground arith in
      let v : d * scale ≤ 9 * scale = grind arith in
      let p : pos a +ℤ pos (d * scale) ≡ pos (a + d * scale) =
        eq_of_parts (pos a +ℤ pos (d * scale)) (pos (a + d * scale))
          (omega (arith, +ℤ_parts (pos a) (pos (d * scale)))) in
      rw
        (
          t,
          to_i32_id (pos (d * scale)) (omega arith),
          p,
          to_i32_id (pos (a + d * scale)) (omega arith),
        )
        (read_nano_bound s (a + d * scale) (scale / 10) true (omega arith) (omega arith))
  | inr t ↦ rw t (a, refl, h)
]

-- The constructor makes a canonical number of any units and a small nano part.
make_small : (u n : ℤ) → Fits i64_half u → magnitude n < nano_base → IsCanonical (make u n)
unfolding make normalize carry align
make_small u n f h = ground (
  arith,
  -ℤ_parts u (pos 1),
  +ℤ_parts u (pos 1),
  -ℤ_parts n (pos nano_base),
  +ℤ_parts n (pos nano_base),
  to_i64_id (u -ℤ pos 1),
  to_i64_id (u +ℤ pos 1),
  to_i32_id (n -ℤ pos nano_base),
  to_i32_id (n +ℤ pos nano_base),
)

magnitude-neg : (n : ℕ) → magnitude (neg (pos n)) ≡ n
unfolding neg
magnitude-neg n = ground arith

finish-IsCanonical :
    (minus : Bool) (u : ℤ) (n : ℕ) (any : Bool) (d : Decimal)
    → Fits i64_half u
    → n < nano_base
    → finish minus u (pos n) any ≡ some d
    → IsCanonical d
unfolding finish
finish-IsCanonical minus u n false d f h e = cc
finish-IsCanonical true u n true d f h e =
    let m = magnitude-neg n in
    let k : to_i32 (neg (pos n)) ≡ neg (pos n) = to_i32_id (neg (pos n)) (omega arith) in
    subst IsCanonical (some-injective _ _ e)
      (make_small (to_i64 (neg u)) (to_i32 (neg (pos n))) (to_i64-Fits (neg u)) (rw (k, m) h))
finish-IsCanonical false u n true d f h e =
    subst IsCanonical (some-injective _ _ e) (make_small u (pos n) f (omega arith))

finish_nano-IsCanonical :
    (minus : Bool) (u : ℤ) (r : ℤ × Bool × Bytes) (d : Decimal)
    → Fits i64_half u
    → ((n : ℕ) × (r.0 ≡ pos n) × (n < nano_base))
    → finish_nano minus u r ≡ some d
    → IsCanonical d
unfolding finish_nano
finish_nano-IsCanonical minus u (nano, any, []) d f (n, g, h) e =
    finish-IsCanonical minus u n any d f h (ap (λ m. finish minus u m any) (sym g) ∙ e)
finish_nano-IsCanonical minus u (nano, any, c ∷ s) d f b e = cc

finish_units-IsCanonical :
    (minus : Bool) (r : ℤ × Bool × Bytes) (d : Decimal)
    → Fits i64_half r.0
    → finish_units minus r ≡ some d
    → IsCanonical d
unfolding finish_units
finish_units-IsCanonical minus (u, any, []) d f e =
    finish-IsCanonical minus u 0 any d f (omega arith) e
finish_units-IsCanonical minus (u, any, c ∷ s) d f e = elim (Bool-cases (c == b'.' || c == b',')) [
  | inl t ↦
      finish_nano-IsCanonical minus u (read_nano s (pos 0) 100_000_000 any) d f
        (read_nano_bound s 0 100_000_000 any (omega arith) (omega arith)) (rw t at e)
  | inr t ↦ ground arith
]

-- Whatever the text, a number that `from_string` returns is canonical (signed overflow taken to wrap):
-- its nanos stay below a billion in magnitude and have the sign of its units, which lie in `int64_t`.
pub from_string-IsCanonical : (s : Bytes) (d : Decimal) → from_string s ≡ some d → IsCanonical d
unfolding from_string
from_string-IsCanonical [] d e = cc
from_string-IsCanonical (c ∷ s) d e = elim (Bool-cases (c == b'-' || c == b'+')) [
  | inl t ↦
      finish_units-IsCanonical (c == b'-') (read_units s (pos 0) false) d
        (read_units-Fits s (pos 0) false (omega arith)) (rw t at e)
  | inr t ↦
      finish_units-IsCanonical false (read_units (c ∷ s) (pos 0) false) d
        (read_units-Fits (c ∷ s) (pos 0) false (omega arith)) (rw t at e)
]

abbrev AllDigits : Bytes → Type 0
AllDigits = All (λ c. is_digit c ≡ true)

to_digits-AllDigits : (fuel n : ℕ) → AllDigits (to_digits fuel n)
unfolding to_digits
to_digits-AllDigits zero n = tt
to_digits-AllDigits (suc fuel) n = elim (Bool-cases (ltb n 10)) [
  | inl t ↦ rw t (ground arith, tt)
  | inr t ↦ rw t (
      All-append (λ c. is_digit c ≡ true) (to_digits fuel (n / 10)) ((b'0' + n % 10) ∷ [])
        (to_digits-AllDigits fuel (n / 10)) (ground arith, tt))
]

read_units-AllDigits :
    (c : ℕ) (s : Bytes) (u : ℤ) (any : Bool)
    → AllDigits (c ∷ s)
    → (v : ℤ) × (read_units (c ∷ s) u any ≡ (v, true, [])) × Fits i64_half v
unfolding read_units
read_units-AllDigits c [] u any (h, hs) =
    rw h (to_i64 (to_i64 (u *ℤ pos 10) +ℤ pos (c - b'0')), refl, to_i64-Fits _)
read_units-AllDigits c (e ∷ s) u any (h, hs) =
    rw h (read_units-AllDigits e s (to_i64 (to_i64 (u *ℤ pos 10) +ℤ pos (c - b'0'))) true hs)

whole_lem : (u : ℤ) → make u (pos 0) ≡ record { units = u; nano = pos 0 }
unfolding make normalize carry align
whole_lem u = ground arith

from_digits :
    (s : Bytes)
    → AllDigits s
    → s ≢ []
    → (u : ℤ) × (from_string s ≡ some (record { units = u; nano = pos 0 })) × Fits i64_half u
unfolding from_string finish_units finish
from_digits [] a h = absurd (h refl)
from_digits (c ∷ s) a h =
    let (u, e, f) = read_units-AllDigits c s (pos 0) false a in
    let t : (c == b'-' || c == b'+') ≡ false = ground arith in
    (u, rw (t, e) (ap some (whole_lem u)), f)

to_digits-ne-nil : (fuel n : ℕ) → to_digits (suc fuel) n ≢ []
unfolding to_digits
to_digits-ne-nil fuel n e =
    let rest = to_digits fuel (n / 10) in
    let last : Bytes = (b'0' + n % 10) ∷ [] in
    elim (Bool-cases (ltb n 10)) [
      | inl t ↦ ground arith
      | inr t ↦ omega (arith, ap length (rw t at e), length-append {0} rest last)
    ]

-- There is no check for overflow: the digits of a `uint64_t` that no `int64_t` holds are
-- accepted, and a number with other units is returned (signed overflow taken to wrap).
pub from_string_overflow :
    (n : ℕ)
    → i64_half ≤ n
    → n < 2 ^ 64
    → (u : ℤ) × (from_string (to_digits digit_fuel n) ≡ some (record { units = u; nano = pos 0 }))
      × (u ≢ pos n)
from_string_overflow n h k =
    let (u, e, f) =
      from_digits (to_digits digit_fuel n) (to_digits-AllDigits digit_fuel n)
        (to_digits-ne-nil 19 n) in
    (u, e, λ g. omega (arith, ap pos_part g))
