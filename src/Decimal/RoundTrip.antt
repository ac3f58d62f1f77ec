-- ===== src/Decimal/RoundTrip.antt =====
-- `from_string` of include/tinvest/decimal.hpp reads back what `to_string` prints.
use mathlib.Core.List.{append_assoc}
use tinkoff_invest_sdkv.Prelude.{
  ℕ, zero, suc, ◌+◌, ◌/◌, ◌%◌, ◌^◌, ◌≤◌, ◌<◌, ◌≡◌, refl, sym, ap, subst, ◌||◌, ◌∙◌, arith, inl, inr,
  true, false, [], ◌∷◌, ◌++◌, some, Bytes, ltb, Bool-cases,
}
use tinkoff_invest_sdkv.Prelude.Int.{ℤ, pos, negsuc, pos_part, magnitude, neg, is_neg}
use tinkoff_invest_sdkv.Prelude.Word.{i64_half, to_i32_id, to_i64_id}
use tinkoff_invest_sdkv.Prelude.Digits.{to_digits, digit_fuel}
use tinkoff_invest_sdkv.Decimal.{Decimal, make, normalize, carry, align}
use tinkoff_invest_sdkv.Decimal.Canonical.{IsCanonical}
use tinkoff_invest_sdkv.Decimal.Text.{
  abs_units, to_string, read_units, finish, finish_units, from_string,
}
use tinkoff_invest_sdkv.Decimal.ReadBack.{finish_units-body}

abbrev StartsWithDigit : Bytes → Type 0
StartsWithDigit [] = ⊥
StartsWithDigit (c ∷ s) = (b'0' ≤ c) × (c ≤ b'9')

to_digits-StartsWithDigit :
    (fuel n : ℕ) (rest : Bytes) → 0 < fuel → StartsWithDigit (to_digits fuel n ++ rest)
unfolding to_digits
to_digits-StartsWithDigit zero n rest h = absurd (omega arith)
to_digits-StartsWithDigit (suc zero) n rest h = ground arith
to_digits-StartsWithDigit (suc (suc fuel)) n rest h = elim (Bool-cases (ltb n 10)) [
  | inl t ↦ rw t (ground arith)
  | inr t ↦ rw t (
      subst StartsWithDigit
        (sym (append_assoc (to_digits (suc fuel) (n / 10)) ((b'0' + n % 10) ∷ []) rest))
        (to_digits-StartsWithDigit (suc fuel) (n / 10) ((b'0' + n % 10) ∷ rest) (omega arith)))
]

from_string-unsigned :
    (s : Bytes)
    → StartsWithDigit s
    → from_string s ≡ finish_units false (read_units s (pos 0) false)
unfolding from_string
from_string-unsigned [] h = absurd h
from_string-unsigned (c ∷ s) h = ground arith

from_string-minus :
    (s : Bytes) → from_string (b'-' ∷ s) ≡ finish_units true (read_units s (pos 0) false)
unfolding from_string
from_string-minus s = refl

-- The constructor leaves a canonical number alone.
make_canonical : (d : Decimal) → IsCanonical d → make d.units d.nano ≡ d
unfolding make normalize carry align
make_canonical d c = ground arith

finish-plus :
    (d : Decimal) (u f : ℕ)
    → IsCanonical d
    → d.units ≡ pos u
    → d.nano ≡ pos f
    → finish false (pos u) (pos f) true ≡ some d
unfolding finish
finish-plus d u f c e g =
    ap some
      (ap (λ n. make (pos u) n) (sym g) ∙ ap (λ n. make n d.nano) (sym e) ∙ make_canonical d c)

neg_pos : (z : ℤ) → pos_part z ≡ 0 → neg (pos (magnitude z)) ≡ z
unfolding neg
neg_pos (pos n) h = ground arith
neg_pos (negsuc n) h = ground arith

finish-minus :
    (d : Decimal)
    → IsCanonical d
    → pos_part d.units ≡ 0
    → pos_part d.nano ≡ 0
    → finish true (pos (magnitude d.units)) (pos (magnitude d.nano)) true ≡ some d
unfolding finish
finish-minus d c e g =
    rw
      (
        neg_pos d.units e,
        neg_pos d.nano g,
        to_i64_id d.units c.fits,
        to_i32_id d.nano (omega (arith, c.small)),
      )
      (ap some (make_canonical d c))

abs_units-magnitude : (z : ℤ) → magnitude z < i64_half → abs_units z ≡ magnitude z
unfolding abs_units
abs_units-magnitude (pos n) h = omega arith
abs_units-magnitude (negsuc n) h = omega arith

-- Reading what was printed gives the number back, but for units that are the least `int64_t`.
pub from_string-to_string :
    (d : Decimal)
    → IsCanonical d
    → magnitude d.units < i64_half
    → from_string (to_string d) ≡ some d
unfolding to_string
from_string-to_string d c h =
    let f : magnitude d.nano % 2 ^ 32 ≡ magnitude d.nano = omega (arith, c.small) in
    rw (abs_units-magnitude d.units h, f)
      (elim (Bool-cases (is_neg d.units || is_neg d.nano)) [
        | inl t ↦ rw t (
            from_string-minus _
            ∙ finish_units-body true (magnitude d.units) (magnitude d.nano) h c.small
            ∙ finish-minus d c (ground arith) (ground arith))
        | inr t ↦ rw t (
            from_string-unsigned _ (to_digits-StartsWithDigit digit_fuel _ _ (omega arith))
            ∙ finish_units-body false (magnitude d.units) (magnitude d.nano) h c.small
            ∙ finish-plus d (magnitude d.units) (magnitude d.nano) c (ground arith) (ground arith))
      ])
