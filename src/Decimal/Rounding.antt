-- ===== src/Decimal/Rounding.antt =====
-- `div_round` of include/tinvest/decimal.hpp and the products and quotients made of it.
use tinkoff_invest_sdkv.Prelude.{
  ℕ, zero, suc, ◌+◌, ◌*◌, ◌/◌, ◌≤◌, ◌<◌, ◌≡◌, refl, ap, arith, ◌⊎◌, inl, inr, sym, subst, ◌≢◌, not,
  bool_eq, some, none, Option,
}
use mathlib.Core.Option
use tinkoff_invest_sdkv.Prelude.Int.{
  ℤ, pos, negsuc, magnitude, ◌+ℤ◌, ◌-ℤ◌, ◌*ℤ◌, neg, quot, div, is_neg, sub_ℕ, eq_of_parts, one_sign,
  *ℤ_pos_parts,
}
use tinkoff_invest_sdkv.Prelude.Word.{Fits, i64_half, i128_half, to_i128_id}
use tinkoff_invest_sdkv.Decimal.{
  Decimal, nano_base, total, from_total, mul, div_by, ratio, div_round, div_rounded,
}
use tinkoff_invest_sdkv.Decimal.Canonical.{IsCanonical, total-from_total, total_parts}
use tinkoff_invest_sdkv.Decimal.Arith.{IsRepresentable}

-- `q` is num / den rounded to the nearest integer, a tie away from zero.
pub record IsNearest (num den q : ℤ) : Type 0 where
  pub not_above : 2 * (magnitude q * magnitude den) ≤ 2 * magnitude num + magnitude den
  pub not_below : 2 * magnitude num < 2 * (magnitude q * magnitude den) + magnitude den
  pub sign : (q ≡ pos 0) ⊎ (is_neg q ≡ not (bool_eq (is_neg num) (is_neg den)))

nearest_ℕ :
    (n d : ℕ)
    → d ≢ 0
    → let q = (n + d / 2) / d in (2 * (q * d) ≤ 2 * n + d) × (2 * n < 2 * (q * d) + d)
nearest_ℕ n zero h = absurd (h refl)
nearest_ℕ n (suc d) h = grind arith

-- Room in `__int128` for the half that is added before the division.
abbrev pub HasRoom : ℤ → ℤ → Type 0
HasRoom num den = magnitude num + magnitude den < i128_half

-- The magnitude and the sign of the rounded quotient.
abbrev HasForm : ℤ → ℤ → ℤ → Type 0
HasForm num den v =
    (magnitude v ≡ (magnitude num + magnitude den / 2) / magnitude den)
    × ((v ≡ pos 0) ⊎ (is_neg v ≡ not (bool_eq (is_neg num) (is_neg den))))

pos_add : (a b : ℕ) → pos a +ℤ pos b ≡ pos (a + b)
unfolding ◌+ℤ◌
pos_add a b = ground arith

pos_sub_neg : (a b : ℕ) → pos a -ℤ sub_ℕ 0 b ≡ pos (a + b)
unfolding ◌-ℤ◌
pos_sub_neg a b = ground arith

negsuc_sub : (a b : ℕ) → negsuc a -ℤ pos b ≡ negsuc (a + b)
unfolding ◌-ℤ◌
negsuc_sub a b = ground arith

negsuc_add_neg : (a b : ℕ) → negsuc a +ℤ sub_ℕ 0 b ≡ negsuc (a + b)
unfolding ◌+ℤ◌
negsuc_add_neg a b = ground arith

div_rounded-HasForm :
    (num den : ℤ) → den ≢ pos 0 → HasRoom num den → HasForm num den (div_rounded num den)
unfolding div_rounded div quot neg
div_rounded-HasForm num (pos zero) h r = absurd (h refl)
div_rounded-HasForm (pos n) (pos (suc d)) h r =
    rw (pos_add n (suc d / 2), to_i128_id (pos (n + suc d / 2)) (omega arith)) (ground arith)
div_rounded-HasForm (negsuc n) (pos (suc d)) h r =
    rw (negsuc_sub n (suc d / 2), to_i128_id (negsuc (n + suc d / 2)) (omega arith)) (ground arith)
div_rounded-HasForm (pos n) (negsuc d) h r =
    rw (pos_sub_neg n (suc d / 2), to_i128_id (pos (n + suc d / 2)) (omega arith)) (ground arith)
div_rounded-HasForm (negsuc n) (negsuc d) h r =
    rw (negsuc_add_neg n (suc d / 2), to_i128_id (negsuc (n + suc d / 2)) (omega arith))
      (ground arith)

magnitude-ne-zero : (z : ℤ) → z ≢ pos 0 → magnitude z ≢ 0
magnitude-ne-zero (pos zero) h = absurd (h refl)
magnitude-ne-zero (pos (suc n)) h = omega arith
magnitude-ne-zero (negsuc n) h = omega arith

div_rounded-IsNearest :
    (num den : ℤ) → den ≢ pos 0 → HasRoom num den → IsNearest num den (div_rounded num den)
div_rounded-IsNearest num den h r =
    let (m, s) = div_rounded-HasForm num den h r in
    let (low, high) = nearest_ℕ (magnitude num) (magnitude den) (magnitude-ne-zero den h) in
    record { not_above = rw m low; not_below = rw m high; sign = s }

div_round-some : (num den : ℤ) → den ≢ pos 0 → div_round num den ≡ some (div_rounded num den)
unfolding div_round
div_round-some num den h = ground (arith, eq_of_parts den (pos 0))

-- A division traps on zero alone; otherwise `div_round` returns the nearest integer.
pub div_round_lem :
    (num den : ℤ)
    → HasRoom num den
    → ((den ≡ pos 0) × (div_round num den ≡ none))
      ⊎ ((q : ℤ) × (div_round num den ≡ some q) × IsNearest num den q)
div_round_lem num (pos zero) r = unfold div_round in (inl (refl, refl))
div_round_lem num (pos (suc d)) r =
    let h : pos (suc d) ≢ pos 0 = λ e. cc in
    inr (
      div_rounded num (pos (suc d)),
      div_round-some num (pos (suc d)) h,
      div_rounded-IsNearest num (pos (suc d)) h r,
    )
div_round_lem num (negsuc d) r =
    let h : negsuc d ≢ pos 0 = λ e. cc in
    inr (
      div_rounded num (negsuc d),
      div_round-some num (negsuc d) h,
      div_rounded-IsNearest num (negsuc d) h r,
    )

-- The exact quotient lies inside the units of `int64_t`.
abbrev pub InUnits : ℤ → ℤ → Type 0
InUnits num den = 2 * magnitude num + magnitude den < 2 * (i64_half * nano_base * magnitude den)

cancel_lt : (q k d : ℕ) → 2 * (q * d) < 2 * (k * d) → q < k
cancel_lt q k d h = grind arith

quot-Fits : (q : ℤ) → magnitude q < i64_half * nano_base → IsRepresentable q
unfolding quot
quot-Fits (pos n) h = ground arith
quot-Fits (negsuc n) h = ground arith

-- What a rounded quotient turned into a `Decimal` is.
abbrev pub IsQuotient : ℤ → ℤ → Option Decimal → Type 0
IsQuotient num den r = (d : Decimal) × (r ≡ some d) × IsCanonical d × IsNearest num den (total d)

quotient_lem :
    (num den : ℤ)
    → den ≢ pos 0
    → HasRoom num den
    → InUnits num den
    → IsQuotient num den (Option.map from_total (div_round num den))
quotient_lem num den h r u =
    let q = div_rounded num den in
    let n = div_rounded-IsNearest num den h r in
    let small : magnitude q < i64_half * nano_base =
      cancel_lt (magnitude q) (i64_half * nano_base) (magnitude den) (omega (arith, n.not_above)) in
    let (c, e) = total-from_total q (quot-Fits q small) in
    (
      from_total q,
      ap (Option.map from_total) (div_round-some num den h),
      c,
      subst (IsNearest num den) (sym e) n,
    )

-- A product is the canonical number nearest to the exact one, if that stays within `int64_t` units.
pub mul_lem :
    (a b : Decimal)
    → magnitude (total a *ℤ total b) + nano_base ≤ i64_half * nano_base * nano_base
    → IsQuotient (total a *ℤ total b) (pos nano_base) (mul a b)
unfolding mul
mul_lem a b h =
    rw (to_i128_id (total a *ℤ total b) (omega arith))
      (quotient_lem (total a *ℤ total b) (pos nano_base) (λ e. cc) (omega arith) (omega arith))

total_bound : (d : Decimal) → IsCanonical d → magnitude (total d) ≤ i64_half * nano_base + nano_base
total_bound d c = omega (arith, total_parts d, one_sign (total d), c.fits, c.small, c.signs)

-- So is a quotient by an integer that is not zero.
pub div_by_lem :
    (a : Decimal) (k : ℤ)
    → IsCanonical a
    → Fits i64_half k
    → k ≢ pos 0
    → InUnits (total a) k
    → IsQuotient (total a) k (div_by a k)
unfolding div_by
div_by_lem a k c f h u = quotient_lem (total a) k h (omega (arith, total_bound a c, one_sign k)) u

-- So is a quotient of two numbers; the scaled dividend always fits `__int128`.
pub ratio_lem :
    (a b : Decimal)
    → IsCanonical a
    → IsCanonical b
    → total b ≢ pos 0
    → InUnits (total a *ℤ pos nano_base) (total b)
    → IsQuotient (total a *ℤ pos nano_base) (total b) (ratio a b)
unfolding ratio
ratio_lem a b ca cb h u =
    let n = total a *ℤ pos nano_base in
    let room : HasRoom n (total b) =
      omega (arith, total_bound a ca, total_bound b cb, *ℤ_pos_parts (total a) nano_base) in
    rw (to_i128_id n (omega arith)) (quotient_lem n (total b) h room u)
