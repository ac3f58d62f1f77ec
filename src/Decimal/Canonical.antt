-- ===== src/Decimal/Canonical.antt =====
-- The invariant of the class comment in include/tinvest/decimal.hpp, and what establishes it.
use tinkoff_invest_sdkv.Prelude.{◌+◌, ◌*◌, ◌≤◌, ◌<◌, ◌≡◌, ◌⊎◌, arith, ap, ◌∙◌}
use tinkoff_invest_sdkv.Prelude.Int.{
  ℤ, pos, negsuc, pos_part, neg_part, magnitude, ◌+ℤ◌, ◌-ℤ◌, ◌*ℤ◌, quot, rem, +ℤ_parts, -ℤ_parts,
  eq_of_parts, one_sign,
}
use tinkoff_invest_sdkv.Prelude.Word.{
  Fits, i32_half, i64_half, to_i32, to_i64, to_i32_id, to_i64_id,
}
use tinkoff_invest_sdkv.Decimal.{
  Decimal, nano_base, carry, align, normalize, make, total, from_total,
}

-- No part is negative, or no part is positive.
abbrev pub SameSign : ℤ → ℤ → Type 0
SameSign u n = ((neg_part u ≡ 0) × (neg_part n ≡ 0)) ⊎ ((pos_part u ≡ 0) × (pos_part n ≡ 0))

-- |nano| < 10 ^ 9, one sign, and units in `int64_t`.
pub record IsCanonical (d : Decimal) : Type 0 where
  pub small : magnitude d.nano < nano_base
  pub signs : SameSign d.units d.nano
  pub fits : Fits i64_half d.units

pub total_parts :
    (d : Decimal)
    → pos_part (total d) + neg_part d.units * nano_base + neg_part d.nano
      ≡ neg_part (total d) + pos_part d.units * nano_base + pos_part d.nano
unfolding total ◌*ℤ◌ ◌+ℤ◌
total_parts d = ground arith

-- Quotient and remainder of a division that rounds towards zero.
pub quot-rem :
    (t : ℤ)
    → (pos_part (quot t nano_base) * nano_base + pos_part (rem t nano_base) ≡ pos_part t)
      × (neg_part (quot t nano_base) * nano_base + neg_part (rem t nano_base) ≡ neg_part t)
      × (magnitude (rem t nano_base) < nano_base)
      × SameSign (quot t nano_base) (rem t nano_base)
unfolding quot rem
quot-rem (pos n) = ground arith
quot-rem (negsuc n) = ground arith

-- A total whose whole units fit `int64_t` survives the trip through a `Decimal`, which is canonical.
pub total-from_total :
    (t : ℤ)
    → Fits i64_half (quot t nano_base)
    → IsCanonical (from_total t) × (total (from_total t) ≡ t)
unfolding from_total
total-from_total t f =
    let (p, n, small, signs) = quot-rem t in
    rw (to_i64_id (quot t nano_base) f, to_i32_id (rem t nano_base) (omega arith))
      (let d : Decimal = record { units = quot t nano_base; nano = rem t nano_base } in
        (
          record { small = small; signs = signs; fits = f },
          eq_of_parts (total d) t (omega (arith, total_parts d)),
        ))

-- Two canonical numbers with one total are the same.
pub total-injective : (a b : Decimal) → IsCanonical a → IsCanonical b → total a ≡ total b → a ≡ b
total-injective a b ca cb e =
    let pe = ap pos_part e in
    let ne = ap neg_part e in
    let u : a.units ≡ b.units =
      eq_of_parts a.units b.units (omega (arith, total_parts a, total_parts b, pe, ne)) in
    let v : a.nano ≡ b.nano =
      eq_of_parts a.nano b.nano (omega (arith, total_parts a, total_parts b, pe, ne)) in
    λ i. record { units = u i; nano = v i }

-- The other way round: a canonical number is the one that its total makes.
pub from_total-total : (d : Decimal) → IsCanonical d → from_total (total d) ≡ d
from_total-total d c =
    let (p, n, small, signs) = quot-rem (total d) in
    let (c', e) =
      total-from_total (total d) (omega (arith, total_parts d, c.fits, c.small, c.signs)) in
    total-injective (from_total (total d)) d c' c e

-- The constructor.
carry_lem :
    (d : Decimal)
    → Fits i64_half d.units
    → Fits i32_half d.nano
    → magnitude d.units + 3 ≤ i64_half
    → (total (carry d) ≡ total d)
      × (magnitude (carry d).nano < nano_base)
      × (magnitude (carry d).units + 1 ≤ i64_half)
unfolding carry
carry_lem d fu fn h =
    let q = quot d.nano nano_base in
    let r = rem d.nano nano_base in
    let (p, n, small, signs) = quot-rem d.nano in
    let c : Decimal = record { units = d.units +ℤ q; nano = r } in
    let hq : to_i64 q ≡ q = to_i64_id q (omega arith) in
    let hu : to_i64 (d.units +ℤ q) ≡ d.units +ℤ q =
      to_i64_id (d.units +ℤ q) (omega (arith, +ℤ_parts d.units q, one_sign (d.units +ℤ q))) in
    let hr : to_i32 r ≡ r = to_i32_id r (omega arith) in
    rw (hq, hu, hr)
      (ground
        (arith, +ℤ_parts d.units q, total_parts d, total_parts c, eq_of_parts (total c) (total d)))

align_lem :
    (d : Decimal)
    → magnitude d.nano < nano_base
    → magnitude d.units + 1 ≤ i64_half
    → IsCanonical (align d) × (total (align d) ≡ total d)
unfolding align
align_lem d h k = ground (
  arith,
  -ℤ_parts d.units (pos 1),
  +ℤ_parts d.units (pos 1),
  -ℤ_parts d.nano (pos nano_base),
  +ℤ_parts d.nano (pos nano_base),
  to_i64_id (d.units -ℤ pos 1),
  to_i64_id (d.units +ℤ pos 1),
  to_i32_id (d.nano -ℤ pos nano_base),
  to_i32_id (d.nano +ℤ pos nano_base),
  total_parts d,
  total_parts (align d),
  eq_of_parts (total (align d)) (total d),
)

-- The constructor makes a canonical number of the same value from units of magnitude at most
-- 2 ^ 63 - 3 and any `int32_t` nano part.
pub make_lem :
    (u n : ℤ)
    → Fits i64_half u
    → Fits i32_half n
    → magnitude u + 3 ≤ i64_half
    → let d : Decimal = record { units = u; nano = n } in
      IsCanonical (make u n) × (total (make u n) ≡ total d)
unfolding make normalize
make_lem u n fu fn h =
    let d : Decimal = record { units = u; nano = n } in
    let (same, small, room) = carry_lem d fu fn h in
    let (c, e) = align_lem (carry d) small room in (c, e ∙ same)
