-- ===== src/Decimal/Order.antt =====
-- The comparisons of include/tinvest/decimal.hpp.
use tinkoff_invest_sdkv.Prelude.{◌+◌, ◌<◌, ◌≡◌, ap, arith, ◌↔◌, ◌⊎◌, inl, inr, true, false}
use tinkoff_invest_sdkv.Prelude.Int.{ℤ, pos_part, neg_part, eq_of_parts, one_sign}
use tinkoff_invest_sdkv.Decimal.{Decimal, total, eq, lt, gt}
use tinkoff_invest_sdkv.Decimal.Canonical.{IsCanonical, total_parts, total-injective}

-- a < b, for integers.
abbrev pub Less : ℤ → ℤ → Type 0
Less a b = pos_part a + neg_part b < pos_part b + neg_part a

-- The parts in the order of a dictionary.
abbrev pub LexLess : Decimal → Decimal → Type 0
LexLess a b = Less a.units b.units ⊎ (a.units ≡ b.units) × Less a.nano b.nano

Less-iff : (a b : Decimal) → (lt a b ≡ true) ↔ Less (total a) (total b)
unfolding lt
Less-iff a b = ground arith

lex_intro : (a b : Decimal) → IsCanonical a → IsCanonical b → Less (total a) (total b) → LexLess a b
lex_intro a b ca cb h = ground (arith, total_parts a, total_parts b, eq_of_parts a.units b.units)

lex_elim : (a b : Decimal) → IsCanonical a → IsCanonical b → LexLess a b → Less (total a) (total b)
lex_elim a b ca cb (inl h) = omega (
  arith,
  total_parts a,
  total_parts b,
  ca.small,
  cb.small,
  ca.signs,
  cb.signs,
  one_sign a.units,
  one_sign b.units,
)
lex_elim a b ca cb (inr (e, h)) =
    omega (arith, total_parts a, total_parts b, ap pos_part e, ap neg_part e)

-- `<` on canonical numbers compares the units first and the nano parts of equal units next.
pub lt_iff : (a b : Decimal) → IsCanonical a → IsCanonical b → (lt a b ≡ true) ↔ LexLess a b
lt_iff a b ca cb =
    (λ h. lex_intro a b ca cb ((Less-iff a b).0 h), λ h. (Less-iff a b).1 (lex_elim a b ca cb h))

-- `==` decides equality.
pub eq_iff : (a b : Decimal) → (eq a b ≡ true) ↔ (a ≡ b)
unfolding eq
eq_iff a b = (
  λ h.
      let u : a.units ≡ b.units = eq_of_parts a.units b.units (ground arith) in
      let v : a.nano ≡ b.nano = eq_of_parts a.nano b.nano (ground arith) in
      λ i. record { units = u i; nano = v i },
  λ e. ground (arith, ap (λ (d : Decimal). d.units) e, ap (λ (d : Decimal). d.nano) e),
)

eq_of_total : (a b : Decimal) → IsCanonical a → IsCanonical b → total a ≡ total b → eq a b ≡ true
eq_of_total a b ca cb e = (eq_iff a b).1 (total-injective a b ca cb e)

total_of_eq : (a b : Decimal) → eq a b ≡ true → total a ≡ total b
total_of_eq a b h = ap total ((eq_iff a b).0 h)

-- On canonical numbers exactly one of <, == and > holds.
pub lt_trichotomy :
    (a b : Decimal)
    → IsCanonical a
    → IsCanonical b
    → ((lt a b ≡ true) × (eq a b ≡ false) × (gt a b ≡ false))
      ⊎ ((lt a b ≡ false) × (eq a b ≡ true) × (gt a b ≡ false))
      ⊎ ((lt a b ≡ false) × (eq a b ≡ false) × (gt a b ≡ true))
unfolding gt lt
lt_trichotomy a b ca cb =
    ground (arith, eq_of_total a b ca cb, eq_of_parts (total a) (total b), total_of_eq a b)
