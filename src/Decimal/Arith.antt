-- ===== src/Decimal/Arith.antt =====
-- Sums, differences, negation and integer multiples of include/tinvest/decimal.hpp are exact.
use tinkoff_invest_sdkv.Prelude.{ℕ, suc, ◌≡◌, sym, ap, ◌∙◌, arith}
use tinkoff_invest_sdkv.Prelude.Int.{
  ℤ, pos, negsuc, pos_part, neg_part, ◌+ℤ◌, ◌-ℤ◌, ◌*ℤ◌, neg, quot, +ℤ_parts, eq_of_parts, int_laws,
  *ℤ_pos_parts,
}
use tinkoff_invest_sdkv.Prelude.Word.{Fits, i64_half, i128_half, to_i128_id}
use tinkoff_invest_sdkv.Decimal.{Decimal, nano_base, total, from_total, add, sub, negate, scale}
use tinkoff_invest_sdkv.Decimal.Canonical.{IsCanonical, total-from_total, from_total-total}

-- The whole units of a total fit `int64_t`.
abbrev pub IsRepresentable : ℤ → Type 0
IsRepresentable t = Fits i64_half (quot t nano_base)

pub total-add :
    (a b : Decimal)
    → IsRepresentable (total a +ℤ total b)
    → IsCanonical (add a b) × (total (add a b) ≡ total a +ℤ total b)
unfolding add
total-add a b r = total-from_total (total a +ℤ total b) r

pub total-sub :
    (a b : Decimal)
    → IsRepresentable (total a -ℤ total b)
    → IsCanonical (sub a b) × (total (sub a b) ≡ total a -ℤ total b)
unfolding sub
total-sub a b r = total-from_total (total a -ℤ total b) r

+ℤ_cancel : (a b : ℤ) → a +ℤ b -ℤ b ≡ a
+ℤ_cancel a b = omega int_laws

+ℤ_assoc : (a b c : ℤ) → a +ℤ b +ℤ c ≡ a +ℤ (b +ℤ c)
+ℤ_assoc a b c = omega int_laws

-- Taking off again what was added gives the number back.
pub sub-add :
    (a b : Decimal) → IsCanonical a → IsRepresentable (total a +ℤ total b) → sub (add a b) b ≡ a
unfolding sub
sub-add a b c r =
    ap (λ t. from_total (t -ℤ total b)) (total-add a b r).1
    ∙ ap from_total (+ℤ_cancel (total a) (total b))
    ∙ from_total-total a c

-- Sums may be regrouped while the partial sums fit.
pub add_assoc :
    (a b c : Decimal)
    → IsRepresentable (total a +ℤ total b)
    → IsRepresentable (total b +ℤ total c)
    → add (add a b) c ≡ add a (add b c)
add_assoc a b c r s =
    unfold add in
    (ap (λ t. from_total (t +ℤ total c)) (total-add a b r).1
      ∙ ap from_total (+ℤ_assoc (total a) (total b) (total c))
      ∙ ap (λ t. from_total (total a +ℤ t)) (sym (total-add b c s).1))

neg_parts : (z : ℤ) → (pos_part (neg z) ≡ neg_part z) × (neg_part (neg z) ≡ pos_part z)
unfolding neg
neg_parts (pos n) = ground arith
neg_parts (negsuc n) = ground arith

-- Negation is its own inverse, but where the units are the least `int64_t`.
pub negate-negate :
    (a : Decimal) → IsCanonical a → IsRepresentable (neg (total a)) → negate (negate a) ≡ a
unfolding negate
negate-negate a c r =
    ap (λ t. from_total (neg t)) (total-from_total (neg (total a)) r).1
    ∙ ap from_total (
        eq_of_parts (neg (neg (total a))) (total a)
          (omega (arith, neg_parts (total a), neg_parts (neg (total a)))))
    ∙ from_total-total a c

*ℤ_suc : (z : ℤ) (n : ℕ) → z *ℤ pos n +ℤ z ≡ z *ℤ pos (suc n)
*ℤ_suc z n =
    eq_of_parts (z *ℤ pos n +ℤ z) (z *ℤ pos (suc n))
      (omega (arith, +ℤ_parts (z *ℤ pos n) z, *ℤ_pos_parts z n, *ℤ_pos_parts z (suc n)))

-- A product by a whole number is the repeated sum.
pub scale-suc :
    (a : Decimal) (n : ℕ)
    → IsRepresentable (total a *ℤ pos n)
    → Fits i128_half (total a *ℤ pos n)
    → Fits i128_half (total a *ℤ pos (suc n))
    → scale a (pos (suc n)) ≡ add (scale a (pos n)) a
unfolding scale
scale-suc a n r f g =
    unfold add in
    (ap from_total (to_i128_id (total a *ℤ pos (suc n)) g ∙ sym (*ℤ_suc (total a) n))
      ∙ ap (λ t. from_total (t +ℤ total a))
          (sym (
            ap (λ t. total (from_total t)) (to_i128_id (total a *ℤ pos n) f)
            ∙ (total-from_total (total a *ℤ pos n) r).1)))
