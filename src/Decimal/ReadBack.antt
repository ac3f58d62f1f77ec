-- ===== src/Decimal/ReadBack.antt =====
-- What the loops of `from_string` in include/tinvest/decimal.hpp make of printed digits.
use native.Mathlib.Nat.{pow-suc}
use mathlib.Core.List.{append_assoc}
use tinkoff_invest_sdkv.Prelude.{
  ℕ, zero, suc, ◌+◌, ◌-◌, ◌*◌, ◌/◌, ◌%◌, ◌^◌, ◌≤◌, ◌<◌, ◌≡◌, refl, sym, ap, ◌∙◌, arith, inl, inr,
  Bool, true, false, [], ◌∷◌, ◌++◌, Bytes, All, ltb, ◌==◌, Bool-cases,
}
use tinkoff_invest_sdkv.Prelude.Int.{pos, ◌+ℤ◌, ◌*ℤ◌, *ℤ_pos_parts, +ℤ_parts, eq_of_parts}
use tinkoff_invest_sdkv.Prelude.Word.{i32_half, i64_half, to_i64, to_i32_id, to_i64_id}
use tinkoff_invest_sdkv.Prelude.Digits.{to_digits, digit_fuel}
use tinkoff_invest_sdkv.Decimal.{nano_base}
use tinkoff_invest_sdkv.Decimal.Text.{
  fill, strip_zeros, fraction, is_digit, read_units, read_nano, keep_unless_zero, finish,
  finish_nano, finish_units,
}

push_digit :
    (n d : ℕ)
    → n * 10 + d < i64_half
    → to_i64 (to_i64 (pos n *ℤ pos 10) +ℤ pos d) ≡ pos (n * 10 + d)
push_digit n d h =
    let m : pos n *ℤ pos 10 ≡ pos (n * 10) =
      eq_of_parts (pos n *ℤ pos 10) (pos (n * 10)) (omega (arith, *ℤ_pos_parts (pos n) 10)) in
    let p : pos (n * 10) +ℤ pos d ≡ pos (n * 10 + d) =
      eq_of_parts (pos (n * 10) +ℤ pos d) (pos (n * 10 + d))
        (omega (arith, +ℤ_parts (pos (n * 10)) (pos d))) in
    rw (m, to_i64_id (pos (n * 10)) (omega arith), p, to_i64_id (pos (n * 10 + d)) (omega arith))
      refl

read_units-digit :
    (c n : ℕ) (s : Bytes) (any : Bool)
    → c < 10
    → n * 10 + c < i64_half
    → read_units ((b'0' + c) ∷ s) (pos n) any ≡ read_units s (pos (n * 10 + c)) true
unfolding read_units
read_units-digit c n s any h k =
    let t : is_digit (b'0' + c) ≡ true = ground arith in
    let e : b'0' + c - b'0' ≡ c = omega arith in rw (t, e, push_digit n c k) refl

first_digit :
    (n : ℕ) (rest : Bytes) (any : Bool)
    → n < 10
    → read_units ((b'0' + n) ∷ rest) (pos 0) any ≡ read_units rest (pos n) true
first_digit n rest any h =
    let e : 0 * 10 + n ≡ n = omega arith in
    read_units-digit n 0 rest any h (omega arith) ∙ ap (λ m. read_units rest (pos m) true) e

-- The digits of a number are read back as the number, whatever follows.
read_units-to_digits :
    (fuel n : ℕ) (rest : Bytes) (any : Bool)
    → 0 < fuel
    → n < 10 ^ fuel
    → n < i64_half
    → read_units (to_digits fuel n ++ rest) (pos 0) any ≡ read_units rest (pos n) true
unfolding to_digits
read_units-to_digits zero n rest any l h k = absurd (omega arith)
read_units-to_digits (suc zero) n rest any l h k =
    let t : ltb n 10 ≡ true = ground (arith, pow-suc 10 0) in
    rw t (first_digit n rest any (omega arith))
read_units-to_digits (suc (suc fuel)) n rest any l h k = elim (Bool-cases (ltb n 10)) [
  | inl t ↦ rw t (first_digit n rest any (ground arith))
  | inr t ↦
      let last = b'0' + n % 10 in
      let same : n / 10 * 10 + n % 10 ≡ n = omega arith in
      rw t (
        ap (λ s. read_units s (pos 0) any)
          (append_assoc (to_digits (suc fuel) (n / 10)) (last ∷ []) rest)
        ∙ read_units-to_digits (suc fuel) (n / 10) (last ∷ rest) any (omega arith)
            (omega (arith, pow-suc 10 (suc fuel))) (omega arith)
        ∙ read_units-digit (n % 10) (n / 10) rest true (omega arith) (omega arith)
        ∙ ap (λ m. read_units rest (pos m) true) same)
]

abbrev AllDigits : Bytes → Type 0
AllDigits = All (λ c. (b'0' ≤ c) × (c ≤ b'9'))

-- The value of a fraction whose first digit counts `scale`.
fraction_value : Bytes → ℕ → ℕ
fraction_value [] scale = 0
fraction_value (c ∷ s) scale = (c - b'0') * scale + fraction_value s (scale / 10)

read_nano-value :
    (s : Bytes) (a scale : ℕ)
    → AllDigits s
    → a + fraction_value s scale < i32_half
    → read_nano s (pos a) scale true ≡ (pos (a + fraction_value s scale), true, [])
unfolding read_nano fraction_value
read_nano-value [] a scale h k = let e : a + 0 ≡ a = omega arith in rw e refl
read_nano-value (c ∷ s) a scale h k =
    let v = (c - b'0') * scale in
    let t : is_digit c ≡ true = ground arith in
    let p : pos a +ℤ pos v ≡ pos (a + v) =
      eq_of_parts (pos a +ℤ pos v) (pos (a + v)) (omega (arith, +ℤ_parts (pos a) (pos v))) in
    let e : a + v + fraction_value s (scale / 10) ≡ a + (v + fraction_value s (scale / 10)) =
      omega arith in
    rw (t, to_i32_id (pos v) (omega arith), p, to_i32_id (pos (a + v)) (omega arith))
      (read_nano-value s (a + v) (scale / 10) h.1 (omega arith) ∙ ap (λ m. (pos m, true, [])) e)

keep-AllDigits : (c : ℕ) (s : Bytes) → AllDigits (c ∷ s) → AllDigits (keep_unless_zero c s)
unfolding keep_unless_zero
keep-AllDigits c [] h = ground arith
keep-AllDigits c (e ∷ s) h = h

strip_zeros-AllDigits : (s : Bytes) → AllDigits s → AllDigits (strip_zeros s)
unfolding strip_zeros
strip_zeros-AllDigits [] h = tt
strip_zeros-AllDigits (c ∷ s) h =
    keep-AllDigits c (strip_zeros s) (h.0, strip_zeros-AllDigits s h.1)

fraction_value-keep :
    (c : ℕ) (s : Bytes) (scale : ℕ)
    → fraction_value (keep_unless_zero c s) scale ≡ fraction_value (c ∷ s) scale
unfolding keep_unless_zero fraction_value
fraction_value-keep c [] scale = elim (Bool-cases (c == b'0')) [
  | inl t ↦ let e : c ≡ b'0' = ground arith in rw t (rw e (omega arith))
  | inr t ↦ rw t refl
]
fraction_value-keep c (e ∷ s) scale = refl

fraction_value-cons :
    (c : ℕ) (s : Bytes) (scale : ℕ)
    → fraction_value (c ∷ s) scale ≡ (c - b'0') * scale + fraction_value s (scale / 10)
unfolding fraction_value
fraction_value-cons c s scale = refl

-- Zeros at the end of a fraction count nothing.
fraction_value-strip_zeros :
    (s : Bytes) (scale : ℕ) → fraction_value (strip_zeros s) scale ≡ fraction_value s scale
unfolding strip_zeros
fraction_value-strip_zeros [] scale = refl
fraction_value-strip_zeros (c ∷ s) scale =
    fraction_value-keep c (strip_zeros s) scale
    ∙ fraction_value-cons c (strip_zeros s) scale
    ∙ ap (λ v. (c - b'0') * scale + v) (fraction_value-strip_zeros s (scale / 10))
    ∙ sym (fraction_value-cons c s scale)

digit_back : (d : ℕ) → b'0' + d - b'0' ≡ d
digit_back d = omega arith

fill-value : (frac : ℕ) → frac < nano_base → fraction_value (fill 9 frac []) 100_000_000 ≡ frac
unfolding fraction_value fill
fill-value frac h = simp digit_back (omega arith)

fill-AllDigits : (frac : ℕ) → AllDigits (fill 9 frac [])
unfolding fill
fill-AllDigits frac = omega arith

finish_units-point :
    (minus : Bool) (u f : ℕ)
    → f < nano_base
    → finish_units minus (read_units (b'.' ∷ strip_zeros (fill 9 f [])) (pos u) true)
      ≡ finish minus (pos u) (pos f) true
unfolding finish_units read_units finish_nano
finish_units-point minus u f h =
    let s = strip_zeros (fill 9 f []) in
    let v : fraction_value s 100_000_000 ≡ f =
      fraction_value-strip_zeros (fill 9 f []) 100_000_000 ∙ fill-value f h in
    let r =
      read_nano-value s 0 100_000_000 (strip_zeros-AllDigits _ (fill-AllDigits f))
        (omega (arith, v)) in
    let z : 0 + fraction_value s 100_000_000 ≡ f = omega (arith, v) in rw (r, z) refl

-- The two parts of a text are read back, after the sign.
pub finish_units-body :
    (minus : Bool) (u f : ℕ)
    → u < i64_half
    → f < nano_base
    → finish_units minus (read_units (to_digits digit_fuel u ++ fraction f) (pos 0) false)
      ≡ finish minus (pos u) (pos f) true
unfolding fraction
finish_units-body minus u f hu hf =
    rw (read_units-to_digits digit_fuel u (fraction f) false (omega arith) (omega arith) hu)
      (elim (Bool-cases (f == 0)) [
        | inl t ↦
            let e : f ≡ 0 = ground arith in rw t (rw e (unfold read_units finish_units in refl))
        | inr t ↦ rw t (finish_units-point minus u f hf)
      ])
