-- ===== src/Algo/Windows.antt =====
-- What the windows of include/tinvest/algo/indicators.hpp hold, and when an indicator is ready.
use mathlib.Core.List.{append_assoc, append-nil}
use tinkoff_invest_sdkv.Prelude.{
  ℕ, zero, suc, ◌-◌, ◌≤◌, ◌≡◌, refl, sym, ap, ◌∙◌, arith, ltb, leb, List, [], ◌∷◌, ◌++◌, length,
  length-append, Bool-cases, inl, inr,
}
use tinkoff_invest_sdkv.Algo.{Double}
use tinkoff_invest_sdkv.Algo.Indicators.{pop_front, slide, Sma, new_sma, push_sma, sma_ready}

-- The list without its first n elements.
unfoldable pub drop {ℓ} : {A : Type ℓ} → ℕ → List A → List A
drop zero xs = xs
drop (suc n) [] = []
drop (suc n) (x ∷ xs) = drop n xs

pub length-drop {ℓ} : {A : Type ℓ} (n : ℕ) (xs : List A) → length (drop n xs) ≡ length xs - n
unfolding drop
length-drop zero xs = omega arith
length-drop (suc n) [] = omega arith
length-drop (suc n) (x ∷ xs) = omega (arith, length-drop n xs)

drop-append {ℓ} :
    {A : Type ℓ} (n : ℕ) (xs ys : List A) → n ≤ length xs → drop n (xs ++ ys) ≡ drop n xs ++ ys
unfolding drop
drop-append zero xs ys h = refl
drop-append (suc n) [] ys h = absurd (omega arith)
drop-append (suc n) (x ∷ xs) ys h = drop-append n xs ys (omega arith)

pop_front-drop {ℓ} : {A : Type ℓ} (n : ℕ) (xs : List A) → pop_front (drop n xs) ≡ drop (suc n) xs
unfolding drop pop_front
pop_front-drop zero [] = refl
pop_front-drop zero (x ∷ xs) = refl
pop_front-drop (suc n) [] = refl
pop_front-drop (suc n) (x ∷ xs) = pop_front-drop n xs

pub drop-nil {ℓ} : {A : Type ℓ} (n : ℕ) → drop {A = A} n [] ≡ []
unfolding drop
drop-nil zero = refl
drop-nil (suc n) = refl

-- One more value slides the window of the last values on.
pub slide-drop {ℓ} :
    {A : Type ℓ} (period : ℕ) (xs : List A) (v : A)
    → slide period (drop (length xs - period) xs) v
      ≡ drop (length (xs ++ v ∷ []) - period) (xs ++ v ∷ [])
unfolding slide
slide-drop period xs v =
    let n = length xs - period in
    let inside : drop n (xs ++ v ∷ []) ≡ drop n xs ++ v ∷ [] =
      drop-append n xs (v ∷ []) (omega arith) in
    let count = length-append {ℓ} (drop n xs) (v ∷ []) in
    let total = length-append {ℓ} xs (v ∷ []) in
    let size = length-drop n xs in
    elim (Bool-cases (ltb period (length (drop n xs ++ v ∷ [])))) [
      | inl t ↦
          let e : suc n ≡ length (xs ++ v ∷ []) - period = ground (arith, count, total, size) in
          rw t (
            ap pop_front (sym inside)
            ∙ pop_front-drop n (xs ++ v ∷ [])
            ∙ ap (λ k. drop k (xs ++ v ∷ [])) e)
      | inr t ↦
          let e : n ≡ length (xs ++ v ∷ []) - period = ground (arith, count, total, size) in
          rw t (sym inside ∙ ap (λ k. drop k (xs ++ v ∷ [])) e)
    ]

module _ (F : Double) where
  -- The values are pushed in order.
  unfoldable pub push_all : Sma F → List F.Carrier → Sma F
  push_all s [] = s
  push_all s (v ∷ vs) = push_all (push_sma F s v) vs

  push_all-window :
      (period : ℕ) (s : Sma F) (xs vs : List F.Carrier)
      → s.period ≡ period
      → s.window ≡ drop (length xs - period) xs
      → ((push_all s vs).window ≡ drop (length (xs ++ vs) - period) (xs ++ vs))
        × ((push_all s vs).period ≡ period)
  unfolding push_all push_sma
  push_all-window period s xs [] p w =
      let e = append-nil xs in (w ∙ ap (λ ys. drop (length ys - period) ys) (sym e), p)
  push_all-window period s xs (v ∷ vs) p w =
      let step : (push_sma F s v).window ≡ drop (length (xs ++ v ∷ []) - period) (xs ++ v ∷ []) =
        ap (λ k. slide k s.window v) p ∙ ap (λ ws. slide period ws v) w ∙ slide-drop period xs v in
      let (a, b) = push_all-window period (push_sma F s v) (xs ++ v ∷ []) vs p step in
      (a ∙ ap (λ ys. drop (length ys - period) ys) (append_assoc xs (v ∷ []) vs), b)

  -- After any values the window of a moving average holds the last `period` of them, or all if they
  -- are fewer, and the average is ready exactly when there are at least `period` values.
  pub push_all_lem :
      (period : ℕ) (vs : List F.Carrier)
      → let s = push_all (new_sma F period) vs in
        (s.window ≡ drop (length vs - period) vs) × (sma_ready F s ≡ leb period (length vs))
  unfolding sma_ready
  push_all_lem period vs =
      let start : [] ≡ drop (0 - period) [] = sym (drop-nil (0 - period)) in
      let (w, p) = push_all-window period (new_sma F period) [] vs refl start in
      let size = length-drop (length vs - period) vs in (w, rw (w, p) (ground (arith, size)))
