-- ===== src/Algo/Averages.antt =====
-- The exponential average of include/tinvest/algo/indicators.hpp against its textbook definition.
use tinkoff_invest_sdkv.Prelude.{
  ℕ, ◌+◌, ◌<◌, ◌≡◌, refl, sym, ap, ◌∙◌, arith, Bool, true, false, not, if◌then◌else◌, ltb, ◌==◌,
  List, [], ◌∷◌, ◌++◌, length, length-append, subst,
}
use tinkoff_invest_sdkv.Algo.{Double}
use tinkoff_invest_sdkv.Algo.Indicators.{
  slide, front, num, add_all, Sma, push_sma, sma_ready, sma_value, Ema, new_ema, push_ema,
}

-- A window that is not full only grows.
slide_grows {ℓ} :
    {A : Type ℓ} (period : ℕ) (w : List A) (v : A)
    → length w < period
    → slide period w v ≡ w ++ v ∷ []
unfolding slide
slide_grows period w v h =
    let t : ltb period (length (w ++ v ∷ [])) ≡ false =
      ground (arith, length-append {ℓ} w (v ∷ [])) in
    rw t refl

module _ (F : Double) where
  pub push_sma_grows :
      (s : Sma F) (v : F.Carrier)
      → length s.window < s.period
      → push_sma F s v ≡ record s { window = s.window ++ v ∷ []; sum = F.plus s.sum v }
  unfolding push_sma
  push_sma_grows s v h =
      let t : ltb s.period (length (s.window ++ v ∷ [])) ≡ false =
        ground (arith, length-append {0} s.window (v ∷ [])) in
      let total = F.plus s.sum v in
      λ i. record s {
        window = slide_grows s.period s.window v h i;
        sum = ap (λ b. if b then F.minus total (front v (s.window ++ v ∷ [])) else total) t i;
      }

  -- The values are pushed in order.
  unfoldable pub push_all_ema : Ema F → List F.Carrier → Ema F
  push_all_ema e [] = e
  push_all_ema e (v ∷ vs) = push_all_ema (push_ema F e v) vs

  push_all_ema-append :
      (e : Ema F) (us vs : List F.Carrier)
      → push_all_ema e (us ++ vs) ≡ push_all_ema (push_all_ema e us) vs
  unfolding push_all_ema
  push_all_ema-append e [] vs = refl
  push_all_ema-append e (u ∷ us) vs = push_all_ema-append (push_ema F e u) us vs

  -- The textbook recursion from a value on.
  unfoldable pub smooth_all : F.Carrier → F.Carrier → List F.Carrier → F.Carrier
  smooth_all k value [] = value
  smooth_all k value (v ∷ vs) =
      smooth_all k (F.plus (F.times v k) (F.times value (F.minus (num F 1) k))) vs

  -- The arithmetic mean.
  unfoldable pub mean : List F.Carrier → F.Carrier
  mean vs = F.over (add_all F (num F 0) vs) (num F (length vs))

  -- The seed with one value more.
  abbrev grown : Ema F → F.Carrier → Sma F
  grown e v = record e.seed { window = e.seed.window ++ v ∷ []; sum = F.plus e.seed.sum v }

  -- The branches of `push`: whether it is not yet ready, and whether the seed is full now.
  abbrev branch : Ema F → F.Carrier → Bool → Bool → Sma F → Ema F
  branch e v waits filled seed =
      if waits
      then if filled
        then record e { seed = seed; value = sma_value F seed; ready = true }
        else record e { seed = seed }
      else record e { value = F.plus (F.times v e.k) (F.times e.value (F.minus (num F 1) e.k)) }

  push_ema_waiting :
      (e : Ema F) (v : F.Carrier)
      → e.ready ≡ false
      → length e.seed.window + 1 < e.seed.period
      → push_ema F e v ≡ record e { seed = grown e v }
  unfolding push_ema sma_ready
  push_ema_waiting e v r h =
      let more = length-append {0} e.seed.window (v ∷ []) in
      let t : (length (e.seed.window ++ v ∷ []) == e.seed.period) ≡ false = ground (arith, more) in
      let grow = push_sma_grows e.seed v (omega arith) in
      ap (λ b. branch e v (not b) (sma_ready F (push_sma F e.seed v)) (push_sma F e.seed v)) r
      ∙ ap (λ seed. branch e v true (sma_ready F seed) seed) grow
      ∙ ap (λ b. branch e v true b (grown e v)) t

  push_ema_filled :
      (e : Ema F) (v : F.Carrier)
      → e.ready ≡ false
      → length e.seed.window + 1 ≡ e.seed.period
      → push_ema F e v ≡ record e {
        seed = grown e v;
        value = F.over (F.plus e.seed.sum v) (num F e.seed.period);
        ready = true;
      }
  unfolding push_ema sma_ready sma_value
  push_ema_filled e v r h =
      let more = length-append {0} e.seed.window (v ∷ []) in
      let full : length (e.seed.window ++ v ∷ []) ≡ e.seed.period = omega (arith, more) in
      let t : (length (e.seed.window ++ v ∷ []) == e.seed.period) ≡ true = ground (arith, more) in
      let grow = push_sma_grows e.seed v (omega arith) in
      ap (λ b. branch e v (not b) (sma_ready F (push_sma F e.seed v)) (push_sma F e.seed v)) r
      ∙ ap (λ seed. branch e v true (sma_ready F seed) seed) grow
      ∙ ap (λ b. branch e v true b (grown e v)) t
      ∙ ap
          (λ n. record e {
            seed = grown e v;
            value = F.over (F.plus e.seed.sum v) (num F n);
            ready = true;
          })
          full

  push_ema_later :
      (e : Ema F) (v : F.Carrier)
      → e.ready ≡ true
      → push_ema F e v
        ≡ record e { value = F.plus (F.times v e.k) (F.times e.value (F.minus (num F 1) e.k)) }
  unfolding push_ema
  push_ema_later e v r =
      let seed = push_sma F e.seed v in ap (λ b. branch e v (not b) (sma_ready F seed) seed) r

  -- What an average that is ready shows.
  unfoldable pub Shows : Ema F → F.Carrier → F.Carrier → Type 0
  Shows e k value = (e.ready ≡ true) × (e.k ≡ k) × (e.value ≡ value)

  -- The values that fill the seed make it their mean.
  seeding :
      (e : Ema F) (vs : List F.Carrier)
      → e.ready ≡ false
      → 0 < length vs
      → length e.seed.window + length vs ≡ e.seed.period
      → Shows (push_all_ema e vs) e.k (F.over (add_all F e.seed.sum vs) (num F e.seed.period))
  unfolding push_all_ema add_all Shows
  seeding e [] r p l = absurd (omega arith)
  seeding e (v ∷ []) r p l =
      let step = push_ema_filled e v r (omega arith) in
      (ap (λ x. x.ready) step, ap (λ x. x.k) step, ap (λ x. x.value) step)
  seeding e (v ∷ u ∷ us) r p l =
      let step = push_ema_waiting e v r (omega arith) in
      let more = length-append {0} e.seed.window (v ∷ []) in
      let target = F.over (add_all F e.seed.sum (v ∷ u ∷ us)) (num F e.seed.period) in
      subst (λ x. Shows (push_all_ema x (u ∷ us)) e.k target) (sym step)
        (seeding (record e { seed = grown e v }) (u ∷ us) r (omega arith) (omega (arith, more)))

  -- From there on the value follows the textbook recursion.
  smoothing :
      (e : Ema F) (vs : List F.Carrier)
      → e.ready ≡ true
      → Shows (push_all_ema e vs) e.k (smooth_all e.k e.value vs)
  unfolding push_all_ema smooth_all Shows
  smoothing e [] r = (r, refl, refl)
  smoothing e (v ∷ vs) r =
      let next = F.plus (F.times v e.k) (F.times e.value (F.minus (num F 1) e.k)) in
      subst (λ x. Shows (push_all_ema x vs) e.k (smooth_all e.k next vs))
        (sym (push_ema_later e v r)) (smoothing (record e { value = next }) vs r)

  -- After its first `period` values the exponential average is ready, and its value is the
  -- textbook's: the mean of those values, smoothed by every later value in turn with the factor
  -- 2 / (period + 1).
  pub push_all_ema-smooth_all :
      (period : ℕ) (first later : List F.Carrier)
      → 0 < period
      → length first ≡ period
      → ((push_all_ema (new_ema F period) (first ++ later)).ready ≡ true)
        × ((push_all_ema (new_ema F period) (first ++ later)).value
            ≡ smooth_all (F.over (num F 2) (F.plus (num F period) (num F 1))) (mean first) later)
  unfolding Shows mean
  push_all_ema-smooth_all period first later h l =
      let k = F.over (num F 2) (F.plus (num F period) (num F 1)) in
      let seeded = push_all_ema (new_ema F period) first in
      let (ready, kept, value) =
        seeding (new_ema F period) first refl (omega arith) (omega (arith, l)) in
      let (shown, _, smoothed) = smoothing seeded later ready in
      let split = push_all_ema-append (new_ema F period) first later in
      let exact = value ∙ ap (λ n. F.over (add_all F (num F 0) first) (num F n)) (sym l) in
      (
        ap (λ e. e.ready) split ∙ shown,
        ap (λ e. e.value) split
            ∙ smoothed
            ∙ ap (λ x. smooth_all x seeded.value later) kept
            ∙ ap (λ x. smooth_all k x later) exact,
      )
