-- ===== src/Algo/Wilder.antt =====
-- The relative strength index of include/tinvest/algo/indicators.hpp against the definition of Wilder.
use tinkoff_invest_sdkv.Prelude.{
  ℕ, ◌+◌, ◌<◌, ◌≡◌, refl, sym, ap, subst, ◌∙◌, arith, Bool, true, false, not, if◌then◌else◌, ltb,
  ◌==◌, List, [], ◌∷◌, ◌++◌, length,
}
use tinkoff_invest_sdkv.Prelude.Int.{pos, ◌-ℤ◌}
use tinkoff_invest_sdkv.Algo.{Double}
use tinkoff_invest_sdkv.Algo.Indicators.{num, add_all, Rsi, new_rsi, push_rsi, push_delta, smooth}

module _ (F : Double) where
  -- The part of a change that is a gain, and the part that is a loss.
  unfoldable pub gain_of : F.Carrier → F.Carrier
  gain_of delta = if F.less (num F 0) delta then delta else num F 0

  unfoldable pub loss_of : F.Carrier → F.Carrier
  loss_of delta = if F.less delta (num F 0) then F.opposite delta else num F 0

  -- The changes from close to close, seen by a function.
  unfoldable pub changes : (F.Carrier → F.Carrier) → F.Carrier → List F.Carrier → List F.Carrier
  changes part prev [] = []
  changes part prev (c ∷ cs) = part (F.minus c prev) ∷ changes part c cs

  unfoldable pub final_close : F.Carrier → List F.Carrier → F.Carrier
  final_close prev [] = prev
  final_close prev (c ∷ cs) = final_close c cs

  -- Wilder's average goes on from a value: with each new one, the last average weighs `period` - 1 times
  -- as much as the new value.
  unfoldable pub wilder : ℕ → F.Carrier → List F.Carrier → F.Carrier
  wilder period avg [] = avg
  wilder period avg (x ∷ xs) =
      wilder period
        (F.over (F.plus (F.times avg (F.of_int (pos period -ℤ pos 1))) x) (F.of_int (pos period)))
        xs

  unfoldable pub push_all_rsi : Rsi F → List F.Carrier → Rsi F
  push_all_rsi r [] = r
  push_all_rsi r (c ∷ cs) = push_all_rsi (push_rsi F r c) cs

  push_all_rsi-append :
      (r : Rsi F) (us vs : List F.Carrier)
      → push_all_rsi r (us ++ vs) ≡ push_all_rsi (push_all_rsi r us) vs
  unfolding push_all_rsi
  push_all_rsi-append r [] vs = refl
  push_all_rsi-append r (u ∷ us) vs = push_all_rsi-append (push_rsi F r u) us vs

  -- A close after the first.
  abbrev changed : Rsi F → F.Carrier → Rsi F
  changed r c =
      push_delta F (record r { prev = c }) (gain_of (F.minus c r.prev)) (loss_of (F.minus c r.prev))

  push_rsi-changed : (r : Rsi F) (c : F.Carrier) → r.has_prev ≡ true → push_rsi F r c ≡ changed r c
  unfolding push_rsi gain_of loss_of
  push_rsi-changed r c h =
      ap (λ b. if not b then record r { prev = c; has_prev = true } else changed r c) h

  -- One more change of the first ones, with the sums that it leads to.
  abbrev summed : Rsi F → F.Carrier → Rsi F
  summed r c = record r {
    prev = c;
    gain_sum = F.plus r.gain_sum (gain_of (F.minus c r.prev));
    loss_sum = F.plus r.loss_sum (loss_of (F.minus c r.prev));
    warmup = r.warmup + 1;
  }

  abbrev averaged : Rsi F → Rsi F
  averaged r = record r {
    avg_gain = F.over r.gain_sum (num F r.period);
    avg_loss = F.over r.loss_sum (num F r.period);
    ready = true;
  }

  abbrev smoothed : Rsi F → F.Carrier → Rsi F
  smoothed r c = record r {
    prev = c;
    avg_gain = smooth F r.period r.avg_gain (gain_of (F.minus c r.prev));
    avg_loss = smooth F r.period r.avg_loss (loss_of (F.minus c r.prev));
  }

  -- The branches of `push` after the first close.
  abbrev outcome : Rsi F → F.Carrier → Bool → Bool → Rsi F
  outcome r c warming last =
      if warming then if last then averaged (summed r c) else summed r c else smoothed r c

  changed-outcome :
      (r : Rsi F) (c : F.Carrier)
      → changed r c ≡ outcome r c (ltb r.warmup r.period) (r.warmup + 1 == r.period)
  unfolding push_delta
  changed-outcome r c = refl

  push_outcome :
      (r : Rsi F) (c : F.Carrier) (warming last : Bool)
      → r.has_prev ≡ true
      → ltb r.warmup r.period ≡ warming
      → (r.warmup + 1 == r.period) ≡ last
      → push_rsi F r c ≡ outcome r c warming last
  push_outcome r c warming last h t u =
      push_rsi-changed r c h ∙ changed-outcome r c ∙ (λ i. outcome r c (t i) (u i))

  -- What an index that is ready holds.
  unfoldable pub Holds : Rsi F → ℕ → F.Carrier → F.Carrier → F.Carrier → Type 0
  Holds r period gain loss prev =
      (r.ready ≡ true)
      × (r.has_prev ≡ true)
      × (r.warmup ≡ period)
      × (r.period ≡ period)
      × (r.avg_gain ≡ gain)
      × (r.avg_loss ≡ loss)
      × (r.prev ≡ prev)

  -- The changes that fill the warm-up make their means the averages.
  seeding :
      (r : Rsi F) (cs : List F.Carrier)
      → r.has_prev ≡ true
      → 0 < length cs
      → r.warmup + length cs ≡ r.period
      → Holds
          (push_all_rsi r cs)
          r.period
          (F.over (add_all F r.gain_sum (changes gain_of r.prev cs)) (num F r.period))
          (F.over (add_all F r.loss_sum (changes loss_of r.prev cs)) (num F r.period))
          (final_close r.prev cs)
  unfolding push_all_rsi changes add_all final_close Holds
  seeding r [] h p l = absurd (omega arith)
  seeding r (c ∷ []) h p l =
      let step = push_outcome r c true true h (ground arith) (ground arith) in
      (
        ap (λ x. x.ready) step,
        ap (λ x. x.has_prev) step ∙ h,
        ap (λ x. x.warmup) step ∙ omega (arith, l),
        ap (λ x. x.period) step,
        ap (λ x. x.avg_gain) step,
        ap (λ x. x.avg_loss) step,
        ap (λ x. x.prev) step,
      )
  seeding r (c ∷ d ∷ cs) h p l =
      let step = push_outcome r c true false h (ground arith) (ground arith) in
      subst
        (λ x.
          Holds (push_all_rsi x (d ∷ cs)) r.period
            (F.over (add_all F r.gain_sum (changes gain_of r.prev (c ∷ d ∷ cs))) (num F r.period))
            (F.over (add_all F r.loss_sum (changes loss_of r.prev (c ∷ d ∷ cs))) (num F r.period))
            (final_close r.prev (c ∷ d ∷ cs)))
        (sym step) (seeding (summed r c) (d ∷ cs) h (omega arith) (omega (arith, l)))

  -- From there on the averages are Wilder's.
  smoothing :
      (r : Rsi F) (cs : List F.Carrier)
      → r.ready ≡ true
      → r.has_prev ≡ true
      → r.warmup ≡ r.period
      → Holds
          (push_all_rsi r cs)
          r.period
          (wilder r.period r.avg_gain (changes gain_of r.prev cs))
          (wilder r.period r.avg_loss (changes loss_of r.prev cs))
          (final_close r.prev cs)
  unfolding push_all_rsi changes wilder final_close Holds smooth
  smoothing r [] e h w = (e, h, w, refl, refl, refl, refl)
  smoothing r (c ∷ cs) e h w =
      let step = push_outcome r c false false h (ground arith) (ground arith) in
      subst
        (λ x.
          Holds (push_all_rsi x cs) r.period
            (wilder r.period r.avg_gain (changes gain_of r.prev (c ∷ cs)))
            (wilder r.period r.avg_loss (changes loss_of r.prev (c ∷ cs)))
            (final_close r.prev (c ∷ cs)))
        (sym step) (smoothing (smoothed r c) cs e h w)

  -- The first close is remembered only.
  push_first :
      (period : ℕ) (c : F.Carrier)
      → push_rsi F (new_rsi F period) c ≡ record (new_rsi F period) { prev = c; has_prev = true }
  unfolding push_rsi
  push_first period c = refl

  -- After a first close and `period` changes the index is ready, and its two averages are Wilder's: the
  -- means of the gains and of the losses among those changes, smoothed by every later change in turn.
  pub push_all_rsi-wilder :
      (period : ℕ) (start : F.Carrier) (first later : List F.Carrier)
      → 0 < period
      → length first ≡ period
      → let r = push_all_rsi (new_rsi F period) (start ∷ first ++ later) in
        (r.ready ≡ true)
        × (r.avg_gain
            ≡ wilder period
                (F.over (add_all F (num F 0) (changes gain_of start first)) (num F period))
                (changes gain_of (final_close start first) later))
        × (r.avg_loss
            ≡ wilder period
                (F.over (add_all F (num F 0) (changes loss_of start first)) (num F period))
                (changes loss_of (final_close start first) later))
  unfolding Holds push_all_rsi
  push_all_rsi-wilder period start first later h l =
      let begun = record (new_rsi F period) { prev = start; has_prev = true } in
      let seeded = push_all_rsi begun first in
      let (e, g, w, p, gain, loss, prev) =
        seeding begun first refl (omega arith) (omega (arith, l)) in
      let (ready, _, _, _, gains, losses, _) = smoothing seeded later e g (w ∙ sym p) in
      let split =
        ap (λ r. push_all_rsi r (first ++ later)) (push_first period start)
        ∙ push_all_rsi-append begun first later in
      (
        ap (λ r. r.ready) split ∙ ready,
        ap (λ r. r.avg_gain) split
            ∙ gains
            ∙ (λ i. wilder (p i) (gain i) (changes gain_of (prev i) later)),
        ap (λ r. r.avg_loss) split
            ∙ losses
            ∙ (λ i. wilder (p i) (loss i) (changes loss_of (prev i) later)),
      )
