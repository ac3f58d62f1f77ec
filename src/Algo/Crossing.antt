-- ===== src/Algo/Crossing.antt =====
-- The signals of the strategies of include/tinvest/algo/strategies.hpp that wait for a crossing.
use tinkoff_invest_sdkv.Prelude.{
  ◌≡◌, refl, Bool, true, false, List, [], ◌∷◌, inl, inr, ◌⊎◌, arith, if_both,
}
use tinkoff_invest_sdkv.Algo.{Double, Bar, Action, hold, buy, sell}
use tinkoff_invest_sdkv.Algo.Strategies.{
  Cross, cross_action, crossed, SmaCross, sma_cross_on_bar, EmaCross, ema_cross_on_bar, MacdCross,
  macd_on_bar,
}

-- The last signal of a strategy that bought or sold.
pub data Signal : Type 0 where
  none_yet bought sold : Signal

-- No two buys without a sell between them, and no two sells without a buy.
unfoldable pub alternates : Signal → List Action → Bool
alternates s [] = true
alternates s (hold ∷ rest) = alternates s rest
alternates none_yet (buy ∷ rest) = alternates bought rest
alternates sold (buy ∷ rest) = alternates bought rest
alternates bought (buy ∷ rest) = false
alternates none_yet (sell ∷ rest) = alternates sold rest
alternates bought (sell ∷ rest) = alternates sold rest
alternates sold (sell ∷ rest) = false

-- The last signal agrees with the sign that is remembered.
Agrees : Signal → Cross → Type 0
Agrees none_yet c = Unit
Agrees bought c = (c.has_prev ≡ true) × (c.prev ≡ true)
Agrees sold c = (c.has_prev ≡ true) × (c.prev ≡ false)

-- The signal after one more action.
next_signal : Signal → Action → Signal
next_signal s hold = s
next_signal s buy = bought
next_signal s sell = sold

alternates-step :
    (c : Cross) (now : Bool) (s : Signal) (rest : List Action)
    → Agrees s c
    → alternates (next_signal s (cross_action c now)) rest ≡ true
    → alternates s (cross_action c now ∷ rest) ≡ true
unfolding alternates Agrees next_signal cross_action
alternates-step c now none_yet rest g h = ground arith
alternates-step c now bought rest g h = ground arith
alternates-step c now sold rest g h = ground arith

crossed-Agrees :
    (c : Cross) (now : Bool) (s : Signal)
    → Agrees s c
    → Agrees (next_signal s (cross_action c now)) (crossed now)
unfolding Agrees next_signal cross_action
crossed-Agrees c now none_yet g = ground arith
crossed-Agrees c now bought g = ground arith
crossed-Agrees c now sold g = ground arith

-- What a strategy emits over the bars.
unfoldable pub emit {ℓ} : {S B : Type ℓ} → (S → B → S × Action) → S → List B → List Action
emit on_bar s [] = []
emit on_bar s (b ∷ bs) = (on_bar s b).1 ∷ emit on_bar (on_bar s b).0 bs

-- A step of a strategy either holds and keeps its memory, or acts on a new sign and remembers it.
IsCrossing : {S B : Type 0} → (S → Cross) → (S → B → S × Action) → Type 0
IsCrossing {S} {B} cross on_bar =
    (s : S) (b : B)
    → (((on_bar s b).1 ≡ hold) × (cross (on_bar s b).0 ≡ cross s))
      ⊎ ((now : Bool) × ((on_bar s b).1 ≡ cross_action (cross s) now)
          × (cross (on_bar s b).0 ≡ crossed now))

emit-alternates :
    {S B : Type 0} (cross : S → Cross) (on_bar : S → B → S × Action)
    → IsCrossing cross on_bar
    → (s : S) (g : Signal) (bs : List B) → Agrees g (cross s)
    → alternates g (emit on_bar s bs) ≡ true
unfolding emit IsCrossing alternates
emit-alternates cross on_bar k s g [] a = refl
emit-alternates cross on_bar k s g (b ∷ bs) a = elim (k s b) [
  | inl (e, f) ↦ rw e (emit-alternates cross on_bar k (on_bar s b).0 g bs (rw f a))
  | inr (now, e, f) ↦ rw e (
      alternates-step (cross s) now g (emit on_bar (on_bar s b).0 bs) a (
        emit-alternates cross on_bar k (on_bar s b).0 (next_signal g (cross_action (cross s) now))
          bs (rw f (crossed-Agrees (cross s) now g a))))
]

module _ (F : Double) where
  sma_cross-IsCrossing : IsCrossing (λ (s : SmaCross F). s.cross) (sma_cross_on_bar F)
  unfolding IsCrossing sma_cross_on_bar
  sma_cross-IsCrossing s b =
      if_both
        (λ (p : SmaCross F × Action).
          ((p.1 ≡ hold) × (p.0.cross ≡ s.cross))
          ⊎ ((now : Bool) × (p.1 ≡ cross_action s.cross now) × (p.0.cross ≡ crossed now)))
        _ (inl (refl, refl)) (inr (_, refl, refl))

  ema_cross-IsCrossing : IsCrossing (λ (s : EmaCross F). s.cross) (ema_cross_on_bar F)
  unfolding IsCrossing ema_cross_on_bar
  ema_cross-IsCrossing s b =
      if_both
        (λ (p : EmaCross F × Action).
          ((p.1 ≡ hold) × (p.0.cross ≡ s.cross))
          ⊎ ((now : Bool) × (p.1 ≡ cross_action s.cross now) × (p.0.cross ≡ crossed now)))
        _ (inl (refl, refl)) (inr (_, refl, refl))

  macd-IsCrossing : IsCrossing (λ (s : MacdCross F). s.cross) (macd_on_bar F)
  unfolding IsCrossing macd_on_bar
  macd-IsCrossing s b =
      if_both
        (λ (p : MacdCross F × Action).
          ((p.1 ≡ hold) × (p.0.cross ≡ s.cross))
          ⊎ ((now : Bool) × (p.1 ≡ cross_action s.cross now) × (p.0.cross ≡ crossed now)))
        _ (inl (refl, refl)) (inr (_, refl, refl))

  -- From any state, over any bars, the buys and sells of the three crossing strategies alternate.
  pub crossing_alternates :
      (s : SmaCross F) (e : EmaCross F) (m : MacdCross F) (bars : List (Bar F))
      → (alternates none_yet (emit (sma_cross_on_bar F) s bars) ≡ true)
        × (alternates none_yet (emit (ema_cross_on_bar F) e bars) ≡ true)
        × (alternates none_yet (emit (macd_on_bar F) m bars) ≡ true)
  unfolding Agrees
  crossing_alternates s e m bars = (
    emit-alternates (λ (s : SmaCross F). s.cross) (sma_cross_on_bar F) sma_cross-IsCrossing s
        none_yet bars tt,
    emit-alternates (λ (s : EmaCross F). s.cross) (ema_cross_on_bar F) ema_cross-IsCrossing e
        none_yet bars tt,
    emit-alternates (λ (s : MacdCross F). s.cross) (macd_on_bar F) macd-IsCrossing m none_yet bars
        tt,
  )
