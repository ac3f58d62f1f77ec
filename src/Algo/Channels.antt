-- ===== src/Algo/Channels.antt =====
-- The channels of include/tinvest/algo/indicators.hpp over the bars of a window.
use mathlib.Core.List.{map-append}
use tinkoff_invest_sdkv.Prelude.{
  ℕ, suc, ◌<◌, ◌≡◌, refl, sym, ap, ◌∙◌, arith, Bool, true, false, ◌&&◌, ◌||◌, ltb, ◌==◌,
  if◌then◌else◌, List, [], ◌∷◌, ◌++◌, map, length,
}
use tinkoff_invest_sdkv.Algo.{Double, Bar}
use tinkoff_invest_sdkv.Algo.Indicators.{
  pop_front, front, slide, Donchian, push_donchian, donchian_ready, greatest, least,
}

-- `less` on numbers without NaN: it is asymmetric, and of two numbers in order every third one is above
-- the first or below the second.
pub record IsOrder (F : Double) : Type 0 where
  pub asymmetric : (a b : F.Carrier) → F.less a b ≡ true → F.less b a ≡ false
  pub cotransitive : (a b c : F.Carrier) → F.less a b ≡ true → (F.less a c || F.less c b) ≡ true

unfoldable pub all {ℓ} : {A : Type ℓ} → (A → Bool) → List A → Bool
all p [] = true
all p (x ∷ xs) = p x && all p xs

length-map {ℓ κ} :
    {A : Type ℓ} {B : Type κ} (f : A → B) (xs : List A) → length (map f xs) ≡ length xs
length-map f [] = refl
length-map f (x ∷ xs) = ap suc (length-map f xs)

map-pop_front {ℓ κ} :
    {A : Type ℓ} {B : Type κ} (f : A → B) (xs : List A)
    → pop_front (map f xs) ≡ map f (pop_front xs)
unfolding pop_front
map-pop_front f [] = refl
map-pop_front f (x ∷ xs) = refl

all-map {ℓ κ} :
    {A : Type ℓ} {B : Type κ} (p : B → Bool) (f : A → B) (xs : List A)
    → all p (map f xs) ≡ all (λ x. p (f x)) xs
unfolding all
all-map p f [] = refl
all-map p f (x ∷ xs) = ap (λ b. p (f x) && b) (all-map p f xs)

module _ (F : Double) where
  -- The channel of the bars of a window.
  abbrev pub channel : ℕ → List (Bar F) → Donchian F
  channel period ws = record {
    period = period;
    highs = map (λ (b : Bar F). b.high) ws;
    lows = map (λ (b : Bar F). b.low) ws;
  }

  -- Whether a window of bars is cut, the channel is cut with it.
  cut_channel :
      (period : ℕ) (ws : List (Bar F)) (cut : Bool)
      → (if cut
          then record (channel period ws) {
            highs = pop_front (channel period ws).highs;
            lows = pop_front (channel period ws).lows;
          }
          else channel period ws)
        ≡ channel period (if cut then pop_front ws else ws)
  cut_channel period ws true = λ i. record {
    period = period;
    highs = map-pop_front (λ (b : Bar F). b.high) ws i;
    lows = map-pop_front (λ (b : Bar F). b.low) ws i;
  }
  cut_channel period ws false = refl

  pub push_donchian-slide :
      (period : ℕ) (ws : List (Bar F)) (b : Bar F)
      → push_donchian F (channel period ws) b.high b.low ≡ channel period (slide period ws b)
  unfolding push_donchian slide
  push_donchian-slide period ws b =
      let ys = ws ++ b ∷ [] in
      let high = λ (x : Bar F). x.high in
      let low = λ (x : Bar F). x.low in
      let highs = sym (map-append high ws (b ∷ [])) in
      let lows = sym (map-append low ws (b ∷ [])) in
      let choose = λ (n : ℕ). λ (hs : List F.Carrier). λ (ls : List F.Carrier).
        if ltb period n
        then record (channel period ws) { highs = pop_front hs; lows = pop_front ls }
        else record (channel period ws) { highs = hs; lows = ls } in
      (λ i. choose (length (highs i)) (highs i) (lows i))
      ∙ ap (λ n. choose n (map high ys) (map low ys)) (length-map high ys)
      ∙ cut_channel period ys (ltb period (length ys))

module _ (F : Double) (o : IsOrder F) where
  -- A number is below the least of some exactly when it is below each of them.
  below_step :
      (a m x : F.Carrier) → F.less a (if F.less x m then x else m) ≡ (F.less a m && F.less a x)
  below_step a m x =
      ground (arith, o.asymmetric x a, o.asymmetric a x, o.cotransitive x m a, o.cotransitive a m x)

  less-least :
      (a m : F.Carrier) (xs : List F.Carrier)
      → F.less a (least F m xs) ≡ (F.less a m && all (F.less a) xs)
  unfolding least all
  less-least a m [] = ground arith
  less-least a m (x ∷ xs) =
      ground (arith, less-least a (if F.less x m then x else m) xs, below_step a m x)

  greatest_step :
      (m x a : F.Carrier) → F.less (if F.less m x then x else m) a ≡ (F.less m a && F.less x a)
  greatest_step m x a =
      ground (arith, o.asymmetric x a, o.asymmetric a x, o.cotransitive m x a, o.cotransitive m a x)

  less-greatest :
      (m a : F.Carrier) (xs : List F.Carrier)
      → F.less (greatest F m xs) a ≡ (F.less m a && all (λ x. F.less x a) xs)
  unfolding greatest all
  less-greatest m a [] = ground arith
  less-greatest m a (x ∷ xs) =
      ground (arith, less-greatest (if F.less m x then x else m) a xs, greatest_step m x a)

  -- Below the lows of a full channel: below the low of each of its bars.
  pub below_channel :
      (period : ℕ) (ws : List (Bar F)) (close low : F.Carrier)
      → 0 < period
      → (donchian_ready F (channel F period ws)
          && F.less close
              (least F (front low (channel F period ws).lows) (channel F period ws).lows))
        ≡ (length ws == period && all (λ (b : Bar F). F.less close b.low) ws)
  unfolding donchian_ready front all
  below_channel period [] close low h = ground arith
  below_channel period (w ∷ ws) close low h =
      let lows = map (λ (b : Bar F). b.low) ws in
      ground (
        arith,
        length-map (λ (b : Bar F). b.high) ws,
        less-least close w.low (w.low ∷ lows),
        all-map (F.less close) (λ (b : Bar F). b.low) ws,
      )

  -- Above the highs of a full channel: above the high of each of its bars.
  pub above_channel :
      (period : ℕ) (ws : List (Bar F)) (close high : F.Carrier)
      → 0 < period
      → (donchian_ready F (channel F period ws)
          && F.less
              (greatest F (front high (channel F period ws).highs) (channel F period ws).highs)
              close)
        ≡ (length ws == period && all (λ (b : Bar F). F.less b.high close) ws)
  unfolding donchian_ready front all
  above_channel period [] close high h = ground arith
  above_channel period (w ∷ ws) close high h =
      let highs = map (λ (b : Bar F). b.high) ws in
      ground (
        arith,
        length-map (λ (b : Bar F). b.high) ws,
        less-greatest w.high close (w.high ∷ highs),
        all-map (λ x. F.less x close) (λ (b : Bar F). b.high) ws,
      )
