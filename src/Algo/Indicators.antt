-- ===== src/Algo/Indicators.antt =====
-- include/tinvest/algo/indicators.hpp. A period is not negative.
use tinkoff_invest_sdkv.Prelude.{
  ℕ, ◌+◌, Bool, true, false, not, ◌&&◌, if◌then◌else◌, ltb, ◌==◌, List, [], ◌∷◌, ◌++◌, length,
}
use tinkoff_invest_sdkv.Prelude.Int.{pos, ◌-ℤ◌}
use tinkoff_invest_sdkv.Algo.{Double}

-- `pop_front` on a deque.
unfoldable pub pop_front {ℓ} : {A : Type ℓ} → List A → List A
pop_front [] = []
pop_front (x ∷ xs) = xs

-- `front`; the code asks only for that of a deque that is not empty.
unfoldable pub front {ℓ} : {A : Type ℓ} → A → List A → A
front x [] = x
front x (y ∷ ys) = y

-- A value enters the window, and the oldest leaves it when there are too many.
unfoldable pub slide {ℓ} : {A : Type ℓ} → ℕ → List A → A → List A
slide period window v = let w = window ++ v ∷ [] in if ltb period (length w) then pop_front w else w

module _ (F : Double) where
  abbrev pub num : ℕ → F.Carrier
  num n = F.of_int (pos n)

  pub record Sma : Type 0 where
    pub period : ℕ
    pub window : List F.Carrier
    pub sum : F.Carrier

  abbrev pub new_sma : ℕ → Sma
  new_sma period = record { period = period; window = []; sum = num 0 }

  unfoldable pub push_sma : Sma → F.Carrier → Sma
  unfolding slide
  push_sma s v =
      let w = s.window ++ v ∷ [] in
      let total = F.plus s.sum v in
      record s {
        window = slide s.period s.window v;
        sum = if ltb s.period (length w) then F.minus total (front v w) else total;
      }

  unfoldable pub sma_ready : Sma → Bool
  sma_ready s = length s.window == s.period

  unfoldable pub sma_value : Sma → F.Carrier
  sma_value s = F.over s.sum (num (length s.window))

  pub record Ema : Type 0 where
    pub period : ℕ
    pub k : F.Carrier
    pub seed : Sma
    pub ready : Bool
    pub value : F.Carrier

  abbrev pub new_ema : ℕ → Ema
  new_ema period = record {
    period = period;
    k = F.over (num 2) (F.plus (num period) (num 1));
    seed = new_sma period;
    ready = false;
    value = num 0;
  }

  unfoldable pub push_ema : Ema → F.Carrier → Ema
  unfolding push_sma
  push_ema e v =
      let seed = push_sma e.seed v in
      if not e.ready
      then if sma_ready seed
        then record e { seed = seed; value = sma_value seed; ready = true }
        else record e { seed = seed }
      else record e { value = F.plus (F.times v e.k) (F.times e.value (F.minus (num 1) e.k)) }

  pub record Rsi : Type 0 where
    pub period : ℕ
    pub prev : F.Carrier
    pub has_prev : Bool
    pub warmup : ℕ
    pub gain_sum : F.Carrier
    pub loss_sum : F.Carrier
    pub avg_gain : F.Carrier
    pub avg_loss : F.Carrier
    pub ready : Bool

  abbrev pub new_rsi : ℕ → Rsi
  new_rsi period = record {
    period = period;
    prev = num 0;
    has_prev = false;
    warmup = 0;
    gain_sum = num 0;
    loss_sum = num 0;
    avg_gain = num 0;
    avg_loss = num 0;
    ready = false;
  }

  -- The average of Wilder.
  unfoldable pub smooth : ℕ → F.Carrier → F.Carrier → F.Carrier
  smooth period avg x =
      F.over (F.plus (F.times avg (F.of_int (pos period -ℤ pos 1))) x) (num period)

  -- `push` after the first close.
  unfoldable pub push_delta : Rsi → F.Carrier → F.Carrier → Rsi
  push_delta r gain loss =
      let gains = F.plus r.gain_sum gain in
      let losses = F.plus r.loss_sum loss in
      if ltb r.warmup r.period
      then if r.warmup + 1 == r.period
        then record r {
          gain_sum = gains;
          loss_sum = losses;
          warmup = r.warmup + 1;
          avg_gain = F.over gains (num r.period);
          avg_loss = F.over losses (num r.period);
          ready = true;
        }
        else record r { gain_sum = gains; loss_sum = losses; warmup = r.warmup + 1 }
      else record r {
        avg_gain = smooth r.period r.avg_gain gain;
        avg_loss = smooth r.period r.avg_loss loss;
      }

  unfoldable pub push_rsi : Rsi → F.Carrier → Rsi
  push_rsi r close =
      let delta = F.minus close r.prev in
      let gain = if F.less (num 0) delta then delta else num 0 in
      let loss = if F.less delta (num 0) then F.opposite delta else num 0 in
      if not r.has_prev
      then record r { prev = close; has_prev = true }
      else push_delta (record r { prev = close }) gain loss

  unfoldable pub rsi_value : Rsi → F.Carrier
  rsi_value r =
      if F.equal r.avg_loss (num 0)
      then num 100
      else F.minus (num 100) (F.over (num 100) (F.plus (num 1) (F.over r.avg_gain r.avg_loss)))

  pub record Macd : Type 0 where
    pub fast : Ema
    pub slow : Ema
    pub signal : Ema

  abbrev pub macd_line : Ema → Ema → F.Carrier
  macd_line fast slow = F.minus fast.value slow.value

  unfoldable pub push_macd : Macd → F.Carrier → Macd
  push_macd m close =
      let fast = push_ema m.fast close in
      let slow = push_ema m.slow close in
      record {
        fast = fast;
        slow = slow;
        signal =
            if fast.ready && slow.ready then push_ema m.signal (macd_line fast slow) else m.signal;
      }

  unfoldable pub histogram : Macd → F.Carrier
  histogram m = F.minus (macd_line m.fast m.slow) m.signal.value

  pub record Bollinger : Type 0 where
    pub period : ℕ
    pub mult : F.Carrier
    pub window : List F.Carrier

  unfoldable pub push_bollinger : Bollinger → F.Carrier → Bollinger
  push_bollinger b v = record b { window = slide b.period b.window v }

  unfoldable pub bollinger_ready : Bollinger → Bool
  bollinger_ready b = length b.window == b.period

  -- A sum from the left.
  unfoldable pub add_all : F.Carrier → List F.Carrier → F.Carrier
  add_all s [] = s
  add_all s (x ∷ xs) = add_all (F.plus s x) xs

  unfoldable pub add_squares : F.Carrier → F.Carrier → List F.Carrier → F.Carrier
  add_squares m s [] = s
  add_squares m s (x ∷ xs) = add_squares m (F.plus s (F.times (F.minus x m) (F.minus x m))) xs

  unfoldable pub middle : Bollinger → F.Carrier
  middle b = F.over (add_all (num 0) b.window) (num (length b.window))

  unfoldable pub stddev : Bollinger → F.Carrier
  stddev b = F.sqrt (F.over (add_squares (middle b) (num 0) b.window) (num (length b.window)))

  unfoldable pub upper : Bollinger → F.Carrier
  upper b = F.plus (middle b) (F.times b.mult (stddev b))

  unfoldable pub lower : Bollinger → F.Carrier
  lower b = F.minus (middle b) (F.times b.mult (stddev b))

  pub record Donchian : Type 0 where
    pub period : ℕ
    pub highs : List F.Carrier
    pub lows : List F.Carrier

  -- Both deques are popped when the highs are too many.
  unfoldable pub push_donchian : Donchian → F.Carrier → F.Carrier → Donchian
  push_donchian d high low =
      let highs = d.highs ++ high ∷ [] in
      let lows = d.lows ++ low ∷ [] in
      if ltb d.period (length highs)
      then record d { highs = pop_front highs; lows = pop_front lows }
      else record d { highs = highs; lows = lows }

  unfoldable pub donchian_ready : Donchian → Bool
  donchian_ready d = length d.highs == d.period

  -- `std::max_element` and `std::min_element`: the first greatest and the first least.
  unfoldable pub greatest : F.Carrier → List F.Carrier → F.Carrier
  greatest m [] = m
  greatest m (x ∷ xs) = greatest (if F.less m x then x else m) xs

  unfoldable pub least : F.Carrier → List F.Carrier → F.Carrier
  least m [] = m
  least m (x ∷ xs) = least (if F.less x m then x else m) xs
