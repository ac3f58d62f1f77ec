-- ===== src/Streams/Moves.antt =====
-- Every move of the loop of a stream keeps what it notifies in step with the loop.
use mathlib.Core.List.{append-nil}
use tinkoff_invest_sdkv.Prelude.{
  ◌≡◌, ℕ, ◌+◌, ◌*◌, ◌<◌, All, subst, refl, sym, ap, ◌∙◌, arith, ◌⊎◌, inl, inr, true, false,
  if◌then◌else◌, List, [], ◌∷◌, ◌++◌, map, none, some, Bool-cases,
}
use tinkoff_invest_sdkv.Error.{Status}
use tinkoff_invest_sdkv.Streams.{
  StreamOptions, Notice, notified, waits, connecting, connected, delay, opening as opening_of,
  Round, run_stream,
}
use tinkoff_invest_sdkv.Streams.Backoff.{IsBackoff, waits_of, run_stream_waits}
use tinkoff_invest_sdkv.Streams.Notices.{nothing, over, hear_on, run_stream_notices}
use tinkoff_invest_sdkv.Prelude.Int.{pos}
use tinkoff_invest_sdkv.Prelude.Word.{i64_half}
use tinkoff_invest_sdkv.Streams.Loop.{went, tried, round_log, spent, spent-append, last_round}
use tinkoff_invest_sdkv.Streams.Progress.{
  Progress, Place, absent, top, announced, opening, calling, returned, is_absent, looks, begin,
  announce, enter, hear_data, failures, broken, back_off, end, farewell, Move, rests, begins,
  announces, enters, calls, hears, closes, breaks, gives_up, retries, ends,
}
use tinkoff_invest_sdkv.Streams.Trace.{
  begun, closing, Runs, Trace, stops_now, moved, unmoved, ended_log, extend,
}

module _ (o : StreamOptions) where
  present : (p : Progress) → is_absent p.place ≡ false → Trace o p → Runs o p
  unfolding is_absent
  present p n (inl (e, _)) = absurd (ground (arith, n, e))
  present p n (inr (_, r)) = r

  begin-Trace : (p : Progress) → Trace o (begin p)
  unfolding is_absent spent begun
  begin-Trace p = inr (refl, record { past = []; allowed = inl refl; attempt = refl; log = refl })

  -- A move inside a round that notifies nothing.
  quiet-Trace :
      (p u : Progress)
      → u.log ≡ p.log
      → u.attempt ≡ p.attempt
      → is_absent u.place ≡ false
      → is_absent p.place ≡ false
      → begun u.place u.heard ≡ begun p.place p.heard
      → Trace o p
      → Trace o u
  quiet-Trace p u e f n k g t = inr (n, unmoved o p u e f g (present p k t))

  announce-Trace : (p : Progress) → p.place ≡ top → Trace o p → Trace o (announce p)
  unfolding is_absent begun opening_of
  announce-Trace p e t = inr (
    refl,
    moved o p (announce p) (notified connecting none ∷ []) refl refl
        (ap (λ q. begun q p.heard ++ notified connecting none ∷ []) (sym e))
        (present p (ap is_absent e) t),
  )

  enter-Trace :
      (p : Progress) (q : Place)
      → p.place ≡ announced
      → (q ≡ opening) ⊎ (q ≡ returned)
      → Trace o p
      → Trace o (enter q p)
  unfolding is_absent begun
  enter-Trace p q e (inl f) t =
      quiet-Trace p (enter q p) refl refl (ap is_absent f) (ap is_absent e)
        (ap (λ r. begun r false) f ∙ ap (λ r. begun r p.heard) (sym e)) t
  enter-Trace p q e (inr f) t =
      quiet-Trace p (enter q p) refl refl (ap is_absent f) (ap is_absent e)
        (ap (λ r. begun r false) f ∙ ap (λ r. begun r p.heard) (sym e)) t

  hear_log :
      (p : Progress)
      → (p.place ≡ opening) ⊎ (p.place ≡ calling)
      → (more : List Notice) × ((hear_data p).log ≡ p.log ++ more)
        × ((hear_data p).attempt ≡ p.attempt)
        × ((hear_data p).place ≡ p.place)
        × (begun (hear_data p).place (hear_data p).heard ≡ begun p.place p.heard ++ more)
  unfolding hear_data begun opening_of
  hear_log p e = elim (Bool-cases p.heard) [
    | inl h ↦ (
      [],
      rw h (sym (append-nil p.log)),
      rw h refl,
      rw h refl,
      rw h (sym (append-nil (begun p.place true))),
    )
    | inr h ↦ (
      notified connected none ∷ [],
      rw h refl,
      rw h refl,
      rw h refl,
      elim e [ inl f ↦ rw (h, f) refl | inr f ↦ rw (h, f) refl ],
    )
  ]

  hear-Trace :
      (p : Progress) → (p.place ≡ opening) ⊎ (p.place ≡ calling) → Trace o p → Trace o (hear_data p)
  unfolding is_absent
  hear-Trace p e t =
      let (more, l, a, q, b) = hear_log p e in
      let n : is_absent p.place ≡ false = ground (arith, e) in
      inr (ap is_absent q ∙ n, moved o p (hear_data p) more l a b (present p n t))

  break-Trace :
      (p : Progress) (status : Status)
      → p.place ≡ returned
      → o.reconnect ≡ true
      → Trace o p
      → Trace o (back_off o status p)
  unfolding is_absent begun back_off
  break-Trace p s e c t =
      let r = present p (ap is_absent e) t in
      let g = p.heard in
      let grown = spent-append o 0 r.past g s in
      let more = broken s ∷ waits (delay o (failures p)) ∷ [] in
      let before = (spent o 0 r.past).0 in
      let log : p.log ≡ before ++ opening_of g = r.log ∙ ap (λ q. before ++ begun q g) e in
      inr (
        refl,
        record {
          past = r.past ++ (g, s) ∷ [];
          allowed = inr c;
          attempt = ap (λ k. tried o k g + 1) r.attempt ∙ ap (λ q. q.1) (sym grown);
          log =
              extend o p.log before (opening_of g) more log
              ∙ ap (λ k. before ++ round_log o k (g, s)) r.attempt
              ∙ ap (λ q. q.0) (sym grown)
              ∙ sym (append-nil _);
        },
      )

  give_up-Trace :
      (p : Progress) (status : Status)
      → p.place ≡ returned
      → o.reconnect ≡ false
      → Trace o p
      → Trace o (end (broken status ∷ farewell) p)
  unfolding is_absent begun
  give_up-Trace p s e c t =
      let r = present p (ap is_absent e) t in
      let g = p.heard in
      let before = (spent o 0 r.past).0 in
      let last = went (g, s) in
      let log : p.log ≡ before ++ opening_of g = r.log ∙ ap (λ q. before ++ begun q g) e in
      inl (
        refl,
        inr (
          map went r.past ++ last ∷ [],
          ended_log o r.past last _ (opening_of g ++ broken s ∷ farewell) r.allowed
              (last_round o (spent o 0 r.past).1 g s c)
              (extend o p.log before (opening_of g) (broken s ∷ farewell) log),
        ),
      )

  end-Trace : (p : Progress) → looks p.place ≡ true → Trace o p → Trace o (end farewell p)
  unfolding is_absent looks
  end-Trace p e t =
      let n : is_absent p.place ≡ false = ground (arith, e) in
      inl (refl, inr (stops_now o p n (present p n t)))

  pub Move-Trace : {p q : Progress} → Move o p q → Trace o p → Trace o q
  unfolding is_absent begun
  Move-Trace (rests p) t = t
  Move-Trace (begins p) t = begin-Trace p
  Move-Trace (announces p e) t = announce-Trace p e t
  Move-Trace (enters p q e f) t = enter-Trace p q e f t
  Move-Trace (calls p e) t =
      quiet-Trace p _ refl refl refl (ap is_absent e) (ap (λ q. begun q p.heard) (sym e)) t
  Move-Trace (hears p e) t = hear-Trace p e t
  Move-Trace (closes p e) t =
      quiet-Trace p _ refl refl refl (ap is_absent e) (ap (λ q. begun q p.heard) (sym e)) t
  Move-Trace (breaks p s e c) t = break-Trace p s e c t
  Move-Trace (gives_up p s e c) t = give_up-Trace p s e c t
  Move-Trace (retries p e) t =
      quiet-Trace p _ refl refl refl (ap is_absent e) (ap (λ q. begun q p.heard) (sym e)) t
  Move-Trace (ends p e) t = end-Trace p e t

-- As long as no thread was started nothing is notified; else there are rounds on which `run_stream` ends
-- with exactly what the current or last thread has notified, followed by `stopped` if it has not
-- ended yet.
abbrev pub IsTold : StreamOptions → Progress → Type 0
IsTold o p =
    ((p.place ≡ absent) × (p.log ≡ []))
    ⊎ ((rounds : List Round) × (run_stream o rounds ≡ (closing p, true)))

pub Trace-IsTold : (o : StreamOptions) (p : Progress) → Trace o p → IsTold o p
unfolding is_absent
Trace-IsTold o p (inl (e, inl f)) = inl (e, f)
Trace-IsTold o p (inl (e, inr (rounds, f))) = inr (rounds, rw e f)
Trace-IsTold o p (inr (n, t)) = let (rounds, f) = stops_now o p n t in inr (rounds, rw n f)

-- The states come in order, with `stopped` still to come while the thread runs, and each wait is a
-- backoff.
abbrev pub IsOrderly : ℕ → ℕ → Progress → Type 0
IsOrderly initial longest p =
    ((p.place ≡ absent) × (p.log ≡ []))
    ⊎ ((hear_on (some nothing) (closing p) ≡ some over)
        × All (IsBackoff initial longest) (waits_of (closing p)))

pub IsTold-IsOrderly :
    (o : StreamOptions) (initial longest : ℕ) (p : Progress)
    → o.initial_backoff ≡ pos initial
    → o.max_backoff ≡ pos longest
    → initial * 256 < i64_half
    → IsTold o p
    → IsOrderly initial longest p
IsTold-IsOrderly o initial longest p e f h (inl n) = inl n
IsTold-IsOrderly o initial longest p e f h (inr (rounds, run)) = inr (
  subst (λ q. hear_on (some nothing) q.0 ≡ some (if q.1 then over else nothing)) run
      (run_stream_notices o rounds),
  subst (λ q. All (IsBackoff initial longest) (waits_of q.0)) run
      (run_stream_waits o initial longest rounds e f h),
)
