-- ===== src/Streams/Notices.antt =====
-- The order of the notifications of the reconnection loop.
use tinkoff_invest_sdkv.Prelude.{
  ℕ, ◌+◌, ◌≡◌, refl, Bool, true, false, not, if◌then◌else◌, List, [], ◌∷◌, ◌++◌, Option, none, some,
  if_both,
}
use tinkoff_invest_sdkv.Streams.{
  connecting, connected, disconnected, stopped, StreamOptions, Notice, notified, waits, Round,
  delay, opening, run_loop, run_stream, break_error,
}

-- What an observer may hear next: before a call, during one before and after its first message, after
-- a break, and nothing more.
pub data Heard : Type 0 where
  nothing trying hearing broken over : Heard

unfoldable pub hear : Heard → Notice → Option Heard
hear nothing (notified connecting none) = some trying
hear nothing (notified stopped none) = some over
hear trying (notified connected none) = some hearing
hear trying (notified disconnected (some e)) = some broken
hear trying (notified stopped none) = some over
hear hearing (notified disconnected (some e)) = some broken
hear hearing (notified stopped none) = some over
hear broken (notified stopped none) = some over
hear broken (waits d) = some nothing
hear _ _ = none

unfoldable pub hear_on : Option Heard → List Notice → Option Heard
hear_on none ns = none
hear_on (some h) [] = some h
hear_on (some h) (n ∷ ns) = hear_on (hear h n) ns

abbrev Ends : List Notice × Bool → Type 0
Ends (ns, ended) = hear_on (some nothing) ns ≡ some (if ended then over else nothing)

opening-stopped : (g : Bool) → Ends (opening g ++ notified stopped none ∷ [], true)
unfolding hear_on hear opening
opening-stopped true = refl
opening-stopped false = refl

opening-broken :
    (g : Bool) (r : Round)
    → Ends (
      opening g ++ notified disconnected (some (break_error r.status)) ∷ notified stopped none ∷ [],
      true,
    )
unfolding hear_on hear opening
opening-broken true r = refl
opening-broken false r = refl

opening-waits :
    (g : Bool) (r : Round) (o : StreamOptions) (k : ℕ) (p : List Notice × Bool)
    → Ends p
    → Ends (
      opening g ++ notified disconnected (some (break_error r.status)) ∷ waits (delay o k) ∷ p.0,
      p.1,
    )
unfolding hear_on hear opening
opening-waits true r o k p h = h
opening-waits false r o k p h = h

run_loop-Ends :
    (o : StreamOptions) (attempt : ℕ) (rounds : List Round) → Ends (run_loop o attempt rounds)
unfolding run_loop hear_on hear
run_loop-Ends o attempt [] = refl
run_loop-Ends o attempt (r ∷ rs) =
    let k = if r.got_data then 0 else attempt in
    let rest = run_loop-Ends o (k + 1) rs in
    if_both Ends r.stopping_first refl (
      if_both Ends r.stopping_then (opening-stopped r.got_data) (
        if_both Ends (not o.reconnect) (opening-broken r.got_data r) (
          if_both Ends r.stopping_last
            (opening-waits r.got_data r o k (notified stopped none ∷ [], true) refl)
            (opening-waits r.got_data r o k (run_loop o (k + 1) rs) rest))))

-- Whatever happens to its calls, a stream notifies `connecting` before every call, `connected` at most
-- once in each, `disconnected` with its error once after each that broke, a wait only after that; and
-- `stopped` exactly when the loop ends, as the last notification of all.
pub run_stream_notices :
    (o : StreamOptions) (rounds : List Round)
    → let p = run_stream o rounds in
      hear_on (some nothing) p.0 ≡ some (if p.1 then over else nothing)
unfolding run_stream
run_stream_notices o rounds = run_loop-Ends o 0 rounds
