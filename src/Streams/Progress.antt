-- ===== src/Streams/Progress.antt =====
-- How far the loop `run` is that src/market_data_stream.cpp and include/tinvest/streams/server_stream.hpp
-- share, what it has notified, and its moves.
use tinkoff_invest_sdkv.Prelude.{
  ◌≡◌, ℕ, ◌+◌, Bool, true, false, ◌⊎◌, if◌then◌else◌, List, [], ◌∷◌, ◌++◌, none, some,
}
use tinkoff_invest_sdkv.Error.{Status}
use tinkoff_invest_sdkv.Streams.{
  StreamOptions, Notice, notified, waits, connecting, connected, disconnected, stopped, break_error,
  delay,
}

-- Where the thread is: there is none; at the top of the loop; it has notified `connecting`; past the
-- critical section of `run_once` with the call not begun; waiting for the end of the call; back from
-- `run_once`; or waiting before the next round.
pub data Place : Type 0 where
  absent top announced opening calling returned waiting : Place

unfoldable pub is_absent : Place → Bool
is_absent absent = true
is_absent top = false
is_absent announced = false
is_absent opening = false
is_absent calling = false
is_absent returned = false
is_absent waiting = false

-- The places where the loop looks at `stopping_`.
unfoldable pub looks : Place → Bool
looks absent = false
looks top = true
looks announced = false
looks opening = false
looks calling = false
looks returned = true
looks waiting = true

-- `attempt` and `log` are those of the current thread: its counter, and what it has notified and waited
-- for. `heard`: data came on the current call.
pub record Progress : Type 0 where
  pub place : Place
  pub attempt : ℕ
  pub log : List Notice
  pub heard : Bool

abbrev pub begin : Progress → Progress
begin p = record p { place = top; attempt = 0; log = [] }

abbrev pub announce : Progress → Progress
announce p = record p { place = announced; log = p.log ++ notified connecting none ∷ [] }

-- Past the critical section of `run_once`, or back from it at once.
abbrev pub enter : Place → Progress → Progress
enter q p = record p { place = q; heard = false }

abbrev pub go_to : Place → Progress → Progress
go_to q p = record p { place = q }

-- The first message of a call.
unfoldable pub hear_data : Progress → Progress
hear_data p =
    if p.heard then p else record p { heard = true; log = p.log ++ notified connected none ∷ [] }

-- `attempt` after a call that broke.
abbrev pub failures : Progress → ℕ
failures p = if p.heard then 0 else p.attempt

abbrev pub broken : Status → Notice
broken status = notified disconnected (some (break_error status))

-- The end of a round, up to the wait.
unfoldable pub back_off : StreamOptions → Status → Progress → Progress
back_off o status p = record p {
  place = waiting;
  attempt = failures p + 1;
  log = p.log ++ broken status ∷ waits (delay o (failures p)) ∷ [];
}

-- The end of the loop, with what is notified at last.
abbrev pub end : List Notice → Progress → Progress
end ns p = record p { place = absent; log = p.log ++ ns }

abbrev pub farewell : List Notice
farewell = notified stopped none ∷ []

-- A move of the loop, or none.
pub data Move (o : StreamOptions) : Progress → Progress → Type 0 where
  rests : (p : Progress) → Move o p p
  begins : (p : Progress) → Move o p (begin p)
  announces : (p : Progress) → p.place ≡ top → Move o p (announce p)
  enters :
      (p : Progress) (q : Place)
      → p.place ≡ announced
      → (q ≡ opening) ⊎ (q ≡ returned)
      → Move o p (enter q p)
  calls : (p : Progress) → p.place ≡ opening → Move o p (go_to calling p)
  hears : (p : Progress) → (p.place ≡ opening) ⊎ (p.place ≡ calling) → Move o p (hear_data p)
  closes : (p : Progress) → p.place ≡ calling → Move o p (go_to returned p)
  breaks :
      (p : Progress) (status : Status)
      → p.place ≡ returned
      → o.reconnect ≡ true
      → Move o p (back_off o status p)
  gives_up :
      (p : Progress) (status : Status)
      → p.place ≡ returned
      → o.reconnect ≡ false
      → Move o p (end (broken status ∷ farewell) p)
  retries : (p : Progress) → p.place ≡ waiting → Move o p (go_to top p)
  ends : (p : Progress) → looks p.place ≡ true → Move o p (end farewell p)
