-- ===== src/Streams.antt =====
-- What the two kinds of streams share: the states they notify and the reconnection loop, `run` of
-- src/market_data_stream.cpp and of include/tinvest/streams/server_stream.hpp.
pub mod Server
pub mod Loop
pub mod Progress
pub mod World
pub mod Safety
pub mod Stopping
pub mod Trace
pub mod Moves
pub mod Refines
pub mod Factories
pub mod Backoff
pub mod Notices
mod Examples
use tinkoff_invest_sdkv.Prelude.{
  ℕ, zero, suc, ◌+◌, ◌^◌, min, Bool, true, false, not, if◌then◌else◌, List, [], ◌∷◌, ◌++◌, Option,
  none, some,
}
use tinkoff_invest_sdkv.Prelude.Int.{ℤ, pos, ◌*ℤ◌, ltb_ℤ}
use tinkoff_invest_sdkv.Prelude.Word.{to_i64}
use tinkoff_invest_sdkv.Error.{Status, Error, new_error}

pub data StreamState : Type 0 where
  connecting connected disconnected stopped : StreamState

-- Times in milliseconds.
pub record StreamOptions : Type 0 where
  pub initial_backoff : ℤ
  pub max_backoff : ℤ
  pub reconnect : Bool

abbrev pub default_options : StreamOptions
default_options = record { initial_backoff = pos 100; max_backoff = pos 30_000; reconnect = true }

-- What the loop does in order: `notify`, and the waits between two calls.
pub data Notice : Type 0 where
  notified : StreamState → Option Error → Notice
  waits : ℤ → Notice

-- What one round of the loop finds: `stopping_` at its top, what `run_once` came to and whether data
-- came, and `stopping_` after it and at the end of the wait.
pub record Round : Type 0 where
  pub stopping_first : Bool
  pub got_data : Bool
  pub status : Status
  pub stopping_then : Bool
  pub stopping_last : Bool

unfoldable pub break_error : Status → Error
break_error s = record new_error { code = s.code; message = s.message }

unfoldable pub delay : StreamOptions → ℕ → ℤ
delay o attempt =
    let d = to_i64 (o.initial_backoff *ℤ pos (2 ^ min attempt 8)) in
    if ltb_ℤ o.max_backoff d then o.max_backoff else d

-- `connecting`, and `connected` when the first message comes.
unfoldable pub opening : Bool → List Notice
opening got_data =
    notified connecting none ∷ (if got_data then notified connected none ∷ [] else [])

-- The loop over the rounds from an attempt; it also says whether the loop has ended.
unfoldable pub run_loop : StreamOptions → ℕ → List Round → List Notice × Bool
run_loop o attempt [] = ([], false)
run_loop o attempt (r ∷ rs) =
    let failures = if r.got_data then 0 else attempt in
    let rest = run_loop o (failures + 1) rs in
    let end = notified stopped none ∷ [] in
    let broken = notified disconnected (some (break_error r.status)) in
    if r.stopping_first
    then (end, true)
    else if r.stopping_then
    then (opening r.got_data ++ end, true)
    else if not o.reconnect
    then (opening r.got_data ++ broken ∷ end, true)
    else if r.stopping_last
    then (opening r.got_data ++ broken ∷ waits (delay o failures) ∷ end, true)
    else (opening r.got_data ++ broken ∷ waits (delay o failures) ∷ rest.0, rest.1)

-- `run` starts with attempt 0.
unfoldable pub run_stream : StreamOptions → List Round → List Notice × Bool
run_stream o rounds = run_loop o 0 rounds
