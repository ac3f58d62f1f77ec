-- ===== src/Programs/Closing.antt =====
-- The programs examples/coro_trade.cpp and examples/sandbox_trade.cpp leave no account open.
use tinkoff_invest_sdkv.Prelude.{
  ◌≡◌, refl, ap, ◌∙◌, ℕ, ◌+◌, Bool, true, false, if◌then◌else◌, List, [], ◌∷◌, Option, none, some,
  Bytes, bytes_eq,
}
use tinkoff_invest_sdkv.Prelude.Dict.{bytes_eq_refl}
use tinkoff_invest_sdkv.Error.{value, error}
use tinkoff_invest_sdkv.Awaitable.{Ended, returned, iterate, wait_start}
use tinkoff_invest_sdkv.Awaitable.Meaning.{evaluate}
use tinkoff_invest_sdkv.Awaitable.Waiting.{sync_wait-evaluate}
use tinkoff_invest_sdkv.Programs.{Exit, instrument_of}
use tinkoff_invest_sdkv.Programs.Sandbox.{
  SandboxRequest, opens_account, pays_in, posts_order, gets_portfolio, closes_account, Answer,
  coro_run, coro_main, sandbox_run, sandbox_main, trade_once, round_trip,
}

-- A list of the accounts that are open, as a server keeps it.
unfoldable pub holds : List Bytes → Bytes → Bool
holds [] id = false
holds (a ∷ held) id = if bytes_eq a id then true else holds held id

unfoldable pub without : List Bytes → Bytes → List Bytes
without [] id = []
without (a ∷ held) id = let rest = without held id in if bytes_eq a id then rest else a ∷ rest

-- The account that a request is about, and what is open after it.
unfoldable pub opened_by : List Bytes → Answer → List Bytes
opened_by held (value r) = r.account_id ∷ held
opened_by held (error e) = held

-- An account is closed unless the answer to the request is an error.
unfoldable pub closed_by : List Bytes → Bytes → Answer → List Bytes
closed_by held id (value r) = without held id
closed_by held id (error e) = held

-- What is open after the requests; `none` if one of them names an account that is not open then.
unfoldable pub serve :
    (SandboxRequest → Answer) → List Bytes → List SandboxRequest → Option (List Bytes)
serve respond held [] = some held
serve respond held (opens_account ∷ qs) = serve respond (opened_by held (respond opens_account)) qs
serve respond held (pays_in id amount ∷ qs) =
    let rest = serve respond held qs in if holds held id then rest else none
serve respond held (posts_order o ∷ qs) =
    let rest = serve respond held qs in if holds held o.account_id then rest else none
serve respond held (gets_portfolio id ∷ qs) =
    let rest = serve respond held qs in if holds held id then rest else none
serve respond held (closes_account id ∷ qs) =
    let rest = serve respond (closed_by held id (respond (closes_account id))) qs in
    if holds held id then rest else none

-- The exit code that goes with the answer to the first call.
unfoldable pub code_after : Answer → ℕ
code_after (value r) = 0
code_after (error e) = 1

-- What may be left: the account, if it was opened and the service refused to close it.
unfoldable pub unclosed : Bytes → Answer → List Bytes
unclosed id (value r) = []
unclosed id (error e) = id ∷ []

unfoldable pub left_open : (SandboxRequest → Answer) → Answer → List Bytes
left_open respond (value r) = unclosed r.account_id (respond (closes_account r.account_id))
left_open respond (error e) = []

-- It ends with the right code, after requests each of which names an account that is open at its time,
-- and leaves no account open but one that the service refused to close.
abbrev pub Closes :
    {E : Type 0} → (SandboxRequest → Answer) → Exit → Ended Exit E × List SandboxRequest → Type 0
Closes respond exit run =
    (run.0 ≡ returned exit)
    × (exit.code ≡ code_after (respond opens_account))
    × (serve respond [] run.1 ≡ some (left_open respond (respond opens_account)))

closed_by-unclosed : (id : Bytes) (a : Answer) → closed_by (id ∷ []) id a ≡ unclosed id a
unfolding closed_by unclosed without
closed_by-unclosed id (value r) = rw (bytes_eq_refl id) refl
closed_by-unclosed id (error e) = refl

module _ {E : Type 0} (respond : SandboxRequest → Answer) where
  trade_once-Closes :
      (instrument : Bytes) (a : Answer)
      → (let run = evaluate respond (trade_once E instrument a) in
          (exit : Exit) × (run.0 ≡ returned exit)
          × (exit.code ≡ code_after a)
          × (serve respond (opened_by [] a) run.1 ≡ some (left_open respond a)))
  unfolding evaluate trade_once serve code_after opened_by holds left_open
  trade_once-Closes instrument (value r) = (
    _,
    refl,
    refl,
    rw (bytes_eq_refl r.account_id)
        (ap some (closed_by-unclosed r.account_id (respond (closes_account r.account_id)))),
  )
  trade_once-Closes instrument (error e) = (_, refl, refl, refl)

  round_trip-Closes :
      (instrument : Bytes) (a : Answer)
      → (let run = evaluate respond (round_trip E instrument a) in
          (exit : Exit) × (run.0 ≡ returned exit)
          × (exit.code ≡ code_after a)
          × (serve respond (opened_by [] a) run.1 ≡ some (left_open respond a)))
  unfolding evaluate round_trip serve code_after opened_by holds left_open
  round_trip-Closes instrument (value r) = (
    _,
    refl,
    refl,
    rw (bytes_eq_refl r.account_id)
        (ap some (closed_by-unclosed r.account_id (respond (closes_account r.account_id)))),
  )
  round_trip-Closes instrument (error e) = (_, refl, refl, refl)

  coro_run-Closes :
      (instrument : Bytes)
      → (exit : Exit) × Closes respond exit (evaluate respond (coro_run E instrument))
  unfolding evaluate coro_run serve
  coro_run-Closes instrument =
      let (exit, ends, code, served) = trade_once-Closes instrument (respond opens_account) in
      (exit, (ends, code, served))

  -- `main` of examples/sandbox_trade.cpp with a token ends, whatever the calls come to: with 0 if the
  -- account was opened and 1 otherwise. Each of its requests names an account that is open then, and
  -- none is left open but the one that it opened, if the service refuses to close it.
  pub sandbox_main-Closes :
      (token : Bytes) (argument : Option Bytes)
      → (exit : Exit) × Closes respond exit (sandbox_main E respond (some token) argument)
  unfolding evaluate sandbox_main sandbox_run serve
  sandbox_main-Closes token argument =
      let (exit, ends, code, served) =
        round_trip-Closes (instrument_of argument) (respond opens_account) in
      (exit, (ends, code, served))

  -- `main` of examples/coro_trade.cpp with a token comes to its end, whatever the calls come to: from
  -- some number of steps of the coroutines' machine on it returns 0 if the account was opened and 1
  -- otherwise. Each request that the machine has made names an account that is open then, and none is
  -- left open but the one that it opened, if the service refuses to close it.
  pub coro_main-Closes :
      (token : Bytes) (argument : Option Bytes)
      → (n : ℕ) × (exit : Exit) × ((more : ℕ)
          → coro_main E respond (n + more) (some token) argument ≡ some (returned exit))
        × (exit.code ≡ code_after (respond opens_account))
        × (serve respond []
              (iterate respond n (wait_start (coro_run E (instrument_of argument)))).requests
            ≡ some (left_open respond (respond opens_account)))
  unfolding coro_main
  coro_main-Closes token argument =
      let s = coro_run E (instrument_of argument) in
      let (exit, (ends, code, served)) = coro_run-Closes (instrument_of argument) in
      let (n, waits, (done, released, requests, dead)) = sync_wait-evaluate respond s in
      (n, exit, λ more. waits more ∙ ap some ends, code, ap (serve respond []) requests ∙ served)
