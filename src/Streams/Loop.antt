-- ===== src/Streams/Loop.antt =====
-- Complete rounds of the loop of include/tinvest/streams/server_stream.hpp.
use mathlib.Core.List.{append_assoc, append-nil}
use tinkoff_invest_sdkv.Prelude.{
  ◌≡◌, ℕ, ◌+◌, refl, sym, ap, ◌∙◌, ◌⊎◌, inl, inr, Bool, true, false, not, if◌then◌else◌, List, [],
  ◌∷◌, ◌++◌, map, none, some,
}
use tinkoff_invest_sdkv.Error.{Status}
use tinkoff_invest_sdkv.Streams.{
  StreamOptions, Notice, notified, waits, disconnected, stopped, Round, break_error, delay, opening,
  run_loop,
}

-- A call that broke: whether data came, and its status.
abbrev pub Call : Type 0
Call = Bool × Status

-- A round that goes on to the next.
abbrev pub went : Call → Round
went (got_data, status) = record {
  stopping_first = false;
  got_data = got_data;
  status = status;
  stopping_then = false;
  stopping_last = false;
}

-- A round at whose top the loop stops, and one after whose call it does.
abbrev pub stops_first : Round
stops_first = record {
  stopping_first = true;
  got_data = false;
  status = record { code = 0; message = [] };
  stopping_then = false;
  stopping_last = false;
}

abbrev pub stops_then : Call → Round
stops_then c = record (went c) { stopping_then = true }

module _ (o : StreamOptions) where
  abbrev pub tried : ℕ → Bool → ℕ
  tried attempt got_data = if got_data then 0 else attempt

  -- What a round that goes on notifies after `attempt` failures.
  abbrev pub round_log : ℕ → Call → List Notice
  round_log attempt (got_data, status) =
      opening got_data
      ++ notified disconnected (some (break_error status))
        ∷ waits (delay o (tried attempt got_data))
        ∷ []

  -- The log and the counter after rounds that went on.
  unfoldable pub spent : ℕ → List Call → List Notice × ℕ
  spent attempt [] = ([], attempt)
  spent attempt ((g, s) ∷ cs) =
      let (ns, end) = spent (tried attempt g + 1) cs in (round_log attempt (g, s) ++ ns, end)

  pub spent-append :
      (attempt : ℕ) (cs : List Call) (g : Bool) (s : Status)
      → spent attempt (cs ++ (g, s) ∷ []) ≡ (
        (spent attempt cs).0 ++ round_log (spent attempt cs).1 (g, s),
        tried (spent attempt cs).1 g + 1,
      )
  unfolding spent
  spent-append attempt [] g s = λ i. (append-nil (round_log attempt (g, s)) i, tried attempt g + 1)
  spent-append attempt ((h, t) ∷ cs) g s =
      let rest = spent-append (tried attempt h + 1) cs g s in
      let ns = spent (tried attempt h + 1) cs in
      ap (λ p. (round_log attempt (h, t) ++ p.0, p.1)) rest ∙ λ i. (
        sym (append_assoc (round_log attempt (h, t)) ns.0 (round_log ns.1 (g, s))) i,
        tried ns.1 g + 1,
      )

  -- The branches of a round after a call that broke.
  abbrev gave_up : Bool → Status → List Notice × Bool
  gave_up g s =
      (opening g ++ notified disconnected (some (break_error s)) ∷ notified stopped none ∷ [], true)

  abbrev kept : ℕ → Bool → Status → List Round → List Notice × Bool
  kept attempt g s rs =
      let rest = run_loop o (tried attempt g + 1) rs in
      (
        opening g
            ++ notified disconnected (some (break_error s))
              ∷ waits (delay o (tried attempt g))
              ∷ rest.0,
        rest.1,
      )

  went_round :
      (attempt : ℕ) (g : Bool) (s : Status) (rs : List Round)
      → o.reconnect ≡ true
      → run_loop o attempt (went (g, s) ∷ rs) ≡ (
        round_log attempt (g, s) ++ (run_loop o (tried attempt g + 1) rs).0,
        (run_loop o (tried attempt g + 1) rs).1,
      )
  unfolding run_loop opening
  went_round attempt true s rs r =
      ap (λ b. (if not b then gave_up true s else kept attempt true s rs)) r
  went_round attempt false s rs r =
      ap (λ b. (if not b then gave_up false s else kept attempt false s rs)) r

  -- A round after which a stream without `reconnect` ends.
  pub last_round :
      (attempt : ℕ) (g : Bool) (s : Status)
      → o.reconnect ≡ false
      → run_loop o attempt (went (g, s) ∷ []) ≡ (
        opening g ++ notified disconnected (some (break_error s)) ∷ notified stopped none ∷ [],
        true,
      )
  unfolding run_loop
  last_round attempt g s r = ap (λ b. (if not b then gave_up g s else kept attempt g s [])) r

  -- The loop over rounds that go on, and then others.
  pub run_loop-spent :
      (attempt : ℕ) (cs : List Call) (rs : List Round)
      → (cs ≡ []) ⊎ (o.reconnect ≡ true)
      → run_loop o attempt (map went cs ++ rs) ≡ (
        (spent attempt cs).0 ++ (run_loop o (spent attempt cs).1 rs).0,
        (run_loop o (spent attempt cs).1 rs).1,
      )
  unfolding spent
  run_loop-spent attempt [] rs a = refl
  run_loop-spent attempt (c ∷ cs) rs (inl e) = absurd cc
  run_loop-spent attempt ((g, s) ∷ cs) rs (inr r) =
      let k = tried attempt g + 1 in
      let ns = spent k cs in
      let rest = run_loop o ns.1 rs in
      went_round attempt g s (map went cs ++ rs) r
      ∙ ap (λ p. (round_log attempt (g, s) ++ p.0, p.1)) (run_loop-spent k cs rs (inr r))
      ∙ λ i. (sym (append_assoc (round_log attempt (g, s)) ns.0 rest.0) i, rest.1)
