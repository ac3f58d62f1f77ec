-- ===== src/Streams/Trace.antt =====
-- What the moves of the loop of a stream notify is what the loop notifies on some rounds.
use mathlib.Core.List.{append_assoc, append-nil}
use tinkoff_invest_sdkv.Prelude.{
  ◌≡◌, refl, sym, ap, ◌∙◌, ◌⊎◌, inl, inr, Bool, true, false, if◌then◌else◌, List, [], ◌∷◌, ◌++◌,
  map, none,
}
use tinkoff_invest_sdkv.Streams.{
  StreamOptions, Notice, notified, stopped, Round, opening as opening_of, run_loop, run_stream,
}
use tinkoff_invest_sdkv.Streams.Loop.{Call, went, stops_first, stops_then, spent, run_loop-spent}
use tinkoff_invest_sdkv.Streams.Progress.{
  Progress, Place, absent, top, announced, opening, calling, returned, waiting, is_absent,
}

-- What the current round has notified so far.
unfoldable pub begun : Place → Bool → List Notice
begun absent got_data = []
begun top got_data = []
begun announced got_data = opening_of false
begun opening got_data = opening_of got_data
begun calling got_data = opening_of got_data
begun returned got_data = opening_of got_data
begun waiting got_data = []

-- The log once the thread is gone, if it were to go now.
abbrev pub closing : Progress → List Notice
closing p = if is_absent p.place then p.log else p.log ++ notified stopped none ∷ []

module _ (o : StreamOptions) where
  -- The thread is in a round after some that went on.
  pub record Runs (p : Progress) : Type 0 where
    pub past : List Call
    pub allowed : (past ≡ []) ⊎ (o.reconnect ≡ true)
    pub attempt : p.attempt ≡ (spent o 0 past).1
    pub log : p.log ≡ (spent o 0 past).0 ++ begun p.place p.heard

  -- The thread has ended.
  abbrev pub Ran : List Notice → Type 0
  Ran log = (log ≡ []) ⊎ ((rounds : List Round) × (run_stream o rounds ≡ (log, true)))

  abbrev pub Trace : Progress → Type 0
  Trace p = ((p.place ≡ absent) × Ran p.log) ⊎ ((is_absent p.place ≡ false) × Runs p)

  -- A log that goes on.
  pub extend :
      (log before now more : List Notice)
      → log ≡ before ++ now
      → log ++ more ≡ before ++ (now ++ more)
  extend log before now more e = ap (λ l. l ++ more) e ∙ append_assoc before now more

  -- The log of a thread that ends in a round.
  pub ended_log :
      (cs : List Call) (last : Round) (log now : List Notice)
      → (cs ≡ []) ⊎ (o.reconnect ≡ true)
      → run_loop o (spent o 0 cs).1 (last ∷ []) ≡ (now, true)
      → log ≡ (spent o 0 cs).0 ++ now
      → run_stream o (map went cs ++ last ∷ []) ≡ (log, true)
  unfolding run_stream
  ended_log cs last log now a e f =
      run_loop-spent o 0 cs (last ∷ []) a ∙ ap (λ p. ((spent o 0 cs).0 ++ p.0, p.1)) e ∙ λ i.
      (sym f i, true)

  abbrev pub Completion : Progress → Type 0
  Completion p =
      (rounds : List Round) × (run_stream o rounds ≡ (p.log ++ notified stopped none ∷ [], true))

  stops_at_top : (p : Progress) → Runs p → begun p.place p.heard ≡ [] → Completion p
  unfolding run_loop
  stops_at_top p r e =
      let f = r.log ∙ ap (λ b. (spent o 0 r.past).0 ++ b) e in
      (
        map went r.past ++ stops_first ∷ [],
        ended_log r.past stops_first _ (notified stopped none ∷ []) r.allowed refl
            (extend p.log _ [] (notified stopped none ∷ []) f),
      )

  stops_after :
      (p : Progress) (g : Bool) → Runs p → begun p.place p.heard ≡ opening_of g → Completion p
  unfolding run_loop
  stops_after p g r e =
      let f = r.log ∙ ap (λ b. (spent o 0 r.past).0 ++ b) e in
      let last = stops_then (g, record { code = 0; message = [] }) in
      (
        map went r.past ++ last ∷ [],
        ended_log r.past last _ (opening_of g ++ notified stopped none ∷ []) r.allowed refl
            (extend p.log _ (opening_of g) (notified stopped none ∷ []) f),
      )

  begun_cases :
      (p : Place) (g : Bool)
      → is_absent p ≡ false
      → (begun p g ≡ []) ⊎ ((h : Bool) × (begun p g ≡ opening_of h))
  unfolding begun is_absent
  begun_cases absent g n = absurd cc
  begun_cases top g n = inl refl
  begun_cases announced g n = inr (false, refl)
  begun_cases opening g n = inr (g, refl)
  begun_cases calling g n = inr (g, refl)
  begun_cases returned g n = inr (g, refl)
  begun_cases waiting g n = inl refl

  -- Were it stopped now, the log would be the loop's.
  pub stops_now : (p : Progress) → is_absent p.place ≡ false → Runs p → Completion p
  stops_now p n r = elim (begun_cases p.place p.heard n) [
    | inl e ↦ stops_at_top p r e
    | inr (g, e) ↦ stops_after p g r e
  ]

  -- A step that adds to the current round what it adds to the log.
  pub moved :
      (p u : Progress) (more : List Notice)
      → u.log ≡ p.log ++ more
      → u.attempt ≡ p.attempt
      → begun u.place u.heard ≡ begun p.place p.heard ++ more
      → Runs p
      → Runs u
  moved p u more e f g r = record {
    past = r.past;
    allowed = r.allowed;
    attempt = f ∙ r.attempt;
    log =
        e
        ∙ extend p.log (spent o 0 r.past).0 (begun p.place p.heard) more r.log
        ∙ ap (λ ns. (spent o 0 r.past).0 ++ ns) (sym g);
  }

  -- A step that adds nothing.
  pub unmoved :
      (p u : Progress)
      → u.log ≡ p.log
      → u.attempt ≡ p.attempt
      → begun u.place u.heard ≡ begun p.place p.heard
      → Runs p
      → Runs u
  unmoved p u e f g r =
      moved p u [] (e ∙ sym (append-nil p.log)) f (g ∙ sym (append-nil (begun p.place p.heard))) r
