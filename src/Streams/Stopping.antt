-- ===== src/Streams/Stopping.antt =====
-- A `stop` of include/tinvest/streams/server_stream.hpp comes to its end.
use tinkoff_invest_sdkv.Prelude.{
  ◌≡◌, ℕ, ◌<◌, ◌≤◌, arith, ◌⊎◌, inl, inr, Bool, true, false, Bool-cases,
}
use tinkoff_invest_sdkv.Streams.{StreamOptions}
use tinkoff_invest_sdkv.Streams.Server.{start, stop, handle_done}
use tinkoff_invest_sdkv.Streams.Progress.{
  Place, absent, top, announced, opening, calling, returned, waiting, looks, hear_data, back_off,
}
use tinkoff_invest_sdkv.Streams.World.{
  IsTimely, AllTimely, World, perform, started, halted, received, finished, Step, starts, stops,
  joins, announces, opens, refuses, calls, receives, finishes, closes, breaks, gives_up, retries,
  ends, Reach,
}
use tinkoff_invest_sdkv.Streams.Safety.{IsAbsent, Inv, Reach-Inv}

-- How many steps of the thread and of the call are left, when it is to stop, until the thread is gone.
unfoldable pub left : Place → Bool → ℕ
left absent active = 0
left top active = 1
left returned active = 1
left waiting active = 1
left announced active = 2
left calling false = 2
left calling true = 3
left opening active = 4

abbrev pub remaining : World → ℕ
remaining w = left w.place w.active

-- A step that brings the end of a waiting `stop` nearer.
abbrev pub Nearer : StreamOptions → World → Type 0
Nearer o w = (u : World) × Step o w u × (remaining u < remaining w)

moves : (o : StreamOptions) (w : World) → Inv w → w.joining ≡ true → (w.place ≡ absent) ⊎ Nearer o w
unfolding left finished handle_done looks
moves o w v j = elim v.place [
  | inl a ↦ inl a.place
  | inr (inl b) ↦ elim b.place [
    | inl p ↦ inr (_, ends w (ground arith) (ground arith), ground arith)
    | inr (inl p) ↦ inr (_, refuses w p (ground arith), ground arith)
    | inr (inr (inl p)) ↦ inr (_, ends w (ground arith) (ground arith), ground arith)
    | inr (inr (inr p)) ↦ inr (_, ends w (ground arith) (ground arith), ground arith)
  ]
  | inr (inr (inl c)) ↦ inr (_, calls w c.place, ground arith)
  | inr (inr (inr c)) ↦ elim (Bool-cases w.active) [
    | inl a ↦ inr (_, finishes w w.stream.status a, ground arith)
    | inr a ↦ inr (_, closes w c.place (ground arith), ground arith)
  ]
]

keeps :
    {o : StreamOptions} {w u : World} (s : Step o w u)
    → IsTimely s
    → Inv w
    → w.joining ≡ true
    → remaining u ≤ remaining w
unfolding left started start halted stop perform received hear_data finished back_off looks
keeps (starts w) e v j = ground (arith, e, j)
keeps (stops w) c v j = ground arith
keeps (joins w e p) c v j = ground arith
keeps (announces w p e) c v j = ground arith
keeps (opens w p e) c v j = ground arith
keeps (refuses w p e) c v j = ground arith
keeps (calls w p) c v j = ground arith
keeps (receives w a) c v j = ground arith
keeps (finishes w status a) c v j = ground arith
keeps (closes w p d) c v j = ground arith
keeps (breaks w p s r) c v j = ground arith
keeps (gives_up w p s r) c v j = ground arith
keeps (retries w p s) c v j = ground arith
keeps (ends w p e) c v j = ground arith

-- While a `stop` waits for the thread of a stream that had none at first, and as long as no `start` comes
-- while one waits, the context of a call that
-- runs is cancelled; the thread is gone or a step is possible that lessens what remains, at most four
-- steps; and no other step of anyone adds to what remains, so that no further call is begun.
pub stop_ends :
    (o : StreamOptions) (v w u : World)
    → IsAbsent v
    → v.joining ≡ false
    → v.misuse ≡ false
    → (r : Reach o v w) → AllTimely r
    → w.joining ≡ true
    → (s : Step o w u) → IsTimely s
    → ((w.active ≡ false) ⊎ (w.cancelled ≡ true))
      × ((w.place ≡ absent) ⊎ Nearer o w)
      × (remaining w ≤ 4)
      × (remaining u ≤ remaining w)
unfolding left
stop_ends o v w u a e m r b j s c =
    let i = Reach-Inv r b (record { clean = m; joining = inl e; place = inl a }) in
    (ground arith, moves o w i j, ground arith, keeps s c i j)
