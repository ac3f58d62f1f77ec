-- ===== src/Awaitable/Steps.antt =====
-- The steps of the machine of coroutine frames.
use tinkoff_invest_sdkv.Prelude.{ℕ, ◌≡◌, refl, sym, subst, List, some}
use tinkoff_invest_sdkv.Awaitable.{
  Heap, resume_frame, answer, final_suspend, step_control, with_frame, Script, Frame, Control,
  running, resuming, calling, finishing, Machine, cell, run_script, step,
}

module _ {Q R V E : Type 0} where
  -- The machine gets from one state to another.
  pub data Leads (respond : Q → R) : Machine Q R V E → Machine Q R V E → Type 0 where
    here : {m : Machine Q R V E} → Leads respond m m
    then : {m n : Machine Q R V E} → Leads respond (step respond m) n → Leads respond m n

  pub joined :
      {respond : Q → R} {m n o : Machine Q R V E}
      → Leads respond m n
      → Leads respond n o
      → Leads respond m o
  joined here q = q
  joined (then p) q = then (joined p q)

  pub along :
      {respond : Q → R} {m n o : Machine Q R V E}
      → step respond m ≡ n
      → Leads respond n o
      → Leads respond m o
  along {respond} {m} {n} {o} e p = then (subst (λ x. Leads respond x o) (sym e) p)

  abbrev pub at : Heap Q R V E → List Q → ℕ → Control Q R V E → Machine Q R V E
  at h qs r c = record { heap = h; requests = qs; released = r; control = c }

  module _ (respond : Q → R) where
    pub step_running :
        (h : Heap Q R V E) (qs : List Q) (r i : ℕ) (f : Frame Q R V E) (s : Script Q R V E)
        → cell h i ≡ some f
        → step respond (at h qs r (running i s)) ≡ run_script (at h qs r (running i s)) i s f
    unfolding step step_control with_frame
    step_running h qs r i f s e = rw e refl

    pub step_resuming :
        (h : Heap Q R V E) (qs : List Q) (r i : ℕ) (f : Frame Q R V E)
        → cell h i ≡ some f
        → step respond (at h qs r (resuming i))
          ≡ resume_frame (at h qs r (resuming i)) i f.suspended
    unfolding step step_control with_frame
    step_resuming h qs r i f e = rw e refl

    pub step_calling :
        (h : Heap Q R V E) (qs : List Q) (r i : ℕ) (q : Q) (f : Frame Q R V E)
        → cell h i ≡ some f
        → step respond (at h qs r (calling i q))
          ≡ answer (at h qs r (calling i q)) i (respond q) f.suspended
    unfolding step step_control with_frame
    step_calling h qs r i q f e = rw e refl

    pub step_finishing :
        (h : Heap Q R V E) (qs : List Q) (r i : ℕ) (f : Frame Q R V E)
        → cell h i ≡ some f
        → step respond (at h qs r (finishing i)) ≡ final_suspend (at h qs r (finishing i)) i f
    unfolding step step_control with_frame
    step_finishing h qs r i f e = rw e refl
