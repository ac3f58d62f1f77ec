-- ===== src/Awaitable/Refines.antt =====
-- The machine of frames and handles computes what the task means.
use mathlib.Core.Option.{none-ne-some}
use mathlib.Core.List.{append_assoc, append-nil}
use native.Mathlib.Decide.{ℕ_discrete}
use tinkoff_invest_sdkv.Prelude.{
  ℕ, ◌≡◌, ◌≢◌, refl, sym, ap, subst, ◌∙◌, List, [], ◌∷◌, ◌++◌, none, some, length,
}
use tinkoff_invest_sdkv.Awaitable.{
  suspend_call, await_child, Heap, resume_frame, answer, final_suspend, Ended, Script, returns,
  throws, calls, awaits, at_call, at_child, at_final, Frame, running, resuming, finishing, cell,
  new_frame, write_frame, destroy, end_frame, run_script, promised, resume_parent, step,
}
use tinkoff_invest_sdkv.Awaitable.Heaps.{
  cell-write_self, cell-set_ne, cell-destroy_self, cell-fresh, cell-new, cell-append_ne,
  length-write,
}
use tinkoff_invest_sdkv.Awaitable.Meaning.{evaluate}
use tinkoff_invest_sdkv.Awaitable.Steps.{
  Leads, here, joined, along, at, step_running, step_resuming, step_calling, step_finishing,
}

module _ {Q R V E : Type 0} where
  -- A frame runs a script to its end: its promise holds how that ended, and no other frame that was
  -- there has changed; none is left behind.
  pub record Finishes (respond : Q → R) (h : Heap Q R V E) (qs : List Q) (r i : ℕ)
      (f : Frame Q R V E) (s : Script Q R V E) : Type 0 where
    pub heap : Heap Q R V E
    pub frame : Frame Q R V E
    pub leads :
        Leads respond
          (at h qs r (running i s))
          (at heap (qs ++ (evaluate respond s).1) r (finishing i))
    pub stored : cell heap i ≡ some frame
    pub holds : promised frame ≡ some (evaluate respond s).0
    pub continuation : frame.continuation ≡ f.continuation
    pub on_complete : frame.on_complete ≡ f.on_complete
    pub others : (j : ℕ) → i ≢ j → cell heap j ≡ cell h j

  module _ (respond : Q → R) where
    finish_end :
        (h : Heap Q R V E) (qs : List Q) (r i : ℕ) (f g : Frame Q R V E) (s : Script Q R V E)
        → cell h i ≡ some f
        → run_script (at h qs r (running i s)) i s f ≡ at (write_frame h i g) qs r (finishing i)
        → (evaluate respond s).1 ≡ []
        → promised g ≡ some (evaluate respond s).0
        → g.continuation ≡ f.continuation
        → g.on_complete ≡ f.on_complete
        → Finishes respond h qs r i f s
    finish_end h qs r i f g s e run none_sent holds same kept =
        let all_sent : qs ++ (evaluate respond s).1 ≡ qs =
          ap (λ x. qs ++ x) none_sent ∙ append-nil qs in
        record {
          heap = write_frame h i g;
          frame = g;
          leads =
              along
                (step_running respond h qs r i f s e
                  ∙ run
                  ∙ ap (λ x. at (write_frame h i g) x r (finishing i)) (sym all_sent))
                here;
          stored = cell-write_self h i f g e;
          holds = holds;
          continuation = same;
          on_complete = kept;
          others = λ j n. unfold write_frame in (cell-set_ne h i j (some g) n);
        }

    finish_call :
        (h : Heap Q R V E) (qs : List Q) (r i : ℕ) (f : Frame Q R V E) (q : Q)
        (k : R → Script Q R V E)
        → cell h i ≡ some f
        → Finishes respond
            (write_frame h i (record f { suspended = at_call k }))
            (qs ++ q ∷ [])
            r
            i
            (record f { suspended = at_call k })
            (k (respond q))
        → Finishes respond h qs r i f (calls q k)
    unfolding evaluate
    finish_call h qs r i f q k e done_later =
        let g = record f { suspended = at_call k } in
        let d = done_later in
        let sent : Leads respond (at h qs r (running i (calls q k)))
            (at (write_frame h i g) (qs ++ q ∷ []) r (running i (k (respond q)))) =
          along (step_running respond h qs r i f (calls q k) e) (
            unfold run_script suspend_call in
            (along
              (step_calling respond (write_frame h i g) (qs ++ q ∷ []) r i q g
                (cell-write_self h i f g e))
              (unfold answer in here))) in
        record {
          heap = d.heap;
          frame = d.frame;
          leads =
              subst
                (λ x.
                  Leads respond (at h qs r (running i (calls q k))) (at d.heap x r (finishing i)))
                (append_assoc qs (q ∷ []) (evaluate respond (k (respond q))).1)
                (joined sent d.leads);
          stored = d.stored;
          holds = d.holds;
          continuation = d.continuation;
          on_complete = d.on_complete;
          others = λ j n. d.others j n ∙ unfold write_frame in (cell-set_ne h i j (some g) n);
        }

    -- The awaiting frame when its child has ended and is destroyed.
    parent_stored :
        (h : Heap Q R V E) (qs : List Q) (r i : ℕ) (f g child : Frame Q R V E) (c : Script Q R V E)
        → cell h i ≡ some f
        → (d : Finishes respond (write_frame h i g ++ some child ∷ []) qs r (length h) child c)
        → (length h ≢ i) × (cell d.heap i ≡ some g) × (cell (destroy d.heap (length h)) i ≡ some g)
    parent_stored h qs r i f g child c e d =
        let apart : length h ≢ i = λ x. none-ne-some f (sym (cell-fresh h) ∙ ap (cell h) x ∙ e) in
        let alive : cell d.heap i ≡ some g =
          d.others i apart
          ∙ cell-append_ne (write_frame h i g) (some child) i
              (λ x. apart (sym (length-write h i g) ∙ x))
          ∙ cell-write_self h i f g e in
        (apart, alive, unfold destroy in (cell-set_ne d.heap (length h) i none apart) ∙ alive)

    finish_await :
        (h : Heap Q R V E) (qs : List Q) (r i : ℕ) (f : Frame Q R V E) (c : Script Q R V E)
        (k : Ended V E → Script Q R V E)
        → cell h i ≡ some f
        → let j = length h in
          let g = record f { suspended = at_child j k } in
          let child = record (new_frame c) { continuation = some i } in
          (d : Finishes respond (write_frame h i g ++ some child ∷ []) qs r j child c)
          → Finishes respond
              (destroy d.heap j)
              (qs ++ (evaluate respond c).1)
              r
              i
              g
              (k (evaluate respond c).0)
          → Finishes respond h qs r i f (awaits c k)
    unfolding evaluate
    finish_await h qs r i f c k e d l =
        let j = length h in
        let g = record f { suspended = at_child j k } in
        let child = record (new_frame c) { continuation = some i } in
        let written = write_frame h i g in
        let size = length-write h i g in
        let (apart, parent, kept) = parent_stored h qs r i f g child c e d in
        let ends = (evaluate respond c).0 in
        let sent = qs ++ (evaluate respond c).1 in
        let born : cell (written ++ some child ∷ []) j ≡ some child =
          ap (cell (written ++ some child ∷ [])) (sym size) ∙ cell-new written child in
        let begun : Leads respond (at h qs r (running i (awaits c k)))
            (at (written ++ some child ∷ []) qs r (running j c)) =
          along (step_running respond h qs r i f (awaits c k) e) (
            unfold run_script await_child in
            (along (step_resuming respond (written ++ some child ∷ []) qs r j child born)
              (unfold resume_frame in here))) in
        let resumed : step respond (at d.heap sent r (resuming i))
            ≡ at (destroy d.heap j) sent r (running i (k ends)) =
          step_resuming respond d.heap sent r i g parent
          ∙ unfold resume_frame in
            (ap (resume_parent (at d.heap sent r (resuming i)) i j k) d.stored
              ∙ unfold resume_parent in (rw (d.holds, resume_parent) refl)) in
        let over : step respond (at d.heap sent r (finishing j)) ≡ at d.heap sent r (resuming i) =
          step_finishing respond d.heap sent r j d.frame d.stored
          ∙ unfold final_suspend in (rw d.continuation refl) in
        let back : Leads respond (at d.heap sent r (finishing j))
            (at (destroy d.heap j) sent r (running i (k ends))) =
          along over (along resumed here) in
        record {
          heap = l.heap;
          frame = l.frame;
          leads =
              subst
                (λ x.
                  Leads respond (at h qs r (running i (awaits c k))) (at l.heap x r (finishing i)))
                (append_assoc qs (evaluate respond c).1 (evaluate respond (k ends)).1)
                (joined begun (joined d.leads (joined back l.leads)));
          stored = l.stored;
          holds = l.holds;
          continuation = l.continuation;
          on_complete = l.on_complete;
          others = λ x n. l.others x n ∙ elim (ℕ_discrete j x) [
            | yes same ↦
                ap (cell (destroy d.heap j)) (sym same)
                ∙ cell-destroy_self d.heap j
                ∙ sym (cell-fresh h)
                ∙ ap (cell h) same
            | no other ↦
                unfold destroy in
                (cell-set_ne d.heap j x none other)
                ∙ d.others x other
                ∙ cell-append_ne written (some child) x (λ y. other (sym size ∙ y))
                ∙ unfold write_frame in (cell-set_ne h i x (some g) n)
          ];
        }

    -- Every script that a frame with an empty promise runs comes to its end.
    pub run_lem :
        (s : Script Q R V E) (h : Heap Q R V E) (qs : List Q) (r i : ℕ) (f : Frame Q R V E)
        → cell h i ≡ some f
        → f.value ≡ none
        → f.exception ≡ none
        → Finishes respond h qs r i f s
    run_lem (returns v) h qs r i f e a b =
        finish_end h qs r i f (record f { value = some v; suspended = at_final }) (returns v) e
          (unfold run_script end_frame in refl) (unfold evaluate in refl)
          (unfold promised evaluate in (rw b refl)) refl refl
    run_lem (throws x) h qs r i f e a b =
        finish_end h qs r i f (record f { exception = some x; suspended = at_final }) (throws x) e
          (unfold run_script end_frame in refl) (unfold evaluate in refl)
          (unfold promised evaluate in refl) refl refl
    run_lem (calls q k) h qs r i f e a b =
        let g = record f { suspended = at_call k } in
        finish_call h qs r i f q k e (
          run_lem (k (respond q)) (write_frame h i g) (qs ++ q ∷ []) r i g
            (cell-write_self h i f g e) a b)
    run_lem (awaits c k) h qs r i f e a b =
        let j = length h in
        let g = record f { suspended = at_child j k } in
        let child = record (new_frame c) { continuation = some i } in
        let written = write_frame h i g in
        let born : cell (written ++ some child ∷ []) j ≡ some child =
          ap (cell (written ++ some child ∷ [])) (sym (length-write h i g))
          ∙ cell-new written child in
        let d = run_lem c (written ++ some child ∷ []) qs r j child born refl refl in
        finish_await h qs r i f c k e d (
          run_lem (k (evaluate respond c).0) (destroy d.heap j) (qs ++ (evaluate respond c).1) r i g
            (parent_stored h qs r i f g child c e d).2 a b)
