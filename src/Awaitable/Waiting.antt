-- ===== src/Awaitable/Waiting.antt =====
-- `sync_wait` of include/tinvest/awaitable.hpp returns what the task means.
use tinkoff_invest_sdkv.Prelude.{
  ℕ, zero, suc, ◌+◌, ◌≡◌, refl, ap, ◌∙◌, arith, true, false, [], ◌∷◌, none, some,
}
use tinkoff_invest_sdkv.Awaitable.{
  Heap, resume_frame, final_suspend, step_control, Script, Frame, finishing, done, Machine, cell,
  new_frame, write_frame, promised, step, iterate, wait_start, wait_result, sync_wait,
}
use tinkoff_invest_sdkv.Awaitable.Heaps.{cell-write_self, cell-set_ne}
use tinkoff_invest_sdkv.Awaitable.Meaning.{evaluate}
use tinkoff_invest_sdkv.Awaitable.Steps.{
  Leads, here, then, joined, along, at, step_resuming, step_finishing,
}
use tinkoff_invest_sdkv.Awaitable.Refines.{Finishes, run_lem}

module _ {Q R V E : Type 0} (respond : Q → R) where
  Leads-iterate : {m o : Machine Q R V E} → Leads respond m o → (n : ℕ) × (iterate respond n m ≡ o)
  unfolding iterate
  Leads-iterate here = (0, refl)
  Leads-iterate (then p) = let (n, e) = Leads-iterate p in (suc n, e)

  iterate_done : (n : ℕ) (m : Machine Q R V E) → m.control ≡ done → iterate respond n m ≡ m
  unfolding iterate
  iterate_done zero m e = refl
  iterate_done (suc n) m e =
      let still : step respond m ≡ m =
        unfold step in (ap (step_control respond m) e ∙ unfold step_control in refl) in
      ap (iterate respond n) still ∙ iterate_done n m e

  iterate_add :
      (n k : ℕ) (m : Machine Q R V E)
      → iterate respond (n + k) m ≡ iterate respond k (iterate respond n m)
  unfolding iterate
  iterate_add zero k m = let e : 0 + k ≡ k = omega arith in ap (λ x. iterate respond x m) e
  iterate_add (suc n) k m =
      let e : suc n + k ≡ suc (n + k) = omega arith in
      ap (λ x. iterate respond x m) e ∙ iterate_add n k (step respond m)

  -- The state that `sync_wait` ends in.
  completed :
      (s : Script Q R V E)
      → Finishes respond (wait_start s).heap [] 0 0 (record (new_frame s) { on_complete = true }) s
      → (h : Heap Q R V E) × (f : Frame Q R V E) × Leads respond
          (wait_start s)
          (at h (evaluate respond s).1 1 done)
        × (cell h 0 ≡ some f)
        × (promised f ≡ some (evaluate respond s).0)
        × ((j : ℕ) → cell h (suc j) ≡ none)
  completed s d =
      let g = record d.frame { on_complete = false } in
      let h = write_frame d.heap 0 g in
      let first = record (new_frame s) { on_complete = true } in
      let last : step respond (at d.heap (evaluate respond s).1 0 (finishing 0))
          ≡ at h (evaluate respond s).1 1 done =
        step_finishing respond d.heap (evaluate respond s).1 0 0 d.frame d.stored
        ∙ unfold final_suspend in (rw (d.continuation, d.on_complete) refl) in
      (
        h,
        g,
        along (step_resuming respond (some first ∷ []) [] 0 0 first (unfold cell in refl))
            (unfold resume_frame in (joined d.leads (along last here))),
        cell-write_self d.heap 0 d.frame g d.stored,
        unfold promised in d.holds,
        λ j.
            unfold write_frame in
            (cell-set_ne d.heap 0 (suc j) (some g) (λ e. cc))
            ∙ d.others (suc j) (λ e. cc)
            ∙ unfold cell in refl,
      )

-- `sync_wait` of any task comes to its end, whatever the calls come to: from some number of steps on it
-- returns the value, or rethrows the exception, that the task means. The requests are then made in
-- the order of the task, the semaphore has been released just once, no undefined behaviour was met,
-- and every frame but that of the task itself has been destroyed.
pub sync_wait-evaluate :
    {Q R V E : Type 0} (respond : Q → R) (s : Script Q R V E)
    → (n : ℕ) × ((more : ℕ) → sync_wait respond (n + more) s ≡ some (evaluate respond s).0)
      × (let m = iterate respond n (wait_start s) in
          (m.control ≡ done)
          × (m.released ≡ 1)
          × (m.requests ≡ (evaluate respond s).1)
          × ((j : ℕ) → cell m.heap (suc j) ≡ none))
unfolding sync_wait wait_result
sync_wait-evaluate respond s =
    let first = record (new_frame s) { on_complete = true } in
    let d = run_lem respond s (wait_start s).heap [] 0 0 first (unfold cell in refl) refl refl in
    let (h, f, leads, stored, holds, dead) = completed respond s d in
    let (n, e) = Leads-iterate respond leads in
    let over : Machine _ _ _ _ = at h (evaluate respond s).1 1 done in
    let result : wait_result over ≡ some (evaluate respond s).0 = rw (stored, wait_result) holds in
    (
      n,
      λ more.
          ap wait_result (
            iterate_add respond n more (wait_start s)
            ∙ ap (iterate respond more) e
            ∙ iterate_done respond more over refl)
          ∙ result,
      rw e (refl, refl, refl, dead),
    )
