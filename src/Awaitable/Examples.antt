-- ===== src/Awaitable/Examples.antt =====
-- A run of include/tinvest/awaitable.hpp: a task that awaits a call and a task of its own.
use tinkoff_invest_sdkv.Prelude.{
  ℕ, suc, arith, ◌<◌, ◌≤◌, ◌⊎◌, ◌+◌, ◌*◌, ◌≡◌, refl, [], ◌∷◌, none, some,
}
use tinkoff_invest_sdkv.Awaitable.{
  Ended, returned, raised, Script, returns, throws, calls, awaits, cell, done, iterate, wait_start,
  sync_wait, answer, await_child, end_frame, final_suspend, resume_frame, resume_parent, run_script,
  step, step_control, suspend_call, wait_result, with_frame, write_frame, destroy, promised,
}
use tinkoff_invest_sdkv.Awaitable.Meaning.{evaluate}
use tinkoff_invest_sdkv.Awaitable.Ownership.{
  Tasks, created, move_assigned, destroyed_with, handle_at, Reach, here, next, creates, assigns,
  owners, destructions, no_tasks, Reach-owners,
}
use tinkoff_invest_sdkv.Awaitable.Waiting.{sync_wait-evaluate}

-- Calls double their request; values and exceptions are numbers.
abbrev doubled : ℕ → ℕ
doubled q = q * 2

-- The child throws what its call comes to.
abbrev child : Script ℕ ℕ ℕ ℕ
child = calls 5 (λ r. throws r)

-- The parent catches it, and makes another call.
abbrev caught : Ended ℕ ℕ → Script ℕ ℕ ℕ ℕ
caught (returned v) = returns v
caught (raised e) = calls e (λ r. returns (r + 1))

abbrev parent : Script ℕ ℕ ℕ ℕ
parent = awaits child caught

sync_wait_run : sync_wait doubled 16 parent ≡ some (returned 21)
unfolding sync_wait wait_result iterate step step_control with_frame cell resume_frame run_script
    await_child write_frame suspend_call answer end_frame final_suspend resume_parent promised
    destroy
sync_wait_run = refl

evaluate_run : evaluate doubled parent ≡ (returned 21, 5 ∷ 10 ∷ [])
unfolding evaluate
evaluate_run = refl

blocking_run : sync_wait doubled 3 parent ≡ none
unfolding sync_wait wait_result iterate step step_control with_frame cell resume_frame run_script
    await_child write_frame
blocking_run = refl

sync_wait-evaluate_example :
    (n : ℕ) × ((more : ℕ) → sync_wait doubled (n + more) parent ≡ some (evaluate doubled parent).0)
    × (let m = iterate doubled n (wait_start parent) in
        (m.control ≡ done)
        × (m.released ≡ 1)
        × (m.requests ≡ (evaluate doubled parent).1)
        × ((j : ℕ) → cell m.heap (suc j) ≡ none))
sync_wait-evaluate_example = sync_wait-evaluate doubled parent

-- Two tasks are made, and the second is assigned to the first, whose frame goes.
abbrev two_tasks : Tasks
two_tasks = created (created no_tasks)

abbrev one_left : Tasks
one_left = move_assigned two_tasks 0 1

one_left_run : one_left.destroyed ≡ 0 ∷ []
unfolding created move_assigned destroyed_with handle_at
one_left_run = refl

reaches_one : Reach no_tasks one_left
unfolding created
reaches_one =
    next (next (next here (creates no_tasks)) (creates (created no_tasks)))
      (assigns two_tasks 0 1 (omega arith) (omega arith))

Reach-owners_example :
    ((owners 0 one_left.objects ≡ 1)
      × (destructions 0 one_left.destroyed ≡ 0)
      × (0 < one_left.frames))
    ⊎ ((owners 0 one_left.objects ≡ 0)
        × (destructions 0 one_left.destroyed ≡ 1)
        × (0 < one_left.frames))
    ⊎ ((owners 0 one_left.objects ≡ 0)
        × (destructions 0 one_left.destroyed ≡ 0)
        × (one_left.frames ≤ 0))
Reach-owners_example = Reach-owners one_left 0 reaches_one
