-- ===== src/Awaitable.antt =====
-- The coroutines of include/tinvest/awaitable.hpp: `Task`, its promise, `UnaryAwaiter` and `sync_wait`,
-- as a machine on a heap of coroutine frames. A handle is an index of the heap; a frame that was
-- destroyed is `none`. What a coroutine computes between two suspensions is a `Script`.
pub mod Meaning
pub mod Heaps
pub mod Steps
pub mod Refines
pub mod Waiting
pub mod Ownership
mod Examples
use tinkoff_invest_sdkv.Prelude.{
  ℕ, zero, suc, ◌+◌, Bool, true, false, if◌then◌else◌, List, [], ◌∷◌, ◌++◌, Option, none, some,
  length, get_elem?, set,
}

-- How a task ends: with a value, or with an exception that was not caught.
pub data Ended (V E : Type 0) : Type 0 where
  returned : V → Ended V E
  raised : E → Ended V E

-- The rest of a coroutine: it returns, throws, awaits a unary call and goes on with the result, or
-- awaits another task and goes on with how that ended, which `await_resume` returns or rethrows.
pub data Script (Q R V E : Type 0) : Type 0 where
  returns : V → Script Q R V E
  throws : E → Script Q R V E
  calls : Q → (R → Script Q R V E) → Script Q R V E
  awaits : Script Q R V E → (Ended V E → Script Q R V E) → Script Q R V E

-- Where a frame is suspended.
pub data Suspended (Q R V E : Type 0) : Type 0 where
  at_start : Script Q R V E → Suspended Q R V E
  at_call : (R → Script Q R V E) → Suspended Q R V E
  at_child : ℕ → (Ended V E → Script Q R V E) → Suspended Q R V E
  at_final : Suspended Q R V E

-- A coroutine frame with its `promise_type`; `on_complete` says whether the callback is set.
pub record Frame (Q R V E : Type 0) : Type 0 where
  pub value : Option V
  pub exception : Option E
  pub continuation : Option ℕ
  pub on_complete : Bool
  pub suspended : Suspended Q R V E

abbrev pub Heap : Type 0 → Type 0 → Type 0 → Type 0 → Type 0
Heap Q R V E = List (Option (Frame Q R V E))

-- What the thread does next: it runs a frame, resumes a handle, has started a call whose callback
-- resumes a handle, is at the final suspension of a frame, or is done; `stuck` is undefined behaviour.
pub data Control (Q R V E : Type 0) : Type 0 where
  running : ℕ → Script Q R V E → Control Q R V E
  resuming : ℕ → Control Q R V E
  calling : ℕ → Q → Control Q R V E
  finishing : ℕ → Control Q R V E
  done stuck : Control Q R V E

-- `released` counts the releases of the semaphore of `sync_wait`.
pub record Machine (Q R V E : Type 0) : Type 0 where
  pub heap : Heap Q R V E
  pub requests : List Q
  pub released : ℕ
  pub control : Control Q R V E

module _ {Q R V E : Type 0} where
  -- The frame of a handle, if it is alive.
  unfoldable pub cell : Heap Q R V E → ℕ → Option (Frame Q R V E)
  cell h i = elim (get_elem? h i) [ none ↦ none | some f ↦ f ]

  -- A new coroutine: it is suspended at its start.
  abbrev pub new_frame : Script Q R V E → Frame Q R V E
  new_frame s = record {
    value = none;
    exception = none;
    continuation = none;
    on_complete = false;
    suspended = at_start s;
  }

  unfoldable pub write_frame : Heap Q R V E → ℕ → Frame Q R V E → Heap Q R V E
  write_frame h i f = set h i (some f)

  unfoldable pub destroy : Heap Q R V E → ℕ → Heap Q R V E
  destroy h i = set h i none

  abbrev pub stop_here : Machine Q R V E → Machine Q R V E
  stop_here m = record m { control = stuck }

  -- `return_value` and `unhandled_exception`, and then the final suspension.
  unfoldable pub end_frame : Machine Q R V E → ℕ → Ended V E → Frame Q R V E → Machine Q R V E
  end_frame m i (returned v) f = record m {
    heap = write_frame m.heap i (record f { value = some v; suspended = at_final });
    control = finishing i;
  }
  end_frame m i (raised e) f = record m {
    heap = write_frame m.heap i (record f { exception = some e; suspended = at_final });
    control = finishing i;
  }

  -- `UnaryAwaiter::await_suspend`: the call is started.
  unfoldable pub suspend_call :
      Machine Q R V E → ℕ → Q → (R → Script Q R V E) → Frame Q R V E → Machine Q R V E
  suspend_call m i q k f = record m {
    heap = write_frame m.heap i (record f { suspended = at_call k });
    requests = m.requests ++ q ∷ [];
    control = calling i q;
  }

  -- `operator co_await` of a task: the child's frame is made, its continuation is the awaiting frame,
  -- and control goes over to the child.
  unfoldable pub await_child :
      Machine Q R V E
      → ℕ
      → Script Q R V E
      → (Ended V E → Script Q R V E)
      → Frame Q R V E
      → Machine Q R V E
  await_child m i c k f =
      let j = length m.heap in
      record m {
        heap =
            write_frame m.heap i (record f { suspended = at_child j k })
            ++ some (record (new_frame c) { continuation = some i }) ∷ [];
        control = resuming j;
      }

  unfoldable pub run_script : Machine Q R V E → ℕ → Script Q R V E → Frame Q R V E → Machine Q R V E
  run_script m i (returns v) f = end_frame m i (returned v) f
  run_script m i (throws e) f = end_frame m i (raised e) f
  run_script m i (calls q k) f = suspend_call m i q k f
  run_script m i (awaits c k) f = await_child m i c k f

  -- What a promise holds: an exception comes before a value, and with neither the result is undefined.
  unfoldable pub promised : Frame Q R V E → Option (Ended V E)
  promised f = elim f.exception [
    | some e ↦ some (raised e)
    | none ↦ elim f.value [ some v ↦ some (returned v) | none ↦ none ]
  ]

  -- `await_resume` of a task, and the end of the task object, which destroys the child.
  unfoldable pub resume_parent :
      Machine Q R V E
      → ℕ
      → ℕ
      → (Ended V E → Script Q R V E)
      → Option (Frame Q R V E)
      → Machine Q R V E
  resume_parent m i j k none = stop_here m
  resume_parent m i j k (some f) = elim (promised f) [
    | none ↦ stop_here m
    | some e ↦ record m { heap = destroy m.heap j; control = running i (k e) }
  ]

  -- `resume()` of a handle that waits for no call.
  unfoldable pub resume_frame : Machine Q R V E → ℕ → Suspended Q R V E → Machine Q R V E
  resume_frame m i (at_start s) = record m { control = running i s }
  resume_frame m i (at_child j k) = resume_parent m i j k (cell m.heap j)
  resume_frame m i (at_call k) = stop_here m
  resume_frame m i at_final = stop_here m

  -- The callback of `UnaryAwaiter`: the result is stored, the coroutine resumed, and `await_resume`
  -- hands the result over.
  unfoldable pub answer : Machine Q R V E → ℕ → R → Suspended Q R V E → Machine Q R V E
  answer m i r (at_call k) = record m { control = running i (k r) }
  answer m i r (at_start s) = stop_here m
  answer m i r (at_child j k) = stop_here m
  answer m i r at_final = stop_here m

  -- `FinalAwaiter::await_suspend`.
  unfoldable pub final_suspend : Machine Q R V E → ℕ → Frame Q R V E → Machine Q R V E
  final_suspend m i f = elim f.continuation [
    | some p ↦ record m { control = resuming p }
    | none ↦
        if f.on_complete
        then record m {
          heap = write_frame m.heap i (record f { on_complete = false });
          released = m.released + 1;
          control = done;
        }
        else record m { control = done }
  ]

  -- With the frame of a handle; a dead one is undefined behaviour.
  unfoldable pub with_frame :
      Machine Q R V E → Option (Frame Q R V E) → (Frame Q R V E → Machine Q R V E) → Machine Q R V E
  with_frame m none go = stop_here m
  with_frame m (some f) go = go f

  -- One step, given what the calls come to.
  unfoldable pub step_control : (Q → R) → Machine Q R V E → Control Q R V E → Machine Q R V E
  step_control respond m (running i s) = with_frame m (cell m.heap i) (λ f. run_script m i s f)
  step_control respond m (resuming i) =
      with_frame m (cell m.heap i) (λ f. resume_frame m i f.suspended)
  step_control respond m (calling i q) =
      with_frame m (cell m.heap i) (λ f. answer m i (respond q) f.suspended)
  step_control respond m (finishing i) = with_frame m (cell m.heap i) (λ f. final_suspend m i f)
  step_control respond m done = m
  step_control respond m stuck = m

  unfoldable pub step : (Q → R) → Machine Q R V E → Machine Q R V E
  step respond m = step_control respond m m.control

  unfoldable pub iterate : (Q → R) → ℕ → Machine Q R V E → Machine Q R V E
  iterate respond zero m = m
  iterate respond (suc n) m = iterate respond n (step respond m)

  -- The start of `sync_wait` on a task: its callback is set and it is resumed.
  abbrev pub wait_start : Script Q R V E → Machine Q R V E
  wait_start s = record {
    heap = some (record (new_frame s) { on_complete = true }) ∷ [];
    requests = [];
    released = 0;
    control = resuming 0;
  }

  -- What `sync_wait` returns or rethrows once the semaphore is released; `none` while it blocks.
  unfoldable pub wait_result : Machine Q R V E → Option (Ended V E)
  wait_result m = elim m.released [
    | zero ↦ none
    | suc n ↦ elim (cell m.heap 0) [ none ↦ none | some f ↦ promised f ]
  ]

  unfoldable pub sync_wait : (Q → R) → ℕ → Script Q R V E → Option (Ended V E)
  sync_wait respond n s = wait_result (iterate respond n (wait_start s))
