-- ===== src/Queue/Tests.antt =====
-- The theorems on QueuedRequestController.ts at concrete inputs.
use fork_metamask_core.Common.{◌≡◌, ◌≢◌, refl, true, false, some, [], ◌∷◌, nat_eq, arith}
use fork_metamask_core.Common.Assoc
use fork_metamask_core.Queue.Controller.{
  waiting, running, aborted, failed, State, init, enqueues, ends, resumes, run, enqueue_request,
  step, start_request,
}
use fork_metamask_core.Queue.Progress.{IsOrderly, run-IsOrderly, init-IsOrderly}
use fork_metamask_core.Queue.Overlap.{IsStuck, run-overlap, run-stuck}

-- A request that runs and two calls that wait for it.
abbrev three : State
three = record {
  count = 3;
  current = some 0;
  calls = (0, running) ∷ (1, waiting (some 0)) ∷ (2, waiting (some 0)) ∷ [];
  next = 3;
  published = 3 ∷ 2 ∷ 1 ∷ [];
}

three_reached : run (enqueues ∷ enqueues ∷ enqueues ∷ []) init ≡ some three
unfolding run step enqueue_request start_request Assoc.set
three_reached = refl

-- The request failed while a call waited for it.
abbrev stuck : State
stuck = record {
  count = 1;
  current = some 0;
  calls = (0, failed) ∷ (1, waiting (some 0)) ∷ [];
  next = 2;
  published = 1 ∷ 2 ∷ 1 ∷ [];
}

stuck_reached : run (enqueues ∷ enqueues ∷ ends 0 false ∷ []) init ≡ some stuck
unfolding run step enqueue_request start_request Assoc.set Assoc.get
stuck_reached = refl

stuck-IsStuck : IsStuck stuck
unfolding Assoc.get
stuck-IsStuck = record {
  idle = λ k. ground arith;
  waits_in_vain = λ k p h. ground (arith, h);
  counted = omega arith;
  rejected_current = refl;
}

-- A call that came after the failure, and the one that was left over, which was aborted.
abbrev after_more : State
after_more = record {
  count = 2;
  current = some 0;
  calls = (0, failed) ∷ (1, aborted) ∷ (2, waiting (some 0)) ∷ [];
  next = 3;
  published = 2 ∷ 1 ∷ 2 ∷ 1 ∷ [];
}

more_reached : run (enqueues ∷ resumes 1 ∷ []) stuck ≡ some after_more
unfolding run step enqueue_request start_request Assoc.set Assoc.get
more_reached = refl

run-IsOrderly_example : IsOrderly three
run-IsOrderly_example =
    run-IsOrderly (enqueues ∷ enqueues ∷ enqueues ∷ []) init three init-IsOrderly three_reached

run-overlap_example :
    (t : State) × (run (ends 0 true ∷ resumes 1 ∷ resumes 2 ∷ []) three ≡ some t)
    × (Assoc.get 1 t.calls ≡ some running)
    × (Assoc.get 2 t.calls ≡ some running)
unfolding Assoc.get
run-overlap_example =
    run-overlap three 0 1 2 (omega arith) (omega arith) (omega arith) refl refl refl

run-stuck_example : Assoc.get 2 after_more.calls ≢ some running
run-stuck_example =
    run-stuck (enqueues ∷ resumes 1 ∷ []) stuck after_more 2
      (run-IsOrderly (enqueues ∷ enqueues ∷ ends 0 false ∷ []) init stuck init-IsOrderly
        stuck_reached)
      stuck-IsStuck more_reached
