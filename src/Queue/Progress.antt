-- ===== src/Queue/Progress.antt =====
-- The count of QueuedRequestController.ts, and that no call waits for nothing.
use fork_metamask_core.Common.{
  ℕ, ◌≤◌, ◌≡◌, refl, subst, Bool, true, false, Option, none, some, List, [], ◌∷◌, arith, ◌⊎◌, inl,
  inr, if◌then◌else◌, count, nat_eq, Option-cases,
}
use fork_metamask_core.Common.Assoc.{Assoc, values, get-set, count-set, count-set_absent}
use fork_metamask_core.Common.Assoc
use fork_metamask_core.Queue.Controller.{
  Phase, waiting, running, done, failed, aborted, State, init, start_request, enqueue_request,
  Event, enqueues, ends, resumes, ended, promise, resumed, end_phase, resume_phase, step, run,
  resolved, rejected, pending, Promise,
}

abbrev pub is_counted : Phase → Bool
is_counted done = false
is_counted failed = false
is_counted _ = true

abbrev pub is_aborted : Phase → Bool
is_aborted aborted = true
is_aborted _ = false

abbrev pub is_started : Option Phase → Bool
is_started (some running) = true
is_started (some done) = true
is_started (some failed) = true
is_started _ = false

pub record IsOrderly (s : State) : Type 0 where
  pub fresh : (c : ℕ) → s.next ≤ c → Assoc.get c s.calls ≡ none
  pub counted : s.count ≡ count is_counted (values s.calls)
  pub started : (c : ℕ) → s.current ≡ some c → is_started (Assoc.get c s.calls) ≡ true
  pub awaited :
      (c p : ℕ)
      → Assoc.get c s.calls ≡ some (waiting (some p))
      → is_started (Assoc.get p s.calls) ≡ true

pub init-IsOrderly : IsOrderly init
unfolding Assoc.get
init-IsOrderly = record {
  fresh = λ c h. refl;
  counted = refl;
  started = λ c e. absurd (ground arith);
  awaited = λ c p e. absurd (ground arith);
}

module _ (s : State) (v : IsOrderly s) where
  new_call : Assoc.get s.next s.calls ≡ none
  new_call = v.fresh s.next (omega arith)

  enqueue_request-IsOrderly : IsOrderly (enqueue_request s)
  unfolding enqueue_request
  enqueue_request-IsOrderly = record {
    fresh = λ c h. ground (
      arith,
      v.fresh c,
      get-set s.next c (waiting s.current) s.calls,
      get-set s.next c running s.calls,
    );
    counted = ground (
      arith,
      v.counted,
      count-set_absent is_counted s.next (waiting s.current) s.calls new_call,
      count-set_absent is_counted s.next running s.calls new_call,
    );
    started = λ c h. ground (
      arith,
      new_call,
      v.started c,
      get-set s.next c (waiting s.current) s.calls,
      get-set s.next c running s.calls,
    );
    awaited = λ c p h. ground (
      arith,
      new_call,
      v.started p,
      v.awaited c p,
      get-set s.next c (waiting s.current) s.calls,
      get-set s.next c running s.calls,
      get-set s.next p (waiting s.current) s.calls,
      get-set s.next p running s.calls,
    );
  }

  module _ (k : ℕ) where
    ended-IsOrderly :
        (fine : Bool) → Assoc.get k s.calls ≡ some running → IsOrderly (ended k fine s)
    ended-IsOrderly fine e =
        let w = if fine then done else failed in
        record {
          fresh = λ c h. ground (arith, v.fresh c, e, get-set k c w s.calls);
          counted = ground (arith, v.counted, count-set is_counted k running w s.calls e);
          started = λ c h. ground (arith, e, v.started c, get-set k c w s.calls);
          awaited = λ c p h.
              ground (arith, e, v.awaited c p, get-set k c w s.calls, get-set k p w s.calls);
        }

    start_request-IsOrderly :
        (o : Option ℕ) → Assoc.get k s.calls ≡ some (waiting o) → IsOrderly (start_request k s)
    unfolding start_request
    start_request-IsOrderly o e = record {
      fresh = λ c h. ground (arith, v.fresh c, e, get-set k c running s.calls);
      counted = ground (arith, v.counted, count-set is_counted k (waiting o) running s.calls e);
      started = λ c h. ground (arith, e, v.started c, get-set k c running s.calls);
      awaited = λ c p h.
          ground
            (arith, e, v.awaited c p, get-set k c running s.calls, get-set k p running s.calls);
    }

    aborted-IsOrderly :
        (o : Option ℕ)
        → Assoc.get k s.calls ≡ some (waiting o)
        → IsOrderly (record s { calls = Assoc.set k aborted s.calls })
    aborted-IsOrderly o e = record {
      fresh = λ c h. ground (arith, v.fresh c, e, get-set k c aborted s.calls);
      counted = ground (arith, v.counted, count-set is_counted k (waiting o) aborted s.calls e);
      started = λ c h. ground (arith, e, v.started c, get-set k c aborted s.calls);
      awaited = λ c p h.
          ground
            (arith, e, v.awaited c p, get-set k c aborted s.calls, get-set k p aborted s.calls);
    }

-- What holds of the state after an event that can happen.
abbrev After : (State → Type 0) → Option State → Type 0
After P none = Unit
After P (some t) = P t

end_phase-IsOrderly :
    (k : ℕ) (fine : Bool) (o : Option Phase) (s : State)
    → IsOrderly s
    → Assoc.get k s.calls ≡ o
    → After IsOrderly (end_phase k fine o s)
end_phase-IsOrderly k fine (some running) s v e = ended-IsOrderly s v k fine e
end_phase-IsOrderly k fine (some (waiting p)) s v e = tt
end_phase-IsOrderly k fine (some done) s v e = tt
end_phase-IsOrderly k fine (some failed) s v e = tt
end_phase-IsOrderly k fine (some aborted) s v e = tt
end_phase-IsOrderly k fine none s v e = tt

resumed-IsOrderly :
    (k : ℕ) (r : Promise) (p : Option ℕ) (s : State)
    → IsOrderly s
    → Assoc.get k s.calls ≡ some (waiting p)
    → After IsOrderly (resumed k r s)
resumed-IsOrderly k pending p s v e = tt
resumed-IsOrderly k resolved p s v e = start_request-IsOrderly s v k p e
resumed-IsOrderly k rejected p s v e = aborted-IsOrderly s v k p e

resume_phase-IsOrderly :
    (k : ℕ) (o : Option Phase) (s : State)
    → IsOrderly s
    → Assoc.get k s.calls ≡ o
    → After IsOrderly (resume_phase k o s)
resume_phase-IsOrderly k (some (waiting p)) s v e = resumed-IsOrderly k (promise p s) p s v e
resume_phase-IsOrderly k (some running) s v e = tt
resume_phase-IsOrderly k (some done) s v e = tt
resume_phase-IsOrderly k (some failed) s v e = tt
resume_phase-IsOrderly k (some aborted) s v e = tt
resume_phase-IsOrderly k none s v e = tt

step_keeps : (e : Event) (s : State) → IsOrderly s → After IsOrderly (step e s)
unfolding step
step_keeps enqueues s v = enqueue_request-IsOrderly s v
step_keeps (ends k fine) s v = end_phase-IsOrderly k fine (Assoc.get k s.calls) s v refl
step_keeps (resumes k) s v = resume_phase-IsOrderly k (Assoc.get k s.calls) s v refl

pub step-IsOrderly : (e : Event) (s t : State) → IsOrderly s → step e s ≡ some t → IsOrderly t
step-IsOrderly e s t v n = subst (After IsOrderly) n (step_keeps e s v)

-- Any events lead from a valid state to a valid state: the count is the number of the calls that wait,
-- run or were aborted, and the calls that are awaited have started.
pub run-IsOrderly : (es : List Event) (s t : State) → IsOrderly s → run es s ≡ some t → IsOrderly t
unfolding run
run-IsOrderly [] s t v h = subst IsOrderly (ground arith) v
run-IsOrderly (e ∷ es) s t v h = elim (Option-cases (step e s)) [
  | inl n ↦ absurd (ground (arith, n))
  | inr (u, n) ↦ run-IsOrderly es u t (step-IsOrderly e s u v n) (ground (arith, n))
]

-- A request runs, or the call can go on.
abbrev pub HasNext : ℕ → State → Type 0
HasNext k s =
    ((c : ℕ) × (Assoc.get c s.calls ≡ some running)) ⊎ ((t : State) × (step (resumes k) s ≡ some t))

phase-HasNext :
    (s : State) (k c : ℕ) (o : Option Phase)
    → Assoc.get k s.calls ≡ some (waiting (some c))
    → Assoc.get c s.calls ≡ o
    → is_started o ≡ true
    → HasNext k s
unfolding step
phase-HasNext s k c (some running) e f h = inl (c, f)
phase-HasNext s k c (some done) e f h = inr (start_request k s, ground (arith, e, f))
phase-HasNext s k c (some failed) e f h =
    inr (record s { calls = Assoc.set k aborted s.calls }, ground (arith, e, f))
phase-HasNext s k c (some (waiting p)) e f h = absurd (ground (arith, h))
phase-HasNext s k c (some aborted) e f h = absurd (ground (arith, h))
phase-HasNext s k c none e f h = absurd (ground (arith, h))

-- In a valid state, where a call waits, either a request runs, which its caller ends, or the call can
-- go on at once.
pub waiting-HasNext :
    (s : State) (k : ℕ) (p : Option ℕ)
    → IsOrderly s
    → Assoc.get k s.calls ≡ some (waiting p)
    → HasNext k s
unfolding step
waiting-HasNext s k none v e = inr (start_request k s, ground (arith, e))
waiting-HasNext s k (some c) v e =
    phase-HasNext s k c (Assoc.get c s.calls) e refl (v.awaited k c e)
