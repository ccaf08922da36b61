-- ===== src/Queue/Overlap.antt =====
-- What QueuedRequestController.ts does with three calls at once, and after a request that fails.
use fork_metamask_core.Common.{
  ℕ, suc, ◌≤◌, ◌≡◌, ◌≢◌, refl, sym, ap, ◌∙◌, subst, Bool, true, Option, none, some, List, [], ◌∷◌,
  arith, inl, inr, eqb, eqb_iff, nat_eq, Option-cases, Bool-cases,
}
use fork_metamask_core.Common.Assoc.{Assoc, values, get-set, count-set, count-set_absent}
use fork_metamask_core.Common.Assoc
use fork_metamask_core.Queue.Controller.{
  Phase, waiting, running, done, failed, aborted, State, raise_count, start_request,
  enqueue_request, Event, enqueues, ends, resumes, ended, promise, end_phase, resume_phase, step,
  run, rejected, promise_of,
}
use fork_metamask_core.Queue.Progress.{IsOrderly, step-IsOrderly}

-- Two calls that wait for one request both run when it ends: requests are not run one at a time.
pub run-overlap :
    (s : State) (c j k : ℕ)
    → j ≢ k
    → c ≢ j
    → c ≢ k
    → Assoc.get c s.calls ≡ some running
    → Assoc.get j s.calls ≡ some (waiting (some c))
    → Assoc.get k s.calls ≡ some (waiting (some c))
    → (t : State) × (run (ends c true ∷ resumes j ∷ resumes k ∷ []) s ≡ some t)
      × (Assoc.get j t.calls ≡ some running)
      × (Assoc.get k t.calls ≡ some running)
unfolding run step start_request
run-overlap s c j k jk cj ck hc hj hk =
    let s1 = ended c true s in
    let s2 = start_request j s1 in
    let s3 = start_request k s2 in
    (
      s3,
      ground (
        arith,
        hc,
        hj,
        hk,
        jk,
        cj,
        ck,
        get-set c j done s.calls,
        get-set c k done s.calls,
        get-set c c done s.calls,
        get-set j k running s1.calls,
        get-set j c running s1.calls,
      ),
      ground (arith, jk, get-set k j running s2.calls, get-set j j running s1.calls),
      ground (arith, get-set k k running s2.calls),
    )

-- After a failure with a call left over: no request runs, the current promise is rejected, and the
-- count is not zero.
pub record IsStuck (s : State) : Type 0 where
  pub idle : (k : ℕ) → Assoc.get k s.calls ≢ some running
  pub waits_in_vain :
      (k : ℕ) (p : Option ℕ) → Assoc.get k s.calls ≡ some (waiting p) → promise p s ≡ rejected
  pub counted : 1 ≤ s.count
  pub rejected_current : promise s.current s ≡ rejected

-- A rejected promise stays rejected when a call is written that was not at its end.
rejected_phase :
    (m : Assoc ℕ Phase) (k c : ℕ) (w x : Phase) (o : Option Phase)
    → Assoc.get k m ≡ o
    → o ≢ some failed
    → Assoc.get c m ≡ some x
    → promise_of (some x) ≡ rejected
    → promise_of (Assoc.get c (Assoc.set k w m)) ≡ rejected
rejected_phase m k c w failed o e h f r = elim (Bool-cases (eqb k c)) [
  | inl same ↦ absurd (h (sym e ∙ ap (λ i. Assoc.get i m) ((eqb_iff k c).0 same) ∙ f))
  | inr other ↦ ground (arith, f, other, get-set k c w m)
]
rejected_phase m k c w (waiting q) o e h f r = absurd (ground (arith, r))
rejected_phase m k c w running o e h f r = absurd (ground (arith, r))
rejected_phase m k c w done o e h f r = absurd (ground (arith, r))
rejected_phase m k c w aborted o e h f r = absurd (ground (arith, r))

rejected_kept :
    (s t : State) (k : ℕ) (w : Phase) (o : Option Phase) (p : Option ℕ)
    → t.calls ≡ Assoc.set k w s.calls
    → Assoc.get k s.calls ≡ o
    → o ≢ some failed
    → promise p s ≡ rejected
    → promise p t ≡ rejected
rejected_kept s t k w o none written e h r = absurd (ground (arith, r))
rejected_kept s t k w o (some c) written e h r = elim (Option-cases (Assoc.get c s.calls)) [
  | inl f ↦ absurd (ground (arith, f, r))
  | inr (x, f) ↦
      ap (λ m. promise_of (Assoc.get c m)) written
      ∙ rejected_phase s.calls k c w x o e h f (ground (arith, f, r))
]

module _ (s : State) (v : IsOrderly s) (stuck : IsStuck s) where
  queued : State
  queued = record (raise_count s) {
    next = suc s.next;
    calls = Assoc.set s.next (waiting s.current) s.calls;
  }

  enqueued : enqueue_request s ≡ queued
  unfolding enqueue_request queued
  enqueued = ground (arith, stuck.counted)

  new_call : Assoc.get s.next s.calls ≡ none
  new_call = v.fresh s.next (omega arith)

  queued-IsStuck : IsStuck queued
  unfolding queued
  queued-IsStuck =
      let kept = λ (p : Option ℕ).
        rejected_kept s queued s.next (waiting s.current) none p refl new_call (λ e. cc) in
      record {
        idle = λ k h. ground (arith, stuck.idle k, h, get-set s.next k (waiting s.current) s.calls);
        waits_in_vain = λ k p h. elim (Bool-cases (eqb s.next k)) [
          | inl same ↦
              let same_promise : s.current ≡ p =
                ground (arith, same, h, get-set s.next k (waiting s.current) s.calls) in
              kept p (subst (λ q. promise q s ≡ rejected) same_promise stuck.rejected_current)
          | inr other ↦ kept p (
              stuck.waits_in_vain k p
                (ground (arith, other, h, get-set s.next k (waiting s.current) s.calls)))
        ];
        counted = omega (arith, stuck.counted);
        rejected_current = kept s.current stuck.rejected_current;
      }

  module _ (j : ℕ) (q : Option ℕ) (e : Assoc.get j s.calls ≡ some (waiting q)) where
    aborted-IsStuck : IsStuck (record s { calls = Assoc.set j aborted s.calls })
    aborted-IsStuck =
        let t = record s { calls = Assoc.set j aborted s.calls } in
        let kept =
          λ (p : Option ℕ). rejected_kept s t j aborted (some (waiting q)) p refl e (λ f. cc) in
        record {
          idle = λ k h. ground (arith, stuck.idle k, h, get-set j k aborted s.calls);
          waits_in_vain = λ k p h.
              kept p (stuck.waits_in_vain k p (ground (arith, h, get-set j k aborted s.calls)));
          counted = stuck.counted;
          rejected_current = kept s.current stuck.rejected_current;
        }

    -- The only way on for a call that waits is to be aborted.
    resume_stuck : step (resumes j) s ≡ some (record s { calls = Assoc.set j aborted s.calls })
    unfolding step
    resume_stuck = ground (arith, e, stuck.waits_in_vain j q e)

abbrev After : Option State → Type 0
After none = Unit
After (some t) = IsStuck t

resume_phase-IsStuck :
    (s : State) (v : IsOrderly s) (stuck : IsStuck s) (k : ℕ) (o : Option Phase)
    → Assoc.get k s.calls ≡ o
    → After (step (resumes k) s)
unfolding step
resume_phase-IsStuck s v stuck k (some (waiting q)) e =
    subst After (sym (resume_stuck s v stuck k q e)) (aborted-IsStuck s v stuck k q e)
resume_phase-IsStuck s v stuck k (some running) e = rw (e, resume_phase) tt
resume_phase-IsStuck s v stuck k (some done) e = rw (e, resume_phase) tt
resume_phase-IsStuck s v stuck k (some failed) e = rw (e, resume_phase) tt
resume_phase-IsStuck s v stuck k (some aborted) e = rw (e, resume_phase) tt
resume_phase-IsStuck s v stuck k none e = rw (e, resume_phase) tt

end_stuck :
    (s : State) (stuck : IsStuck s) (k : ℕ) (fine : Bool) (o : Option Phase)
    → Assoc.get k s.calls ≡ o
    → end_phase k fine o s ≡ none
end_stuck s stuck k fine (some running) e = absurd (stuck.idle k e)
end_stuck s stuck k fine (some (waiting q)) e = refl
end_stuck s stuck k fine (some done) e = refl
end_stuck s stuck k fine (some failed) e = refl
end_stuck s stuck k fine (some aborted) e = refl
end_stuck s stuck k fine none e = refl

step-IsStuck : (e : Event) (s : State) → IsOrderly s → IsStuck s → After (step e s)
unfolding step
step-IsStuck enqueues s v stuck =
    subst IsStuck (sym (enqueued s v stuck)) (queued-IsStuck s v stuck)
step-IsStuck (ends k fine) s v stuck =
    subst After (sym (end_stuck s stuck k fine (Assoc.get k s.calls) refl)) tt
step-IsStuck (resumes k) s v stuck = resume_phase-IsStuck s v stuck k (Assoc.get k s.calls) refl

-- Where no request runs, the current promise is rejected, every call that waits awaits a rejected
-- promise and the count is not zero, no request runs ever again, whatever is enqueued.
pub run-stuck :
    (es : List Event) (s t : State) (k : ℕ)
    → IsOrderly s
    → IsStuck s
    → run es s ≡ some t
    → Assoc.get k t.calls ≢ some running
unfolding run
run-stuck [] s t k v stuck h =
    let same : s ≡ t = ground (arith, h) in (subst IsStuck same stuck).idle k
run-stuck (e ∷ es) s t k v stuck h = elim (Option-cases (step e s)) [
  | inl n ↦ absurd (ground (arith, n))
  | inr (u, n) ↦
      run-stuck es u t k (step-IsOrderly e s u v n) (subst After n (step-IsStuck e s v stuck))
        (ground (arith, n))
]
