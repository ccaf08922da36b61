-- ===== src/RateLimit/Quota.antt =====
-- The bound that RateLimitController.ts puts on the calls of an origin.
use text.Mathlib.TextEquality.{eq_iff}
use fork_metamask_core.Common.{
  ℕ, ◌+◌, ◌≤◌, ◌≡◌, refl, sym, subst, String, true, false, Option, none, some, List, [], ◌∷◌, arith,
  inl, inr, if◌then◌else◌, get_or, bit, leb, ltb, string_eq, Bool-cases, Option-cases,
}
use fork_metamask_core.Common.Assoc.{Assoc, get-set}
use fork_metamask_core.Common.Assoc
use fork_metamask_core.Common.Monad.{Result, ok, err}
use fork_metamask_core.Common.Js.{Value}
use fork_metamask_core.RateLimit.Controller.{
  RateLimitedApi, State, Error, init, reaches, is_rate_limited, record_request, call, is_for,
  without_first, fire, reset_request_count, Event, calls, fires, may_fire, step, run, no_requests,
  limit_exceeded, invalid_api_type,
}
use fork_metamask_core.RateLimit.Timers.{
  counted, timers_for, limit_of, count-without_first, counted-with_count, recorded, after_call,
  call-state,
}

-- A limit of 0 admits one call as well.
abbrev pub admitted : ℕ → ℕ
admitted n = if leb 1 n then n else 1

-- An API's counted calls of an origin are within its limit, and a timer runs for them exactly
-- where there are any.
pub record IsLimited (a o : String) (s : State) : Type 0 where
  pub bounded : counted a o s ≤ admitted (limit_of a s)
  pub timed : timers_for a o s ≡ bit (ltb 0 (counted a o s))

counted-no_requests :
    (a : String) (m : Assoc String RateLimitedApi) → get_or (Assoc.get a (no_requests m)) [] ≡ []
unfolding Assoc.get
counted-no_requests a [] = refl
counted-no_requests a ((b, i) ∷ m) = ground (arith, counted-no_requests a m)

module _ (a o : String) where
  init-IsLimited :
      (apis : Assoc String RateLimitedApi) (timeout limit : Option ℕ)
      → IsLimited a o (init apis timeout limit)
  unfolding Assoc.get
  init-IsLimited apis timeout limit = record {
    bounded = ground (arith, counted-no_requests a apis);
    timed = ground (arith, counted-no_requests a apis);
  }

  module _ (s : State) (v : IsLimited a o s) where
    recorded-IsLimited :
        (api origin : String) (i : RateLimitedApi) (m : Assoc String ℕ)
        → Assoc.get api s.implementations ≡ some i
        → Assoc.get api s.requests ≡ some m
        → reaches (Assoc.get origin m) (get_or i.rate_limit_count s.rate_limit_count) ≡ false
        → IsLimited a o (recorded api origin i s)
    recorded-IsLimited api origin i m ei em r =
        let c = counted-with_count api origin (counted api origin s + 1) s a o in
        record {
          bounded = ground (
            arith,
            c,
            v.bounded,
            ei,
            em,
            r,
            eq_iff api a,
            eq_iff origin o,
            Option-cases (Assoc.get origin m),
          );
          timed = ground (arith, c, v.timed, eq_iff api a, eq_iff origin o);
        }

    after_call-IsLimited :
        (api origin : String) (i : Option RateLimitedApi) (m : Option (Assoc String ℕ))
        → Assoc.get api s.implementations ≡ i
        → Assoc.get api s.requests ≡ m
        → IsLimited a o (after_call api origin i m s)
    after_call-IsLimited api origin none m ei em = v
    after_call-IsLimited api origin (some i) none ei em = v
    after_call-IsLimited api origin (some i) (some m) ei em =
        elim (Bool-cases
          (reaches (Assoc.get origin m) (get_or i.rate_limit_count s.rate_limit_count))) [
            | inl y ↦ rw (y) v
            | inr n ↦ rw (n) (recorded-IsLimited api origin i m ei em n)
          ]

    fire-IsLimited :
        (api origin : String) → may_fire api origin s ≡ true → IsLimited a o (fire api origin s)
    unfolding fire reset_request_count
    fire-IsLimited api origin h =
        let rest = without_first (is_for api origin) s.timers in
        let c = counted-with_count api origin 0 (record s { timers = rest }) a o in
        let w = count-without_first a o api origin s.timers h in
        record {
          bounded = ground (arith, c, v.bounded);
          timed = ground (arith, c, w, v.timed, eq_iff api a, eq_iff origin o);
        }

    step-IsLimited : (e : Event) → IsLimited a o (step s e)
    unfolding step
    step-IsLimited (calls origin api args) =
        subst (IsLimited a o) (sym (call-state origin api args s)) (
          after_call-IsLimited api origin (Assoc.get api s.implementations)
            (Assoc.get api s.requests) refl refl)
    step-IsLimited (fires origin api) = elim (Bool-cases (may_fire api origin s)) [
      | inl y ↦ rw (y) (fire-IsLimited api origin y)
      | inr n ↦ rw (n) v
    ]

  run-kept : (es : List Event) (s : State) → IsLimited a o s → IsLimited a o (run s es)
  unfolding run
  run-kept [] s v = v
  run-kept (e ∷ es) s v = run-kept es (step s e) (step-IsLimited s v e)

-- From a new controller and after any calls and expired timers, the calls counted for an API and
-- an origin are at most the limit, or 1 where the limit is 0, and exactly one timer runs for them
-- where there are any, else none.
pub run-IsLimited :
    (apis : Assoc String RateLimitedApi) (timeout limit : Option ℕ) (es : List Event) (a o : String)
    → IsLimited a o (run (init apis timeout limit) es)
run-IsLimited apis timeout limit es a o =
    run-kept a o es (init apis timeout limit) (init-IsLimited a o apis timeout limit)

-- In a state where the counts of an API and an origin are within the limit and timed, a timer
-- that fires for them leaves no count and no timer, whatever was counted.
pub fire-reset :
    (a o : String) (s : State)
    → IsLimited a o s
    → may_fire a o s ≡ true
    → (counted a o (fire a o s) ≡ 0) × (timers_for a o (fire a o s) ≡ 0)
unfolding fire reset_request_count
fire-reset a o s v h =
    let rest = without_first (is_for a o) s.timers in
    let c = counted-with_count a o 0 (record s { timers = rest }) a o in
    (
      ground (arith, c, eq_iff a a, eq_iff o o),
      ground (arith, v.timed, count-without_first a o a o s.timers h, eq_iff a a, eq_iff o o),
    )

-- What a call that is admitted answers.
abbrev pub answer : RateLimitedApi → List Value → Result Error Value
answer i args = elim i.method [ none ↦ err invalid_api_type | some f ↦ ok (f args) ]

-- A call of an API that is there, with its table: where the calls that are counted for the origin
-- have reached the limit it throws the error of the limit and the count stays; else it answers
-- what the method does, or throws where there is none, and counts one more.
pub call_lem :
    (a o : String) (args : List Value) (i : RateLimitedApi) (m : Assoc String ℕ) (s : State)
    → Assoc.get a s.implementations ≡ some i
    → Assoc.get a s.requests ≡ some m
    → let reached = reaches (Assoc.get o m) (limit_of a s) in
      let r = call o a args s in
      (r.0 ≡ (if reached then err (limit_exceeded a) else answer i args))
      × (r.1 ≡ (if reached then s else recorded a o i s))
      × (counted a o r.1 ≡ (if reached then counted a o s else counted a o s + 1))
unfolding call is_rate_limited record_request
call_lem a o args i m s ei em =
    let b = Bool-cases (reaches (Assoc.get o m) (limit_of a s)) in
    (
      ground (arith, ei, em, b),
      ground (arith, ei, em, b),
      ground (
        arith,
        ei,
        em,
        b,
        call-state o a args s,
        counted-with_count a o (counted a o s + 1) s a o,
        eq_iff a a,
        eq_iff o o,
      ),
    )
