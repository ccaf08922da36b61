-- ===== src/Queue/Controller.antt =====
-- packages/queued-request-controller/src/QueuedRequestController.ts. The requests are the
-- environment's: it ends them when it likes, and the event loop resumes a call of `enqueueRequest`
-- some time after the promise is settled that it awaits.
use fork_metamask_core.Common.{
  ℕ, suc, ◌+◌, ◌-◌, Bool, Option, none, some, List, [], ◌∷◌, if◌then◌else◌, ltb, nat_eq,
}
use fork_metamask_core.Common.Assoc.{Assoc}
use fork_metamask_core.Common.Assoc

-- Where a call of `enqueueRequest` stands: before `await this.currentRequest`, with the promise that
-- it awaits, in its request, or at its end. `aborted` is the throw at the first `await`.
pub data Phase : Type 0 where
  waiting : Option ℕ → Phase
  running done failed aborted : Phase

-- The calls are numbered, and a call's number names the promise of its request; `none` in `current`
-- is `Promise.resolve()`. `published` are the payloads of `countChanged`, the newest first.
pub record State : Type 0 where
  pub count : ℕ
  pub current : Option ℕ
  pub calls : Assoc ℕ Phase
  pub next : ℕ
  pub published : List ℕ

abbrev pub init : State
init = record { count = 0; current = none; calls = []; next = 0; published = [] }

-- `#updateCount(1)` and `#updateCount(-1)`. A call that ends has raised the count before.
abbrev pub raise_count : State → State
raise_count s = record s { count = s.count + 1; published = (s.count + 1) ∷ s.published }

abbrev pub lower_count : State → State
lower_count s = record s { count = s.count - 1; published = (s.count - 1) ∷ s.published }

-- `this.currentRequest = requestNext()…`.
unfoldable pub start_request : ℕ → State → State
start_request call s = record s { current = some call; calls = Assoc.set call running s.calls }

-- `enqueueRequest`, up to its first `await`.
unfoldable pub enqueue_request : State → State
unfolding start_request
enqueue_request s =
    let t = record (raise_count s) { next = suc s.next } in
    if ltb 1 t.count
    then record t { calls = Assoc.set s.next (waiting s.current) t.calls }
    else start_request s.next t

-- What happens next: a new call, the end of a request, or the continuation after the first `await`.
pub data Event : Type 0 where
  enqueues : Event
  ends : ℕ → Bool → Event
  resumes : ℕ → Event

abbrev pub ended : ℕ → Bool → State → State
ended call fine s =
    lower_count (record s { calls = Assoc.set call (if fine then done else failed) s.calls })

-- How a promise stands that a call awaits.
pub data Promise : Type 0 where
  pending resolved rejected : Promise

abbrev pub promise_of : Option Phase → Promise
promise_of none = pending
promise_of (some done) = resolved
promise_of (some failed) = rejected
promise_of (some _) = pending

abbrev pub promise : Option ℕ → State → Promise
promise none s = resolved
promise (some call) s = promise_of (Assoc.get call s.calls)

abbrev pub resumed : ℕ → Promise → State → Option State
resumed call pending s = none
resumed call resolved s = some (start_request call s)
resumed call rejected s = some (record s { calls = Assoc.set call aborted s.calls })

abbrev pub end_phase : ℕ → Bool → Option Phase → State → Option State
end_phase call fine (some running) s = some (ended call fine s)
end_phase call fine _ s = none

abbrev pub resume_phase : ℕ → Option Phase → State → Option State
resume_phase call (some (waiting p)) s = resumed call (promise p s) s
resume_phase call _ s = none

-- `none` where the event cannot happen.
unfoldable pub step : Event → State → Option State
step enqueues s = some (enqueue_request s)
step (ends call fine) s = end_phase call fine (Assoc.get call s.calls) s
step (resumes call) s = resume_phase call (Assoc.get call s.calls) s

-- A sequence of events, each of which can happen.
unfoldable pub run : List Event → State → Option State
run [] s = some s
run (e ∷ es) s = elim (step e s) [ none ↦ none | some t ↦ run es t ]
