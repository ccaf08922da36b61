-- ===== src/Rpc/Nested.antt =====
-- `#processRequest` of JsonRpcEngine.ts against nested calls: each middleware encloses the ones below
-- it, and its return handler runs when they are done.
use mathlib.Core.List.{reverse, reverse-append, append_assoc, append-nil}
use fork_metamask_core.Common.{
  ◌≡◌, refl, sym, ap, ◌∙◌, true, false, Option, none, some, List, [], ◌∷◌, ◌++◌, if◌then◌else◌,
  arith, inl, inr, Bool-cases,
}
use fork_metamask_core.Common.Js.{Value}
use fork_metamask_core.Rpc.Engine.{
  Exchange, Middleware, Move, Handler, Thrown, Ran, ended, threw, continued, fn, not_function,
  no_error, moved, run_middleware, run_loop, run_all_middleware, check_for_completion,
  run_return_handlers, rethrow, complete_request, process_request,
}

-- The return handlers of the enclosing middleware, the innermost first, after a result.
abbrev pub unwind : List Handler → Exchange × Option Thrown → Exchange × Option Thrown
unwind hs (x, some e) = (x, some e)
unwind hs (x, none) = run_return_handlers hs x

pub unwind-append :
    (hs ks : List Handler) (x : Exchange)
    → run_return_handlers (hs ++ ks) x ≡ unwind ks (run_return_handlers hs x)
unfolding run_return_handlers
unwind-append [] ks x = refl
unwind-append (fn f ∷ hs) ks x = ground (arith, unwind-append hs ks (f x).0)
unwind-append (not_function ∷ hs) ks x = refl

-- The check of a response that no middleware will write to any more.
abbrev pub checked : Ran → Exchange × Option Thrown
checked r = (r.exchange, check_for_completion r.exchange.response r.complete)

-- What a stack comes to, and the error of the middleware that ended the request.
abbrev pub Outcome : Type 0
Outcome = (Exchange × Option Thrown) × Thrown

abbrev pub enclose : List Handler → Outcome → Outcome
enclose hs (o, e) = (unwind hs o, e)

abbrev step_in : Ran → Outcome → Outcome
step_in r below = enclose r.handlers (if r.complete then (checked r, r.error) else below)

shut :
    (r : Ran) (below : Outcome)
    → r.complete ≡ true
    → step_in r below ≡ (unwind r.handlers (checked r), r.error)
shut r below e = rw e

opened :
    (r : Ran) (below : Outcome) → r.complete ≡ false → step_in r below ≡ enclose r.handlers below
opened r below e = rw e

unwind_twice :
    (hs ks : List Handler) (o : Exchange × Option Thrown)
    → unwind (hs ++ ks) o ≡ unwind ks (unwind hs o)
unwind_twice hs ks (x, none) = unwind-append hs ks x
unwind_twice hs ks (x, some e) = refl

completed : (r : Ran) → complete_request r ≡ rethrow r.error (unwind r.handlers (checked r))
completed r = ground arith

module _ (serialize : Thrown → Value) where
  unfoldable pub nested : List Middleware → Exchange → Outcome
  nested [] x = ((x, check_for_completion x.response false), no_error)
  nested (m ∷ ms) x =
      let r = run_middleware serialize m x [] in
      let below = nested ms r.exchange in
      enclose r.handlers (if r.complete then (checked r, r.error) else below)

  -- The handlers that were there before stay in front.
  abbrev pub after : List Handler → Ran → Ran
  after hs r = record r { handlers = hs ++ r.handlers }

  moved-after :
      (v : Move) (x : Exchange) (hs : List Handler)
      → moved serialize v x hs ≡ after hs (moved serialize v x [])
  moved-after (ended e) x hs = ground (arith, append-nil hs)
  moved-after (threw e) x hs = ground (arith, append-nil hs)
  moved-after (continued none) x hs = ground (arith, append-nil hs)
  moved-after (continued (some (fn f))) x hs = ground (arith, append-nil hs)
  moved-after (continued (some not_function)) x hs = ground (arith, append-nil hs)

  moved-single :
      (v : Move) (x : Exchange)
      → reverse (moved serialize v x []).handlers ≡ (moved serialize v x []).handlers
  moved-single (ended e) x = refl
  moved-single (threw e) x = refl
  moved-single (continued none) x = ground arith
  moved-single (continued (some (fn f))) x = ground arith
  moved-single (continued (some not_function)) x = ground arith

  -- The rest of the loop, after a middleware.
  abbrev loop_rest : List Middleware → Ran → Ran
  loop_rest ms r = if r.complete then r else run_loop serialize ms r.exchange r.handlers

  closed : (r : Ran) (ms : List Middleware) → r.complete ≡ true → loop_rest ms r ≡ r
  closed r ms e = ground (arith, e)

  open_loop :
      (r : Ran) (ms : List Middleware)
      → r.complete ≡ false
      → loop_rest ms r ≡ run_loop serialize ms r.exchange r.handlers
  open_loop r ms e = ground (arith, e)

  pub run_loop-after :
      (ms : List Middleware) (x : Exchange) (hs : List Handler)
      → run_loop serialize ms x hs ≡ after hs (run_loop serialize ms x [])
  unfolding run_loop run_middleware
  run_loop-after [] x hs = ground (arith, append-nil hs)
  run_loop-after (m ∷ ms) x hs =
      let r = moved serialize (m x).1 (m x).0 [] in
      let below = run_loop serialize ms r.exchange [] in
      ap (loop_rest ms) (moved-after (m x).1 (m x).0 hs) ∙ (elim (Bool-cases r.complete) [
        | inl e ↦ ground (arith, e)
        | inr e ↦ ground (
          arith,
          e,
          run_loop-after ms r.exchange (hs ++ r.handlers),
          run_loop-after ms r.exchange r.handlers,
          append_assoc hs r.handlers below.handlers,
        )
      ])

  -- The outcome of a run of the loop.
  abbrev pub outcome : Ran → Outcome
  outcome r = (unwind (reverse r.handlers) (checked r), r.error)

  pub unwind-after :
      (hs : List Handler) (r : Ran) → outcome (after hs r) ≡ enclose (reverse hs) (outcome r)
  unwind-after hs r =
      ap (λ l. (unwind l (checked r), r.error)) (reverse-append hs r.handlers)
      ∙ ap (λ o. (o, r.error)) (unwind_twice (reverse r.handlers) (reverse hs) (checked r))

  pub run_loop-nested :
      (ms : List Middleware) (x : Exchange) → outcome (run_loop serialize ms x []) ≡ nested ms x
  unfolding run_loop run_middleware nested run_return_handlers
  run_loop-nested [] x = ground arith
  run_loop-nested (m ∷ ms) x =
      let r = moved serialize (m x).1 (m x).0 [] in
      let single = moved-single (m x).1 (m x).0 in
      elim (Bool-cases r.complete) [
        | inl e ↦
            ap outcome (closed r ms e)
            ∙ ap (λ l. (unwind l (checked r), r.error)) single
            ∙ sym (shut r (nested ms r.exchange) e)
        | inr e ↦
            ap outcome (open_loop r ms e)
            ∙ ap outcome (run_loop-after ms r.exchange r.handlers)
            ∙ unwind-after r.handlers (run_loop serialize ms r.exchange [])
            ∙ ap (enclose (reverse r.handlers)) (run_loop-nested ms r.exchange)
            ∙ ap (λ l. enclose l (nested ms r.exchange)) single
            ∙ sym (opened r (nested ms r.exchange) e)
      ]

  -- A request is processed as by nested calls: the middleware from the outside in, then the check of
  -- the response, then the return handlers from the inside out, each only if nothing was thrown since
  -- the check, and at last the error of the middleware.
  pub process_request-nested :
      (ms : List Middleware) (x : Exchange)
      → process_request serialize ms x ≡ rethrow (nested ms x).1 (nested ms x).0
  unfolding process_request run_all_middleware
  process_request-nested ms x =
      let r = run_loop serialize ms x [] in
      completed (record r { handlers = reverse r.handlers })
      ∙ ap (λ o. rethrow o.1 o.0) (run_loop-nested ms x)
