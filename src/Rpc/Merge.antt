-- ===== src/Rpc/Merge.antt =====
-- `asMiddleware` of JsonRpcEngine.ts, mergeMiddleware.ts and createScaffoldMiddleware.ts, all of
-- merged-packages/json-rpc-engine/src: middleware made of middleware.
use mathlib.Core.List.{reverse}
use fork_metamask_core.Common.{
  ◌≡◌, refl, sym, ap, ◌∙◌, String, true, false, Option, none, some, List, [], ◌∷◌, ◌++◌,
  if◌then◌else◌, arith, inl, inr, Bool-cases, Option-cases, string_eq,
}
use fork_metamask_core.Common.Assoc.{Assoc}
use fork_metamask_core.Common.Assoc
use fork_metamask_core.Common.Js.{Value, undefined, string_of}
use fork_metamask_core.Rpc.Engine.{
  Exchange, Middleware, Move, Handler, Thrown, Ran, ended, continued, fn, not_function, raised,
  is_error, response_error, run_middleware, run_loop, run_all_middleware, run_return_handlers,
  rethrow, process_request, check_for_completion,
}
use fork_metamask_core.Rpc.Nested.{
  Outcome, enclose, nested, outcome, run_loop-after, unwind-after, run_loop-nested,
  process_request-nested,
}

-- The end of a merged stack that ended the request; an error of its return handlers comes first.
abbrev pub ended_after : Thrown → Exchange × Option Thrown → Exchange × Move
ended_after e (x, some f) = (x, ended f)
ended_after e (x, none) = (x, ended e)

abbrev pub handed : Exchange × Option Thrown → Exchange × Thrown
handed (x, some e) = (x, e)
handed (x, none) = (x, raised undefined)

-- The return handler of a merged stack that did not end the request.
abbrev pub as_handler : List Handler → Exchange → Exchange × Thrown
as_handler hs x = handed (run_return_handlers hs x)

abbrev pub left : Ran → Exchange × Move
left r =
    if r.complete
    then ended_after r.error (run_return_handlers r.handlers r.exchange)
    else (r.exchange, continued (some (fn (as_handler r.handlers))))

-- `mergeMiddleware`: the middleware of a new engine with the stack.
unfoldable pub merge_middleware : (Thrown → Value) → List Middleware → Middleware
merge_middleware serialize ms x = left (run_all_middleware serialize ms x)

-- A handler of `createScaffoldMiddleware`: a middleware, or a result.
pub data ScaffoldHandler : Type 0 where
  calls : Middleware → ScaffoldHandler
  gives : Value → ScaffoldHandler

abbrev pub scaffolded : Option ScaffoldHandler → Middleware
scaffolded none x = (x, continued none)
scaffolded (some (calls m)) x = m x
scaffolded (some (gives v)) x =
    (record x { response = record (x.response) { result = some v } }, ended (raised undefined))

-- The method is a string, since the engine refuses any other before.
unfoldable pub create_scaffold_middleware : Assoc String ScaffoldHandler → Middleware
create_scaffold_middleware handlers x =
    scaffolded (Assoc.get (string_of x.request.method) handlers) x

run_return_handlers-is_error :
    (hs : List Handler) (x y : Exchange) (e : Thrown)
    → run_return_handlers hs x ≡ (y, some e)
    → is_error e ≡ true
unfolding run_return_handlers
run_return_handlers-is_error [] x y e h = absurd (ground (arith, h))
run_return_handlers-is_error (fn f ∷ hs) x y e h =
    ground (arith, h, run_return_handlers-is_error hs (f x).0 y e)
run_return_handlers-is_error (not_function ∷ hs) x y e h = ground (arith, h)

as_handler_lem :
    (hs : List Handler) (x : Exchange)
    → run_return_handlers (fn (as_handler hs) ∷ []) x ≡ run_return_handlers hs x
unfolding run_return_handlers
as_handler_lem hs x = elim (Option-cases (run_return_handlers hs x).1) [
  | inl n ↦ ground (arith, n)
  | inr (e, n) ↦ ground (
    arith,
    n,
    run_return_handlers-is_error hs x (run_return_handlers hs x).0 e (ground (arith, n)),
  )
]

enclose-as_handler :
    (hs : List Handler) (o : Outcome) → enclose (fn (as_handler hs) ∷ []) o ≡ enclose hs o
enclose-as_handler hs ((x, none), e) = ap (λ p. (p, e)) (as_handler_lem hs x)
enclose-as_handler hs ((x, some f), e) = refl

module _ (serialize : Thrown → Value) where
  run_loop-append :
      (ms rest : List Middleware) (x : Exchange) (hs : List Handler)
      → (run_loop serialize ms x hs).complete ≡ false
      → run_loop serialize (ms ++ rest) x hs
        ≡ run_loop serialize rest
            (run_loop serialize ms x hs).exchange
            (run_loop serialize ms x hs).handlers
  unfolding run_loop
  run_loop-append [] rest x hs h = refl
  run_loop-append (m ∷ ms) rest x hs h =
      let r = run_middleware serialize m x hs in
      ground (arith, h, run_loop-append ms rest r.exchange r.handlers, Bool-cases r.complete)

  nested-append :
      (ms rest : List Middleware) (x : Exchange)
      → (run_loop serialize ms x []).complete ≡ false
      → nested serialize (ms ++ rest) x
        ≡ enclose
            (reverse (run_loop serialize ms x []).handlers)
            (nested serialize rest (run_loop serialize ms x []).exchange)
  nested-append ms rest x h =
      let r = run_loop serialize ms x [] in
      sym (run_loop-nested serialize (ms ++ rest) x)
      ∙ ap (outcome serialize) (run_loop-append ms rest x [] h)
      ∙ ap (outcome serialize) (run_loop-after serialize rest r.exchange r.handlers)
      ∙ unwind-after serialize r.handlers (run_loop serialize rest r.exchange [])
      ∙ ap (enclose (reverse r.handlers)) (run_loop-nested serialize rest r.exchange)

-- Where a stack does not end the request and leaves no error on the response, the middleware that it
-- is merged into may stand for it: the request is processed as if the stack itself stood there, also
-- below it, and the return handlers run in the same order.
pub process_request-merge :
    (serialize : Thrown → Value) (ms rest : List Middleware) (x : Exchange)
    → (run_all_middleware serialize ms x).complete ≡ false
    → is_error (response_error (run_all_middleware serialize ms x).exchange.response) ≡ false
    → process_request serialize (merge_middleware serialize ms ∷ rest) x
      ≡ process_request serialize (ms ++ rest) x
unfolding merge_middleware run_all_middleware run_middleware nested
process_request-merge serialize ms rest x h n =
    let r = run_loop serialize ms x [] in
    let inner = nested serialize rest r.exchange in
    let outer : nested serialize (merge_middleware serialize ms ∷ rest) x
        ≡ enclose (fn (as_handler (reverse r.handlers)) ∷ []) inner =
      ground (arith, h, n) in
    process_request-nested serialize (merge_middleware serialize ms ∷ rest) x
    ∙ ap (λ o. rethrow o.1 o.0)
        (outer
          ∙ enclose-as_handler (reverse r.handlers) inner
          ∙ sym (nested-append serialize ms rest x h))
    ∙ sym (process_request-nested serialize (ms ++ rest) x)

-- What a scaffold middleware makes of a request, by the handler of its method.
abbrev pub scaffold_outcome :
    (Thrown → Value)
    → Option ScaffoldHandler
    → List Middleware
    → Exchange
    → Exchange × Option Thrown
scaffold_outcome serialize none ms x = process_request serialize ms x
scaffold_outcome serialize (some (calls m)) ms x = process_request serialize (m ∷ ms) x
scaffold_outcome serialize (some (gives v)) ms x =
    (record x { response = record (x.response) { result = some v } }, none)

scaffolded_outcome :
    (serialize : Thrown → Value) (h : Option ScaffoldHandler) (ms : List Middleware) (x : Exchange)
    → is_error (response_error x.response) ≡ false
    → process_request serialize (scaffolded h ∷ ms) x ≡ scaffold_outcome serialize h ms x
unfolding process_request run_all_middleware run_loop run_middleware run_return_handlers
    check_for_completion
scaffolded_outcome serialize none ms x n = ground (arith, n)
scaffolded_outcome serialize (some (calls m)) ms x n = refl
scaffolded_outcome serialize (some (gives v)) ms x n = ground (arith, n)

-- A request whose response has no error, with a scaffold middleware on top: with no handler for its
-- method it is processed as if the scaffold were not there, with a function as if the function stood
-- there, and with a value the value is the result, and no other middleware runs.
pub create_scaffold_middleware_lem :
    (serialize : Thrown → Value) (hs : Assoc String ScaffoldHandler) (ms : List Middleware)
    → (x : Exchange) → is_error (response_error x.response) ≡ false
    → process_request serialize (create_scaffold_middleware hs ∷ ms) x
      ≡ scaffold_outcome serialize (Assoc.get (string_of x.request.method) hs) ms x
unfolding create_scaffold_middleware process_request run_all_middleware run_loop run_middleware
create_scaffold_middleware_lem serialize hs ms x n =
    scaffolded_outcome serialize (Assoc.get (string_of x.request.method) hs) ms x n
