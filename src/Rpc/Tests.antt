-- ===== src/Rpc/Tests.antt =====
-- The theorems on json-rpc-engine at concrete inputs.
use fork_metamask_core.Common.{◌≡◌, refl, Bool, true, false, none, some, [], ◌∷◌, ◌++◌, string_eq}
use fork_metamask_core.Common.Js.{Value, undefined, null, number, str, object}
use fork_metamask_core.Rpc.Engine.{
  not_plain_object, Request, Middleware, Thrown, continued, ended, fn, raised, no_error,
  process_request, rethrow, run_middleware, check_for_completion, run_return_handlers,
  run_all_middleware, run_loop,
}
use fork_metamask_core.Rpc.Merge.{merge_middleware, process_request-merge}
use fork_metamask_core.Rpc.Handle.{error_response, other, Engine, start, handle_one}
use fork_metamask_core.Rpc.Nested.{nested, process_request-nested}
use fork_metamask_core.Rpc.Replies.{IsFailure, handle_one-IsFailure}
use fork_metamask_core.Rpc.Remap.{id_remap_middleware, with_ids, below, process_request-remap}

abbrev serialize : Thrown → Value
serialize e = object 9

abbrev any_request : Request → Bool
any_request q = true

abbrev query : Request
query = record { id = number 3; jsonrpc = str "2.0"; method = str "go"; params = undefined }

-- A middleware that answers, and one that only passes on.
abbrev answer : Middleware
answer x = (
  record x { response = record (x.response) { result = some (number 1) } },
  ended (raised undefined),
)

abbrev pass : Middleware
pass x = (x, continued (some (fn (λ y. (y, no_error)))))

abbrev engine : Engine
engine = record {
  middleware = pass ∷ answer ∷ [];
  is_destroyed = false;
  notification_handler = none;
}

process_request-nested_example :
    process_request serialize (pass ∷ answer ∷ []) (start query)
    ≡ rethrow
        (nested serialize (pass ∷ answer ∷ []) (start query)).1
        (nested serialize (pass ∷ answer ∷ []) (start query)).0
process_request-nested_example = process_request-nested serialize (pass ∷ answer ∷ []) (start query)

handle_one-IsFailure_example : IsFailure (error_response null not_plain_object)
unfolding handle_one
handle_one-IsFailure_example =
    handle_one-IsFailure serialize any_request (λ e. refl) engine (other (number 1))
      (error_response null not_plain_object) refl refl

process_request-remap_example :
    process_request serialize (id_remap_middleware 8 ∷ answer ∷ []) (start query)
    ≡ rethrow
        (below serialize (answer ∷ []) 8 (start query) refl).1
        (with_ids (number 3) (below serialize (answer ∷ []) 8 (start query) refl).0.0, none)
unfolding nested run_middleware check_for_completion run_return_handlers
process_request-remap_example =
    process_request-remap serialize (answer ∷ []) 8 (start query) refl refl

process_request-merge_example :
    process_request serialize
      (merge_middleware serialize (pass ∷ pass ∷ []) ∷ answer ∷ [])
      (start query)
    ≡ process_request serialize ((pass ∷ pass ∷ []) ++ answer ∷ []) (start query)
unfolding run_all_middleware run_loop run_middleware
process_request-merge_example =
    process_request-merge serialize (pass ∷ pass ∷ []) (answer ∷ []) (start query) refl refl
