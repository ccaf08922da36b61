-- ===== src/Approval/Requests.antt =====
-- The methods of ApprovalController.ts that add and settle requests.
use fork_metamask_core.Common.{
  ℕ, suc, ◌+◌, ◌-◌, String, Bool, false, not, ◌&&◌, Option, none, some, List, [], ◌∷◌,
  if◌then◌else◌, get_or, eqb, any, length, ◌==◌, string_eq,
}
use fork_metamask_core.Common.Assoc.{Assoc, keys}
use fork_metamask_core.Common.Assoc
use fork_metamask_core.Common.Monad.{◌>>=◌, ◌>>◌, pure, throw, get_state, modify, lift, from_option}
use fork_metamask_core.Common.Js.{
  Value, undefined, str, truthy, is_string, is_plain, string_of, or_null,
}
use fork_metamask_core.Approval.State.{
  State, ApprovalRequest, Invalid, Error, no_result_support, Settlement, M, show, not_found,
  internal, resource_unavailable, type_error, not_a_number, resolved, resolved_result, rejected,
  empty_id, empty_origin, empty_type, bad_request_data, bad_request_state, id_exists,
}
use fork_metamask_core.Approval.Queries.{get_request, get_approval_count, has_request}

-- `AddApprovalOptions`, with the values that a caller may really pass, and what the environment
-- gives: `Date.now()` and `nanoid()`.
pub record AddOptions : Type 0 where
  pub id : Value
  pub origin : Value
  pub type : Value
  pub request_data : Value
  pub request_state : Value
  pub expects_result : Option Bool
  pub now : ℕ
  pub fresh_id : String

-- The default of the parameter `id`.
abbrev pub id_or_fresh : Value → String → Value
id_or_fresh undefined fresh = str fresh
id_or_fresh v fresh = v

-- `#validateAddParams`; `none` where it does not throw.
unfoldable pub validate_add_params : Value → Value → Value → Value → Value → State → Option Invalid
validate_add_params id origin type request_data request_state s =
    if not (is_string id && truthy id)
    then some empty_id
    else if Assoc.has (string_of id) s.approvals
    then some (id_exists (string_of id))
    else if not (is_string origin && truthy origin)
    then some empty_origin
    else if not (is_string type && truthy type)
    then some empty_type
    else if truthy request_data && not (is_plain request_data)
    then some bad_request_data
    else if truthy request_state && not (is_plain request_state)
    then some bad_request_state
    else none

abbrev pub throw_invalid : Option Invalid → M (Unit {0})
throw_invalid none = pure tt
throw_invalid (some e) = throw (internal e)

unfoldable pub add_pending_approval_origin : String → String → State → State
add_pending_approval_origin origin type s =
    let origin_map = get_or (Assoc.get origin s.origins) [] in
    let current = get_or (Assoc.get type origin_map) 0 in
    record s { origins = Assoc.set origin (Assoc.set type (current + 1) origin_map) s.origins }

unfoldable pub add_to_store : ApprovalRequest → State → State
add_to_store a s =
    let pending = Assoc.set a.id a s.pending_approvals in
    record s { pending_approvals = pending; pending_approval_count = length pending }

-- The body of `new Promise(…)`: the callbacks are those of the promise with the next number.
unfoldable pub register : ApprovalRequest → State → State
unfolding add_pending_approval_origin add_to_store
register a s = add_to_store a (
    add_pending_approval_origin a.origin a.type (record s {
      approvals = Assoc.set a.id s.next_promise s.approvals;
      next_promise = suc s.next_promise;
    }))

abbrev pub request_of : AddOptions → String → ApprovalRequest
request_of o id = record {
  id = id;
  origin = string_of o.origin;
  type = string_of o.type;
  time = o.now;
  request_data = or_null o.request_data;
  request_state = or_null o.request_state;
  expects_result = get_or o.expects_result false;
}

abbrev pub id_of : AddOptions → String
id_of o = string_of (id_or_fresh o.id o.fresh_id)

-- `add`, and `#add` below it: the number of the promise.
unfoldable pub add : AddOptions → M ℕ
add o = do
  let id = id_or_fresh o.id o.fresh_id
  s ← get_state
  throw_invalid (validate_add_params id o.origin o.type o.request_data o.request_state s)
  taken ←
      if any (λ t. t == string_of o.type) s.excluded
      then pure false
      else lift (has_request undefined o.origin o.type s)
  if taken then throw (resource_unavailable (string_of o.origin) (string_of o.type)) else pure tt
  modify (register (request_of o (id_of o)))
  pure s.next_promise

unfoldable pub add_and_show_approval_request : AddOptions → M ℕ
add_and_show_approval_request o = do promise ← add o; modify show; pure promise

-- `#origins` after `#delete`; `total` and `current` were read before.
abbrev pub released : String → String → ℕ → ℕ → Assoc String ℕ → State → State
released origin type total current origin_map s = record s {
  origins =
      if eqb total 1
      then Assoc.delete origin s.origins
      else Assoc.set origin (Assoc.set type (current - 1) origin_map) s.origins;
}

abbrev pub remove_from_store : String → State → State
remove_from_store id s =
    let pending = Assoc.delete id s.pending_approvals in
    record s { pending_approvals = pending; pending_approval_count = length pending }

-- A count that is missing or 0 would become NaN or negative, where an entry is left for the origin.
abbrev pub check_count : ℕ → Option ℕ → M ℕ
check_count total none = if eqb total 1 then pure 0 else throw not_a_number
check_count total (some n) = if not (eqb total 1) && eqb n 0 then throw not_a_number else pure n

-- `#delete`.
unfoldable pub delete_request : String → M (Unit {0})
delete_request id = do
  modify (λ s. record s { approvals = Assoc.delete id s.approvals })
  s ← get_state
  a ← from_option (get_request id s) type_error
  let maps = Assoc.get a.origin s.origins
  total ← lift (get_approval_count (str a.origin) undefined s)
  origin_map ← from_option maps type_error
  current ← check_count total (Assoc.get a.type origin_map)
  modify (released a.origin a.type total current origin_map)
  modify (remove_from_store id)

-- `#deleteApprovalAndGetCallbacks`.
unfoldable pub delete_approval_and_get_callbacks : String → M ℕ
delete_approval_and_get_callbacks id = do
  s ← get_state
  promise ← from_option (Assoc.get id s.approvals) (not_found id)
  delete_request id
  pure promise

-- A call of one of a promise's callbacks.
abbrev pub settle : ℕ → Settlement → State → State
settle promise outcome s = record s { settled = (promise, outcome) ∷ s.settled }

-- The promise that `accept` returns: resolved at once, rejected at once, or left to the callbacks.
pub data Acceptance : Type 0 where
  accepted waiting : Acceptance
  refused : Error → Acceptance

abbrev pub expects : Option ApprovalRequest → Bool
expects none = false
expects (some a) = a.expects_result

abbrev pub resolution : Bool → Bool → Value → Settlement
resolution expects_result wait value =
    if expects_result then resolved_result value wait else resolved value

unfoldable pub accept : String → Value → Bool → M Acceptance
accept id value wait = do
  s ← get_state
  let expects_result = expects (get_request id s)
  promise ← delete_approval_and_get_callbacks id
  if wait && not expects_result then pure (refused (no_result_support id)) else (do
    modify (settle promise (resolution expects_result wait value))
    pure (if wait then waiting else accepted))

unfoldable pub reject : String → Value → M (Unit {0})
reject id error = do
  promise ← delete_approval_and_get_callbacks id
  modify (settle promise (rejected error))

-- The loop of `clear`, over the ids that are there when it starts.
unfoldable pub reject_all : List String → Value → M (Unit {0})
reject_all [] error = pure tt
reject_all (id ∷ ids) error = do reject id error; reject_all ids error

unfoldable pub clear : Value → M (Unit {0})
clear error = do
  s ← get_state
  reject_all (keys s.approvals) error
  modify (λ s'. record s' { origins = []; pending_approvals = []; pending_approval_count = 0 })

unfoldable pub update_request_state : String → Value → M (Unit {0})
update_request_state id request_state = do
  s ← get_state
  a ← from_option (get_request id s) (not_found id)
  modify (λ s'. record s' {
    pending_approvals =
        Assoc.set id (record a { request_state = request_state }) s'.pending_approvals;
  })

-- The handler of the action `addRequest`.
unfoldable pub add_request_action : AddOptions → Bool → M ℕ
add_request_action o should_show_request =
    if should_show_request then add_and_show_approval_request o else add o
