-- ===== src/Approval/Queries.antt =====
-- The read-only methods of ApprovalController.ts: `get`, `getApprovalCount`, `has`.
use fork_metamask_core.Common.{
  ℕ, ◌+◌, String, Bool, not, ◌&&◌, Option, List, [], ◌∷◌, if◌then◌else◌, get_or, eqb, count, any,
  ◌==◌, string_eq,
}
use fork_metamask_core.Common.Assoc.{Assoc, values}
use fork_metamask_core.Common.Assoc
use fork_metamask_core.Common.Monad.{Result, ok, err}
use fork_metamask_core.Common.Js.{Value, truthy, is_string, string_of}
use fork_metamask_core.Approval.State.{
  State, ApprovalRequest, Error, must_specify, invalid_combination, non_string_id, non_string_type,
  non_string_origin,
}

abbrev pub sum : List ℕ → ℕ
sum [] = 0
sum (n ∷ ns) = n + sum ns

unfoldable pub get_request : String → State → Option ApprovalRequest
get_request id s = Assoc.get id s.pending_approvals

unfoldable pub get_total_approval_count : State → ℕ
get_total_approval_count s = s.pending_approval_count

-- `this.#origins.get(origin)?.get(_type) || 0`.
unfoldable pub type_count : State → String → String → ℕ
type_count s o t = get_or (Assoc.get t (get_or (Assoc.get o s.origins) [])) 0

-- The sum over `this.#origins.get(origin) || new Map()`.
unfoldable pub origin_count : State → String → ℕ
origin_count s o = sum (values (get_or (Assoc.get o s.origins) []))

abbrev pub has_type : String → ApprovalRequest → Bool
has_type t a = a.type == t

abbrev pub has_origin : String → ApprovalRequest → Bool
has_origin o a = a.origin == o

-- Both options may be missing; the empty text counts as missing.
unfoldable pub get_approval_count : Value → Value → State → Result Error ℕ
get_approval_count origin type s =
    if not (truthy origin) && not (truthy type)
    then err must_specify
    else if truthy origin && truthy type
    then ok (type_count s (string_of origin) (string_of type))
    else if truthy origin
    then ok (origin_count s (string_of origin))
    else ok (count (has_type (string_of type)) (values s.pending_approvals))

unfoldable pub has_request : Value → Value → Value → State → Result Error Bool
has_request id origin type s =
    if truthy id
    then (if not (is_string id)
        then err non_string_id
        else ok (Assoc.has (string_of id) s.approvals))
    else if truthy type && not (is_string type)
    then err non_string_type
    else if truthy origin
    then (if not (is_string origin)
        then err non_string_origin
        else if truthy type
        then ok (not (eqb (type_count s (string_of origin) (string_of type)) 0))
        else ok (Assoc.has (string_of origin) s.origins))
    else if truthy type
    then ok (any (has_type (string_of type)) (values s.pending_approvals))
    else err invalid_combination
