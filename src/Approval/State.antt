-- ===== src/Approval/State.antt =====
-- The state of packages/approval-controller/src/ApprovalController.ts and its errors (errors.ts).
use fork_metamask_core.Common.{ℕ, suc, String, Bool, Option, List, []}
use fork_metamask_core.Common.Assoc.{Assoc}
use fork_metamask_core.Common.Monad.{Action}
use fork_metamask_core.Common.Js.{Value}

pub record ApprovalRequest : Type 0 where
  pub id : String
  pub origin : String
  pub type : String
  pub time : ℕ
  pub request_data : Value
  pub request_state : Value
  pub expects_result : Bool

-- `loadingText` is a string or null.
pub record ApprovalFlow : Type 0 where
  pub id : String
  pub loading_text : Option String

-- The messages of `#validateAddParams`.
pub data Invalid : Type 0 where
  empty_id empty_origin empty_type bad_request_data bad_request_state : Invalid
  id_exists : String → Invalid

-- `type_error` is the engine's, at a property of `undefined`; `not_a_number` stands for a count
-- that the code would make NaN or negative.
pub data Error : Type 0 where
  not_found no_result_support missing_flow : String → Error
  no_flows : Error
  end_invalid_flow : String → List String → Error
  internal : Invalid → Error
  resource_unavailable : String → String → Error
  must_specify invalid_combination non_string_id non_string_type non_string_origin : Error
  type_error not_a_number : Error

-- How an approval promise ends. An `AddResult` says whether it carries result callbacks.
pub data Settlement : Type 0 where
  resolved : Value → Settlement
  resolved_result : Value → Bool → Settlement
  rejected : Value → Settlement

-- The callbacks in `#approvals` are named by the number of their promise; `settled` is the log of
-- the calls of them, the newest first, and `shown` counts the calls of `#showApprovalRequest`.
pub record State : Type 0 where
  pub pending_approvals : Assoc String ApprovalRequest
  pub pending_approval_count : ℕ
  pub approval_flows : List ApprovalFlow
  pub approvals : Assoc String ℕ
  pub origins : Assoc String (Assoc String ℕ)
  pub excluded : List String
  pub next_promise : ℕ
  pub settled : List (ℕ × Settlement)
  pub shown : ℕ

abbrev pub M : Type 0 → Type 0
M = Action State Error

-- The constructor with no initial state given.
abbrev pub init : List String → State
init excluded = record {
  pending_approvals = [];
  pending_approval_count = 0;
  approval_flows = [];
  approvals = [];
  origins = [];
  excluded = excluded;
  next_promise = 0;
  settled = [];
  shown = 0;
}

-- `#showApprovalRequest()`.
abbrev pub show : State → State
show s = record s { shown = suc s.shown }
