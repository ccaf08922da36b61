-- ===== src/Approval/Flows.antt =====
-- Approval flows and result pages of ApprovalController.ts.
use fork_metamask_core.Common.{
  ℕ, ◌≡◌, arith, String, Bool, true, not, Option, none, some, List, [], ◌∷◌, ◌++◌, if◌then◌else◌,
  get_or, any, last?, drop_last, map, ◌==◌, string_eq,
}
use fork_metamask_core.Common.Monad.{Result, ok, err, ◌>>=◌, ◌>>◌, pure, throw, get_state, modify}
use fork_metamask_core.Common.Js.{Value, undefined, str, truthy, string_of}
use fork_metamask_core.Approval.State.{
  State, ApprovalFlow, Error, M, show, no_flows, end_invalid_flow, missing_flow,
}
use fork_metamask_core.Approval.Requests.{AddOptions, add_and_show_approval_request}

-- `fresh_id` is the result of `nanoid()`.
unfoldable pub start_flow : Option String → Option String → Option Bool → String → M ApprovalFlow
start_flow id loading_text shown fresh_id = do
  let flow : ApprovalFlow = record { id = get_or id fresh_id; loading_text = loading_text }
  modify (λ s. record s { approval_flows = s.approval_flows ++ flow ∷ [] })
  if get_or shown true then modify show else pure tt
  pure flow

abbrev pub flow_ids : List ApprovalFlow → List String
flow_ids = map (λ f. f.id)

abbrev pub end_current : Option ApprovalFlow → String → M (Unit {0})
end_current none id = throw no_flows
end_current (some flow) id = do
  s ← get_state
  if not (id == flow.id)
      then throw (end_invalid_flow id (flow_ids s.approval_flows))
      else modify (λ s'. record s' { approval_flows = drop_last s'.approval_flows })

unfoldable pub end_flow : String → M (Unit {0})
end_flow id = do s ← get_state; end_current (last? s.approval_flows) id

-- A write to the first flow with the id.
unfoldable pub set_loading_text : String → Option String → List ApprovalFlow → List ApprovalFlow
set_loading_text id t [] = []
set_loading_text id t (f ∷ fs) =
    if f.id == id then record f { loading_text = t } ∷ fs else f ∷ set_loading_text id t fs

unfoldable pub set_flow_loading_text : String → Option String → M (Unit {0})
set_flow_loading_text id loading_text = do
  s ← get_state
  if any (λ f. f.id == id) s.approval_flows
      then modify
          (λ s'. record s' { approval_flows = set_loading_text id loading_text s'.approval_flows })
      else throw (missing_flow id)

-- The request of `success` and `error`: `type` and `page` differ, the origin is `ORIGIN_METAMASK`.
abbrev pub page_options : String → Value → ℕ → String → AddOptions
page_options type page now fresh_id = record {
  id = undefined;
  origin = str "metamask";
  type = str type;
  request_data = page;
  request_state = undefined;
  expects_result = none;
  now = now;
  fresh_id = fresh_id;
}

abbrev pub caught : Result Error ℕ × State → Result Error (Option ℕ) × State
caught (ok promise, s) = (ok (some promise), s)
caught (err e, s) = (ok none, s)

-- `#result` up to its `await`: the promise to wait for, or `none` where `add` threw.
unfoldable pub begin_result : String → Value → ℕ → String → M (Option ℕ)
begin_result type page now fresh_id s =
    caught (add_and_show_approval_request (page_options type page now fresh_id) s)

abbrev pub swallowed : Result Error (Unit {0}) × State → Result Error (Unit {0}) × State
swallowed (r, s) = (ok tt, s)

-- The `finally` block of `#result`.
unfoldable pub finish_result : Value → M (Unit {0})
finish_result flow_to_end s =
    if truthy flow_to_end then swallowed (end_flow (string_of flow_to_end) s) else (ok tt, s)

-- A state with other flows, and another number of calls of `#showApprovalRequest`.
abbrev pub with_flows : List ApprovalFlow → ℕ → State → State
with_flows flows shown s = record s { approval_flows = flows; shown = shown }

-- The methods on flows write nothing but the flows and the display.
pub start_flow-frame :
    (id loading : Option String) (shown : Option Bool) (fresh : String) (s : State)
    → let t = (start_flow id loading shown fresh s).1 in t ≡ with_flows t.approval_flows t.shown s
unfolding start_flow
start_flow-frame id loading shown fresh s = ground arith

pub end_flow-frame :
    (id : String) (s : State)
    → let t = (end_flow id s).1 in t ≡ with_flows t.approval_flows t.shown s
unfolding end_flow
end_flow-frame id s = ground arith

pub set_flow_loading_text-frame :
    (id : String) (loading : Option String) (s : State)
    → let t = (set_flow_loading_text id loading s).1 in t ≡ with_flows t.approval_flows t.shown s
unfolding set_flow_loading_text
set_flow_loading_text-frame id loading s = ground arith

pub finish_result-frame :
    (flow : Value) (s : State)
    → let t = (finish_result flow s).1 in t ≡ with_flows t.approval_flows t.shown s
unfolding finish_result
finish_result-frame flow s = ground (arith, end_flow-frame (string_of flow) s)
