-- ===== src/Approval/Calls.antt =====
-- Sequences of calls of the methods of ApprovalController.ts that write.
use fork_metamask_core.Common.{ℕ, String, Bool, Option, List, [], ◌∷◌}
use fork_metamask_core.Common.Js.{Value}
use fork_metamask_core.Approval.State.{State}
use fork_metamask_core.Approval.Requests.{
  AddOptions, add, add_and_show_approval_request, accept, reject, clear, update_request_state,
}
use fork_metamask_core.Approval.Flows.{
  start_flow, end_flow, set_flow_loading_text, begin_result, finish_result,
}

-- A call of a method that writes.
pub data Call : Type 0 where
  adds shows : AddOptions → Call
  accepts : String → Value → Bool → Call
  rejects updates : String → Value → Call
  clears : Value → Call
  starts : Option String → Option String → Option Bool → String → Call
  ends : String → Call
  sets_text : String → Option String → Call
  opens_page : String → Value → ℕ → String → Call
  leaves_page : Value → Call

-- A call that throws keeps what it wrote before.
unfoldable pub step : State → Call → State
step s (adds o) = (add o s).1
step s (shows o) = (add_and_show_approval_request o s).1
step s (accepts id value wait) = (accept id value wait s).1
step s (rejects id error) = (reject id error s).1
step s (updates id data') = (update_request_state id data' s).1
step s (clears error) = (clear error s).1
step s (starts id loading shown fresh) = (start_flow id loading shown fresh s).1
step s (ends id) = (end_flow id s).1
step s (sets_text id loading) = (set_flow_loading_text id loading s).1
step s (opens_page type page now fresh) = (begin_result type page now fresh s).1
step s (leaves_page flow) = (finish_result flow s).1

unfoldable pub run : State → List Call → State
run s [] = s
run s (c ∷ cs) = run (step s c) cs
