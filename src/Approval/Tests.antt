-- ===== src/Approval/Tests.antt =====
-- Runs of ApprovalController.ts on small inputs, and its theorems at concrete inputs.
use fork_metamask_core.Common.{
  ◌≡◌, ◌≤◌, ◌<◌, ◌+◌, refl, String, true, false, none, some, List, [], ◌∷◌, ltb, bit, string_eq,
}
use fork_metamask_core.Common.Assoc.{Assoc, values}
use fork_metamask_core.Common.Assoc
use fork_metamask_core.Common.Js.{undefined, null, str, number}
use fork_metamask_core.Approval.State.{State, ApprovalRequest, init, resolved}
use fork_metamask_core.Approval.Queries.{
  has_request, get_approval_count, type_count, get_request, origin_count,
}
use fork_metamask_core.Approval.Requests.{
  AddOptions, add, accept, register, add_pending_approval_origin, add_to_store, validate_add_params,
  delete_request, delete_approval_and_get_callbacks,
}
use fork_metamask_core.Approval.Calls.{Call, adds, accepts, clears, step, run}
use fork_metamask_core.Approval.Invariant.{IsValid, init-IsValid}
use fork_metamask_core.Approval.Runs.{run-IsValid}
use fork_metamask_core.Approval.Promises.{
  IsConserved, settlements, run-IsConserved, waits, settlements-run, clear-settles_each,
}
use fork_metamask_core.Approval.Adding.{is_excluded}
use fork_metamask_core.Approval.Limits.{pending_count, pending_count-run}
use fork_metamask_core.Approval.Outcomes.{accept_loses}
use fork_metamask_core.Approval.Sessions.{Session, done, nest}

abbrev ask : String → String → String → AddOptions
ask id origin type = record {
  id = str id;
  origin = str origin;
  type = str type;
  request_data = undefined;
  request_state = undefined;
  expects_result = none;
  now = 7;
  fresh_id = "fresh";
}

abbrev history : List Call
history =
    adds (ask "a" "app" "sign")
    ∷ adds (ask "b" "app" "sign")
    ∷ adds (ask "c" "dapp" "sign")
    ∷ accepts "a" (number 1) false
    ∷ []

-- The second request is over the limit, and the first is accepted.
first_accepted : (run (init []) history).settled ≡ (0, resolved (number 1)) ∷ []
unfolding run step add validate_add_params has_request register add_pending_approval_origin
    add_to_store accept delete_request delete_approval_and_get_callbacks get_approval_count
    Assoc.get Assoc.set Assoc.delete type_count get_request origin_count
first_accepted = refl

one_pending : State
one_pending = run (init []) (adds (ask "a" "app" "sign") ∷ [])

one_pending-IsValid : IsValid one_pending
unfolding one_pending
one_pending-IsValid = run-IsValid (init []) (adds (ask "a" "app" "sign") ∷ []) (init-IsValid [])

one_pending-IsConserved : IsConserved one_pending
unfolding one_pending
one_pending-IsConserved = run-IsConserved [] (adds (ask "a" "app" "sign") ∷ []) (refl, tt)

abbrev asked : ApprovalRequest
asked = record {
  id = "a";
  origin = "app";
  type = "sign";
  time = 7;
  request_data = null;
  request_state = null;
  expects_result = false;
}

one_pending-get : Assoc.get "a" one_pending.pending_approvals ≡ some asked
unfolding one_pending run step add validate_add_params has_request register
    add_pending_approval_origin add_to_store Assoc.get Assoc.set type_count
one_pending-get = refl

one_pending-approval : Assoc.get "a" one_pending.approvals ≡ some 0
unfolding one_pending run step add validate_add_params has_request register
    add_pending_approval_origin add_to_store Assoc.get Assoc.set type_count
one_pending-approval = refl

run-IsValid_example : IsValid (run (init []) history)
run-IsValid_example = run-IsValid (init []) history (init-IsValid [])

settlements-run_example :
    let s = run (init []) history in waits 0 s + settlements 0 s ≤ bit (ltb 0 s.next_promise)
settlements-run_example = settlements-run [] history 0

clear-settles_each_example :
    settlements 1 (step (run (init []) history) (clears null))
    ≡ bit (ltb 1 (run (init []) history).next_promise)
clear-settles_each_example = clear-settles_each [] history null 1 (refl, (refl, (refl, (refl, tt))))

watched : State
watched = run (init ("watch" ∷ [])) (adds (ask "a" "app" "sign") ∷ [])

watched-excluded : is_excluded "sign" watched ≡ false
unfolding watched run step add validate_add_params has_request register type_count Assoc.get
    add_pending_approval_origin add_to_store
watched-excluded = refl

pending_count-run_example : pending_count "app" "sign" watched ≤ 1
unfolding watched
pending_count-run_example =
    pending_count-run ("watch" ∷ []) (adds (ask "a" "app" "sign") ∷ []) "app" "sign"
      watched-excluded

accept_loses_example :
    let t = (accept "a" (number 1) true one_pending).1 in
    (t.settled ≡ one_pending.settled)
    × (settlements 0 t ≡ 0)
    × (waits 0 t ≡ 0)
    × (0 < t.next_promise)
accept_loses_example =
    accept_loses "a" (number 1) true one_pending one_pending-IsValid asked 0 one_pending-IsConserved
      one_pending-get one_pending-approval refl refl

abbrev session : Session
session =
    nest (some "outer") none none "x" (nest none (some "wait") (some false) "y" done done) done
