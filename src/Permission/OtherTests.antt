-- ===== src/Permission/OtherTests.antt =====
-- The theorems on SubjectMetadataController.ts and on the answers to permissions requests at concrete
-- inputs.
use fork_metamask_core.Common.{◌≡◌, refl, none, List, [], ◌∷◌, string_eq}
use fork_metamask_core.Common.Assoc.{Assoc}
use fork_metamask_core.Common.Assoc
use fork_metamask_core.Common.Js.{Value, undefined, str, object}
use fork_metamask_core.Permission.State.{SubjectMetadata, Error}
use fork_metamask_core.Permission.Metadata.{
  Cache, new_cache, add_subject_metadata, get_subject_metadata,
}
use fork_metamask_core.Permission.Known
use fork_metamask_core.Permission.Known.{
  IsBounded, was_permitted, run-IsBounded, add_subject_metadata_lem,
}
use fork_metamask_core.Permission.Approvals.{
  IsAnswer, outcome, accept_permissions_request, accept_permissions_request_lem,
}
use fork_metamask_core.Approval
use fork_metamask_core.Approval.State.{init}
use fork_metamask_core.Approval.Requests.{AddOptions}
use fork_metamask_core.Approval.Calls.{adds}
use fork_metamask_core.Approval.Invariant.{init-IsValid}
use fork_metamask_core.Approval.Runs.{run-IsValid}

-- A table of what is known that is full: metadata that is added for its only subject is not kept.
abbrev known_site : SubjectMetadata
known_site = record {
  origin = "site";
  name = str "";
  subject_type = none;
  extension_id = undefined;
  icon_url = undefined;
  rest = object 0;
}

abbrev full_cache : Cache
full_cache = record { subject_metadata = []; encountered = "site" ∷ [] }

add_subject_metadata_lem_example :
    get_subject_metadata "site" (add_subject_metadata 1 [] known_site full_cache) ≡ none
unfolding Assoc.get
add_subject_metadata_lem_example = add_subject_metadata_lem 1 [] known_site full_cache "site"

abbrev known_calls : List Known.Call
known_calls = Known.adds [] known_site ∷ Known.trims [] ∷ Known.clears ∷ []

run-IsBounded_example :
    IsBounded 1
      (was_permitted [] known_calls)
      (Known.run 1 known_calls (record { subject_metadata = []; encountered = [] }))
unfolding new_cache Assoc.get
run-IsBounded_example =
    run-IsBounded 1 [] (("old", known_site) ∷ [])
      (record { subject_metadata = []; encountered = [] }) known_calls refl

-- A permissions request that waits in ApprovalController.
abbrev permissions_request : AddOptions
permissions_request = record {
  id = str "p";
  origin = str "app";
  type = str "wallet_requestPermissions";
  request_data = object 1;
  request_state = undefined;
  expects_result = none;
  now = 7;
  fresh_id = "fresh";
}

abbrev asked : Approval.State.State
asked = Approval.Calls.run (init []) (adds permissions_request ∷ [])

abbrev as_value : Error → Value
as_value e = object 0

accept_permissions_request_lem_example :
    IsAnswer as_value
      (λ e. undefined)
      "p"
      (outcome as_value (λ e. undefined) [] undefined)
      asked
      (accept_permissions_request as_value (λ e. undefined) "p" [] undefined asked)
      (Assoc.get "p" asked.pending_approvals)
accept_permissions_request_lem_example =
    accept_permissions_request_lem as_value (λ e. undefined) "p" asked [] undefined
      (run-IsValid (init []) (adds permissions_request ∷ []) (init-IsValid [])) refl
