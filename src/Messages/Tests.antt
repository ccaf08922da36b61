-- ===== src/Messages/Tests.antt =====
-- The theorems on AbstractMessageManager.ts at concrete inputs.
use fork_metamask_core.Common.{
  ◌≡◌, refl, String, not, if◌then◌else◌, none, some, List, [], ◌∷◌, ◌++◌, keep, ◌==◌, string_eq,
}
use fork_metamask_core.Messages.Manager.{
  Message, Params, Manager, init, get_message, waits_for, settle_each, set_message_status,
}
use fork_metamask_core.Messages.Saved.{Call, adds, approves, signs, waits}
use fork_metamask_core.Messages.Finish.{ends, set_message_status_lem}

abbrev fresh_message : String → Message
fresh_message id = record {
  id = id;
  time = 7;
  status = "unapproved";
  signing_type = "personal_sign";
  raw_sig = none;
  security_provider_response = none;
  security_alert_response = none;
  metadata = none;
  error = none;
}

abbrev params_of : String → Params
params_of id = record {
  metamask_id = some id;
  from = "0x1";
  origin = none;
  defer_set_as_signed = none;
}

abbrev session : List Call
session =
    adds none (fresh_message "a")
    ∷ adds none (fresh_message "b")
    ∷ waits (params_of "a") "Personal"
    ∷ waits (params_of "b") "Personal"
    ∷ approves (params_of "a")
    ∷ signs "a" "0xff"
    ∷ []

abbrev two_waiting : Manager
two_waiting = record (init []) {
  messages = fresh_message "a" ∷ fresh_message "b" ∷ [];
  waiters =
      record { promise = 0; id = "a"; params = params_of "a"; message_name = "Personal" }
      ∷ record { promise = 1; id = "b"; params = params_of "b"; message_name = "Personal" }
      ∷ [];
  next_promise = 2;
}

set_message_status_lem_example :
    let n = record (fresh_message "a") { status = "rejected" } in
    let t = (set_message_status "a" "rejected" two_waiting).1 in
    (get_message "b" t
      ≡ (if ◌==◌ {K = String} "a" "b" then some n else get_message "b" two_waiting))
    × (t.waiters ≡ (
        if ends "rejected" two_waiting
        then keep (λ w. not (waits_for "a" w)) two_waiting.waiters
        else two_waiting.waiters))
    × (t.settlements ≡ (
        if ends "rejected" two_waiting
        then settle_each n (keep (waits_for "a") two_waiting.waiters) ++ two_waiting.settlements
        else two_waiting.settlements))
set_message_status_lem_example =
    set_message_status_lem "a" "rejected" (fresh_message "a") two_waiting "b" refl
