-- ===== src/Messages/Manager.antt =====
-- packages/message-manager/src/AbstractMessageManager.ts. Each message is an object of its own, so
-- the table of messages is written where the source writes to a message. Statuses hold no colon, so
-- the pair of an id and a status stands for the name of the event.
use fork_metamask_core.Common.{
  ℕ, suc, String, Bool, true, false, not, ◌||◌, Option, none, some, List, [], ◌∷◌, ◌++◌,
  if◌then◌else◌, length, keep, find, any, ◌==◌, string_eq,
}
use fork_metamask_core.Common.Assoc.{Assoc}
use fork_metamask_core.Common.Assoc
use fork_metamask_core.Common.Monad.{
  ok, Action, ◌>>=◌, ◌>>◌, pure, throw, get_state, modify, from_option,
}
use fork_metamask_core.Common.Js.{Value}

-- `AbstractMessage`.
pub record Message : Type 0 where
  pub id : String
  pub time : ℕ
  pub status : String
  pub signing_type : String
  pub raw_sig : Option String
  pub security_provider_response : Option Value
  pub security_alert_response : Option Value
  pub metadata : Option Value
  pub error : Option String

-- `AbstractMessageParams` and `AbstractMessageParamsMetamask`.
pub record Params : Type 0 where
  pub metamask_id : Option String
  pub from : String
  pub origin : Option String
  pub defer_set_as_signed : Option Bool

-- What the promise of a finish is settled with. The errors keep the name of the message.
pub data FinishError : Type 0 where
  user_denied : String → FinishError
  message_error : String → Option String → FinishError
  unknown_problem : String → Params → FinishError

pub data Settlement : Type 0 where
  resolves : Option String → Settlement
  rejects : FinishError → Settlement

-- A listener that `waitForFinishStatus` added: its promise's number, the id that it listens for.
pub record Waiter : Type 0 where
  pub promise : ℕ
  pub id : String
  pub params : Params
  pub message_name : String

-- What the hub emitted.
pub data HubEvent : Type 0 where
  update_badge : HubEvent
  changed : String → String → Message → HubEvent

pub record Manager : Type 0 where
  pub messages : List Message
  pub unapproved_messages : Assoc String Message
  pub unapproved_messages_count : ℕ
  pub additional_finish_statuses : List String
  pub emitted : List HubEvent
  pub waiters : List Waiter
  pub settlements : List (ℕ × Settlement)
  pub next_promise : ℕ

abbrev pub init : List String → Manager
init statuses = record {
  messages = [];
  unapproved_messages = [];
  unapproved_messages_count = 0;
  additional_finish_statuses = statuses;
  emitted = [];
  waiters = [];
  settlements = [];
  next_promise = 0;
}

pub data Error : Type 0 where
  message_not_found : Option String → Error
  security_check_failed : Error

abbrev pub M : Type 0 → Type 0
M = Action Manager Error

abbrev pub is_unapproved : Message → Bool
is_unapproved m = m.status == "unapproved"

-- The `reduce` that builds an object by id.
abbrev pub by_id : List Message → Assoc String Message → Assoc String Message
by_id [] table = table
by_id (m ∷ ms) table = by_id ms (Assoc.set m.id m table)

abbrev pub get_unapproved_messages : List Message → Assoc String Message
get_unapproved_messages ms = by_id (keep is_unapproved ms) []

abbrev pub get_unapproved_messages_count : List Message → ℕ
get_unapproved_messages_count ms = length (get_unapproved_messages ms)

abbrev pub has_id : String → Message → Bool
has_id id m = m.id == id

abbrev pub get_message : String → Manager → Option Message
get_message id s = find (has_id id) s.messages

abbrev pub emit_badge : Bool → List HubEvent → List HubEvent
emit_badge emit events = if emit then update_badge ∷ events else events

unfoldable pub save_message_list : Bool → Manager → Manager
save_message_list emit_update_badge s = record s {
  unapproved_messages = get_unapproved_messages s.messages;
  unapproved_messages_count = get_unapproved_messages_count s.messages;
  emitted = emit_badge emit_update_badge s.emitted;
}

-- The write at `findIndex`; none where no message has the id.
abbrev pub replaced : Message → List Message → List Message
replaced m [] = []
replaced m (x ∷ xs) = if x.id == m.id then m ∷ xs else x ∷ replaced m xs

unfoldable pub update_message : Message → Bool → Manager → Manager
update_message m emit_update_badge s =
    save_message_list emit_update_badge (record s { messages = replaced m s.messages })

-- The callback in `waitForFinishStatus`.
unfoldable pub settlement : Message → Waiter → Settlement
settlement m w =
    if m.status == "signed"
    then resolves m.raw_sig
    else if m.status == "rejected"
    then rejects (user_denied w.message_name)
    else if m.status == "errored"
    then rejects (message_error w.message_name m.error)
    else rejects (unknown_problem w.message_name w.params)

abbrev pub waits_for : String → Waiter → Bool
waits_for id w = w.id == id

abbrev pub settle_each : Message → List Waiter → List (ℕ × Settlement)
settle_each m [] = []
settle_each m (w ∷ ws) = (w.promise, settlement m w) ∷ settle_each m ws

-- `this.hub.emit`, with the listeners of `once`, which are there for `…:finished` only.
unfoldable pub emit : String → String → Message → Manager → Manager
emit id event m s =
    let t = record s { emitted = changed id event m ∷ s.emitted } in
    if event == "finished"
    then record t {
      waiters = keep (λ w. not (waits_for id w)) s.waiters;
      settlements = settle_each m (keep (waits_for id) s.waiters) ++ s.settlements;
    }
    else t

abbrev pub is_finish : String → Manager → Bool
is_finish status s =
    status == "rejected"
    || (status == "signed"
        || (status == "errored" || any (λ x. x == status) s.additional_finish_statuses))

-- What follows once the message is found.
unfoldable pub status_set : String → String → Message → Manager → Manager
status_set id status found s =
    let m = record found { status = status } in
    let t = emit id status m (update_message m true s) in
    if is_finish status s then emit id "finished" m t else t

unfoldable pub set_message_status : String → String → M (Unit {0})
set_message_status id status = do
  s ← get_state
  m ← from_option (get_message id s) (message_not_found (some id))
  modify (status_set id status m)

-- `securityProviderRequest` is the client's; `none` is a promise that rejects.
abbrev pub SecurityProvider : Type 0
SecurityProvider = Option (Message → String → Option Value)

abbrev pub secured : Message → Option Value → Option Message
secured m none = none
secured m (some v) = some (record m { security_provider_response = some v })

abbrev pub security_check : SecurityProvider → Message → Option Message
security_check none m = some m
security_check (some request) m = secured m (request m m.signing_type)

unfoldable pub add_message : SecurityProvider → Message → M (Unit {0})
add_message provider message = do
  m ← from_option (security_check provider message) security_check_failed
  modify (λ s. save_message_list true (record s { messages = s.messages ++ m ∷ [] }))

-- A missing id is looked for as `undefined`, which no message has.
abbrev pub set_message_status_approved : Option String → M (Unit {0})
set_message_status_approved none = throw (message_not_found none)
set_message_status_approved (some id) = set_message_status id "approved"

-- `prepMessageForSigning` is abstract.
unfoldable pub approve_message : {P : Type 0} → (Params → P) → Params → M P
approve_message prep_message_for_signing params = do
  set_message_status_approved params.metamask_id
  pure (prep_message_for_signing params)

abbrev pub set_message_status_in_progress : String → M (Unit {0})
set_message_status_in_progress id = set_message_status id "inProgress"

abbrev pub result_set : String → Option Message → Manager → Manager
result_set result none s = s
result_set result (some m) s = update_message (record m { raw_sig = some result }) false s

unfoldable pub set_result : String → String → M (Unit {0})
set_result id result s = (ok tt, result_set result (get_message id s) s)

unfoldable pub set_message_status_and_result : String → String → String → M (Unit {0})
set_message_status_and_result id raw_sig status = do
  set_result id raw_sig
  set_message_status id status

abbrev pub set_message_status_signed : String → String → M (Unit {0})
set_message_status_signed id raw_sig = set_message_status_and_result id raw_sig "signed"

unfoldable pub set_metadata : String → Value → M (Unit {0})
set_metadata id metadata = do
  s ← get_state
  m ← from_option (get_message id s) (message_not_found (some id))
  modify (update_message (record m { metadata = some metadata }) false)

abbrev pub reject_message : String → M (Unit {0})
reject_message id = set_message_status id "rejected"

-- `waitForFinishStatus`, with the number of its promise. An `undefined` id is `undefined` in text.
abbrev pub waited_id : Option String → String
waited_id none = "undefined"
waited_id (some id) = id

unfoldable pub wait_for_finish_status : Params → String → M ℕ
wait_for_finish_status params message_name = do
  s ← get_state
  modify (λ t. record t {
    waiters =
        t.waiters
        ++ record {
          promise = t.next_promise;
          id = waited_id params.metamask_id;
          params = record params { metamask_id = none };
          message_name = message_name;
        }
          ∷ [];
    next_promise = suc t.next_promise;
  })
  pure s.next_promise
