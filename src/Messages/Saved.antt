-- ===== src/Messages/Saved.antt =====
-- What AbstractMessageManager.ts saves in its state, along any calls of its methods.
use fork_metamask_core.Common.{
  ◌≡◌, refl, sym, subst, String, Bool, true, false, Option, none, some, List, [], ◌∷◌, length, ◌==◌,
  string_eq, inl, inr, Option-cases, Bool-cases,
}
use fork_metamask_core.Common.Monad.{Result, ok, err, and_then, pure}
use fork_metamask_core.Common.Js.{Value}
use fork_metamask_core.Messages.Manager.{
  Message, Params, Manager, Error, init, SecurityProvider, get_message, get_unapproved_messages,
  get_unapproved_messages_count, save_message_list, update_message, emit, status_set,
  set_message_status, add_message, approve_message, set_message_status_approved,
  set_message_status_in_progress, set_result, set_message_status_and_result,
  set_message_status_signed, set_metadata, reject_message, wait_for_finish_status, security_check,
  is_finish,
}

-- A call of a method, by a client or by a subclass.
pub data Call : Type 0 where
  adds : SecurityProvider → Message → Call
  approves : Params → Call
  progresses : String → Call
  signs : String → String → Call
  sets_status : String → String → Call
  sets_both : String → String → String → Call
  sets_result : String → String → Call
  sets_metadata : String → Value → Call
  rejects_message : String → Call
  waits : Params → String → Call

unfoldable pub serve : Call → Manager → Manager
serve (adds provider m) s = (add_message provider m s).1
serve (approves params) s = (approve_message (λ (p : Params). p) params s).1
serve (progresses id) s = (set_message_status_in_progress id s).1
serve (signs id sig) s = (set_message_status_signed id sig s).1
serve (sets_status id status) s = (set_message_status id status s).1
serve (sets_both id sig status) s = (set_message_status_and_result id sig status s).1
serve (sets_result id sig) s = (set_result id sig s).1
serve (sets_metadata id v) s = (set_metadata id v s).1
serve (rejects_message id) s = (reject_message id s).1
serve (waits params name) s = (wait_for_finish_status params name s).1

unfoldable pub serve_all : List Call → Manager → Manager
serve_all [] s = s
serve_all (c ∷ cs) s = serve_all cs (serve c s)

-- What every call keeps that each of the primitive writes keeps.
pub record IsKept (P : Manager → Type 0) : Type 1 where
  pub saves :
      (s : Manager) (ms : List Message) (b : Bool)
      → P s
      → P (save_message_list b (record s { messages = ms }))
  pub emits : (s : Manager) (id event : String) (m : Message) → P s → P (emit id event m s)
  pub waits_on :
      (s : Manager) (params : Params) (name : String)
      → P s
      → P (wait_for_finish_status params name s).1

state-and_then :
    {A B : Type 0} (r : Result Error A × Manager) (b : B) → (and_then r (λ _. pure b)).1 ≡ r.1
state-and_then (ok a, s) b = refl
state-and_then (err e, s) b = refl

-- Preparing a message for its signature changes nothing.
approve-state :
    (params : Params) (s : Manager)
    → (approve_message (λ (p : Params). p) params s).1
      ≡ (set_message_status_approved params.metamask_id s).1
unfolding approve_message
approve-state params s = state-and_then (set_message_status_approved params.metamask_id s) params

module _ (P : Manager → Type 0) (kept : IsKept P) where
  status_set-kept :
      (id status : String) (m : Message) (s : Manager) → P s → P (status_set id status m s)
  unfolding status_set update_message
  status_set-kept id status m s p =
      let v = kept.emits _ id status _ (kept.saves s _ true p) in
      elim (Bool-cases (is_finish status s)) [
        | inl y ↦ rw (y) (kept.emits _ id "finished" _ v)
        | inr n ↦ rw (n) v
      ]

  set_message_status-kept :
      (id status : String) (s : Manager) → P s → P (set_message_status id status s).1
  unfolding set_message_status
  set_message_status-kept id status s p = elim (Option-cases (get_message id s)) [
    | inl n ↦ rw (n) p
    | inr (m, e) ↦ rw (e) (status_set-kept id status m s p)
  ]

  set_result-kept : (id sig : String) (s : Manager) → P s → P (set_result id sig s).1
  unfolding set_result update_message
  set_result-kept id sig s p = elim (Option-cases (get_message id s)) [
    | inl n ↦ rw (n) p
    | inr (m, e) ↦ rw (e) (kept.saves s _ false p)
  ]

  approved-kept : (id : Option String) (s : Manager) → P s → P (set_message_status_approved id s).1
  approved-kept none s p = p
  approved-kept (some id) s p = set_message_status-kept id "approved" s p

  serve-kept : (c : Call) (s : Manager) → P s → P (serve c s)
  unfolding serve add_message approve_message set_metadata set_message_status_and_result
      update_message set_result set_message_status
  serve-kept (adds provider m) s p = elim (Option-cases (security_check provider m)) [
    | inl n ↦ rw (n, serve) p
    | inr (x, e) ↦ rw (e, serve) (kept.saves s _ true p)
  ]
  serve-kept (approves params) s p =
      subst P (sym (approve-state params s)) (approved-kept params.metamask_id s p)
  serve-kept (progresses id) s p = set_message_status-kept id "inProgress" s p
  serve-kept (signs id sig) s p = set_message_status-kept id "signed" _ (set_result-kept id sig s p)
  serve-kept (sets_status id status) s p = set_message_status-kept id status s p
  serve-kept (sets_both id sig status) s p =
      set_message_status-kept id status _ (set_result-kept id sig s p)
  serve-kept (sets_result id sig) s p = set_result-kept id sig s p
  serve-kept (sets_metadata id v) s p = elim (Option-cases (get_message id s)) [
    | inl n ↦ rw (n, serve) p
    | inr (m, e) ↦ rw (e, serve) (kept.saves s _ false p)
  ]
  serve-kept (rejects_message id) s p = set_message_status-kept id "rejected" s p
  serve-kept (waits params name) s p = kept.waits_on s params name p

  pub serve_all-kept : (cs : List Call) (s : Manager) → P s → P (serve_all cs s)
  unfolding serve_all
  serve_all-kept [] s p = p
  serve_all-kept (c ∷ cs) s p = serve_all-kept cs (serve c s) (serve-kept c s p)

-- The state shows the unapproved messages and their number.
abbrev pub IsSaved : Manager → Type 0
IsSaved s =
    (s.unapproved_messages ≡ get_unapproved_messages s.messages)
    × (s.unapproved_messages_count ≡ get_unapproved_messages_count s.messages)

IsSaved-kept : IsKept IsSaved
unfolding save_message_list emit wait_for_finish_status
IsSaved-kept = record {
  saves = λ s ms b p. (refl, refl);
  emits = λ s id event m p. elim (Bool-cases (event == "finished")) [
    | inl y ↦ rw (y) p
    | inr n ↦ rw (n) p
  ];
  waits_on = λ s params name p. p;
}

-- From a new manager and after any calls, the state holds the messages that are unapproved, by id,
-- and their number.
pub saved-serve_all :
    (statuses : List String) (cs : List Call)
    → let s = serve_all cs (init statuses) in
      (s.unapproved_messages ≡ get_unapproved_messages s.messages)
      × (s.unapproved_messages_count ≡ length (get_unapproved_messages s.messages))
saved-serve_all statuses cs = serve_all-kept IsSaved IsSaved-kept cs (init statuses) (refl, refl)
