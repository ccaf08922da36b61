-- ===== src/Messenger/Actions.antt =====
-- The registry of actions in ControllerMessenger.ts.
use text.Mathlib.TextEquality.{eq_iff}
use fork_metamask_core.Common.{
  ◌≡◌, String, Option, none, some, List, arith, if◌then◌else◌, ◌==◌, string_eq,
}
use fork_metamask_core.Common.Assoc.{get-set, get-delete}
use fork_metamask_core.Common.Assoc
use fork_metamask_core.Common.Monad.{Result, ok, err}
use fork_metamask_core.Common.Js.{Value}
use fork_metamask_core.Messenger.Bus.{
  Messenger, ActionHandler, Error, already_registered, not_registered, thrown,
  register_action_handler, unregister_action_handler, call,
}

-- What a caller gets from a handler, and from no handler.
abbrev pub reply : String → Option ActionHandler → List Value → Result Error Value
reply type none params = err (not_registered type)
reply type (some h) params = elim (h params) [ ok v ↦ ok v | err e ↦ err (thrown e) ]

pub call-reply :
    (type : String) (params : List Value) (m : Messenger)
    → call type params m ≡ (reply type (Assoc.get type m.actions) params, m)
unfolding call
call-reply type params m = ground arith

-- After a registration the type has the new handler if it had none, and else the old one, with an
-- error; every other type answers as before.
pub call-register :
    (type k : String) (h : ActionHandler) (params : List Value) (m : Messenger)
    → let r = register_action_handler type h m in
      (r.0 ≡ (if Assoc.has type m.actions then err (already_registered type) else ok tt))
      × ((call k params r.1).0 ≡ (
          if type == k
          then (if Assoc.has type m.actions then (call k params m).0 else reply k (some h) params)
          else (call k params m).0))
unfolding register_action_handler call
call-register type k h params m =
    (ground arith, ground (arith, get-set type k h m.actions, eq_iff type k))

-- After `unregisterActionHandler` only the one type has lost its handler.
pub call-unregister :
    (type k : String) (params : List Value) (m : Messenger)
    → (call k params (unregister_action_handler type m).1).0
      ≡ (if type == k then err (not_registered k) else (call k params m).0)
unfolding unregister_action_handler call
call-unregister type k params m = ground (arith, get-delete type k m.actions, eq_iff type k)
